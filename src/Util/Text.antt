-- ===== src/Util/Text.antt =====
-- kernel/src/util/impl/string.c over memory. A `char*` is an address; `uint8_t` counters wrap at
-- 256, `uint32_t` ones at 2 ^ 32. A loop takes fuel where the source has no counter; the theorems
-- of the children say how much is enough. `dec2str` and `hex2str` take the address of their
-- static buffer and return the memory: the source returns the buffer.
pub mod Laws
pub mod Reverse
pub mod Digits
pub mod Decimal
pub mod Hex
pub mod Bytes
mod Tests
use kess_os.Base.{ℕ, zero, suc, ◌+◌, ◌-◌, ◌/◌, ◌%◌, ◌^◌, ◌≤◌, ◌<◌, ◌==◌, ◌&&◌, ltb, leb, bit_and}
use kess_os.Base.{Bool, true, false, if◌then◌else◌, u8, u32, ◌>>>◌, Option, none, some}
use kess_os.Base.{List, [], ◌∷◌, get_or}
use kess_os.Ram.{Ram, store8}

-- `while (STR[size++]);` then `size - 1`.
unfoldable pub strlen_loop : (fuel : ℕ) → Ram → (str size : ℕ) → Option ℕ
strlen_loop zero m str size = none
strlen_loop (suc fuel) m str size =
    let rest = strlen_loop fuel m str (size + 1) in
    if m (str + size) == 0 then some (size + 1 - 1) else rest

unfoldable pub strlen : (fuel : ℕ) → Ram → (str : ℕ) → Option ℕ
unfolding strlen_loop
strlen fuel m str = strlen_loop fuel m str 0

-- The loop of `strncpy` at index `i`.
unfoldable pub strncpy_loop : (left : ℕ) → Ram → (dst src i : ℕ) → Ram
strncpy_loop zero m dst src i = m
strncpy_loop (suc left) m dst src i =
    let rest = strncpy_loop left (store8 m (dst + i) (m (src + i))) dst src (i + 1) in
    if m (src + i) == 0 then m else rest

unfoldable pub strncpy : Ram → (dst src len : ℕ) → Ram
unfolding strncpy_loop
strncpy m dst src len = strncpy_loop len m dst src 0

-- The loop of `strncmp`: it tests the pointers, not the characters, for 0.
unfoldable pub strncmp_loop : (left : ℕ) → Ram → (s1 s2 : ℕ) → ℕ
strncmp_loop zero m s1 s2 = 1
strncmp_loop (suc left) m s1 s2 =
    let rest = strncmp_loop left m (s1 + 1) (s2 + 1) in
    if s1 == 0 then 1 else if s2 == 0 then 1 else if m s1 == m s2 then rest else 0

unfoldable pub strncmp : Ram → (s1 s2 n : ℕ) → ℕ
unfolding strncmp_loop
strncmp m s1 s2 n = strncmp_loop n m s1 s2

-- The swaps at the end of `dec2str` and `hex2str`.
unfoldable pub swap_loop : (fuel : ℕ) → (buf j i : ℕ) → Ram → Ram
swap_loop zero buf j i m = m
swap_loop (suc fuel) buf j i m =
    let rest =
      swap_loop fuel buf (j + 1) (i - 1)
        (store8 (store8 m (buf + j) (m (buf + i))) (buf + i) (m (buf + j))) in
    if ltb j i then rest else m

-- A buffer and the index of its next free byte.
pub record Cursor : Type 0 where
  pub ram : Ram
  pub i : ℕ

-- `buf[i++] = c`.
unfoldable pub put : ℕ → ℕ → Cursor → Cursor
put buf c s = record { ram = store8 s.ram (buf + s.i) c; i = u8 (s.i + 1) }

-- `while (number > 0)`.
unfoldable pub dec_loop : (fuel : ℕ) → (buf number : ℕ) → Cursor → Cursor
dec_loop zero buf number s = s
dec_loop (suc fuel) buf number s =
    let rest = dec_loop fuel buf (number / 10) (put buf (number % 10 + b'0') s) in
    if ltb 0 number then rest else s

-- A terminating zero at `i`, then the swaps from both ends; `i--` wraps to 255.
unfoldable pub finish : (buf : ℕ) → Cursor → Ram
finish buf s = swap_loop 128 buf 0 (u8 (s.i + 255)) (store8 s.ram (buf + s.i) 0)

-- `number` is the 32-bit pattern of an `int`; its negation keeps the pattern 2 ^ 31, as the
-- machine does (in C it is undefined there).
unfoldable pub dec2str : Ram → (buf number : ℕ) → Ram
dec2str m buf number =
    let start : Cursor = record { ram = m; i = 0 } in
    if number == 0
    then finish buf (put buf b'0' start)
    else if ltb number (2 ^ 31)
    then finish buf (dec_loop 10 buf number start)
    else let positive = (2 ^ 32 - number) % 2 ^ 32 in
      finish buf
        (put buf b'-' (if ltb positive (2 ^ 31) then dec_loop 10 buf positive start else start))

abbrev pub ascii_numbers : List ℕ
ascii_numbers =
    b'0' ∷ b'1' ∷ b'2' ∷ b'3' ∷ b'4' ∷ b'5' ∷ b'6' ∷ b'7' ∷ b'8' ∷ b'9' ∷ b'A' ∷ b'B' ∷ b'C' ∷ b'D'
    ∷ b'E' ∷ b'F' ∷ []

-- `while (hex_num > 0)`.
unfoldable pub hex_loop : (fuel : ℕ) → (buf hex_num : ℕ) → Cursor → Cursor
hex_loop zero buf hex_num s = s
hex_loop (suc fuel) buf hex_num s =
    let rest =
      hex_loop fuel buf (hex_num >>> 4)
        (put buf (get_or ascii_numbers (bit_and (u8 hex_num) 0x0f) 0) s) in
    if ltb 0 hex_num then rest else s

unfoldable pub hex2str : Ram → (buf hex_num : ℕ) → Ram
hex2str m buf hex_num =
    let start : Cursor =
      if hex_num == 0
      then record { ram = store8 m buf b'0'; i = 1 }
      else record { ram = m; i = 0 } in
    let digits = hex_loop 8 buf hex_num start in
    let padded = if ltb hex_num 0x10 then put buf b'0' digits else digits in
    finish buf (put buf b'0' (put buf b'x' padded))

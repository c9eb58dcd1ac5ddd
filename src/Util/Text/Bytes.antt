-- ===== src/Util/Text/Bytes.antt =====
-- The conversions leave bytes in memory.
use kess_os.Base.{
  ℕ, zero, suc, ◌+◌, ◌-◌, ◌/◌, ◌%◌, ◌^◌, ◌==◌, ltb, if◌then◌else◌, Bool, true, false,
}
use kess_os.Base.{bit_and, u8, ◌>>>◌, get_or}
use kess_os.Ram.{Ram, store8}
use kess_os.Util.Text.{
  Cursor, put, dec_loop, hex_loop, swap_loop, finish, dec2str, hex2str, ascii_numbers,
}
use kess_os.Util.Text.Reverse.{IsBytes, store8-IsBytes}

if-IsBytes : (b : Bool) (m r : Ram) → IsBytes m → IsBytes r → IsBytes (if b then m else r)
if-IsBytes true m r h k = h
if-IsBytes false m r h k = k

-- A cursor whose memory holds bytes.
abbrev Filled : Cursor → Type 0
Filled s = IsBytes s.ram

if-Filled : (b : Bool) (s t : Cursor) → Filled s → Filled t → Filled (if b then s else t)
if-Filled true s t h k = h
if-Filled false s t h k = k

put-Filled : (buf c : ℕ) (s : Cursor) → Filled s → Filled (put buf c s)
unfolding put
put-Filled buf c s h = store8-IsBytes s.ram (buf + s.i) c h

dec_loop-Filled : (fuel buf n : ℕ) (s : Cursor) → Filled s → Filled (dec_loop fuel buf n s)
unfolding dec_loop
dec_loop-Filled zero buf n s h = h
dec_loop-Filled (suc fuel) buf n s h =
    if-Filled (ltb 0 n) _ s
      (dec_loop-Filled fuel buf (n / 10) _ (put-Filled buf (n % 10 + b'0') s h)) h

hex_loop-Filled : (fuel buf n : ℕ) (s : Cursor) → Filled s → Filled (hex_loop fuel buf n s)
unfolding hex_loop
hex_loop-Filled zero buf n s h = h
hex_loop-Filled (suc fuel) buf n s h =
    if-Filled (ltb 0 n) _ s
      (hex_loop-Filled fuel buf (n >>> 4) _
        (put-Filled buf (get_or ascii_numbers (bit_and (u8 n) 0x0f) 0) s h))
      h

swap_loop-IsBytes : (fuel buf j i : ℕ) (m : Ram) → IsBytes m → IsBytes (swap_loop fuel buf j i m)
unfolding swap_loop
swap_loop-IsBytes zero buf j i m h = h
swap_loop-IsBytes (suc fuel) buf j i m h =
    if-IsBytes (ltb j i) _ m
      (swap_loop-IsBytes fuel buf (j + 1) (i - 1) _
        (store8-IsBytes _ (buf + i) _ (store8-IsBytes m (buf + j) _ h)))
      h

finish-IsBytes : (buf : ℕ) (s : Cursor) → Filled s → IsBytes (finish buf s)
unfolding finish
finish-IsBytes buf s h =
    swap_loop-IsBytes 128 buf 0 (u8 (s.i + 255)) _ (store8-IsBytes s.ram (buf + s.i) 0 h)

pub dec2str-IsBytes : (m : Ram) (buf number : ℕ) → IsBytes m → IsBytes (dec2str m buf number)
unfolding dec2str
dec2str-IsBytes m buf number h =
    let start : Cursor = record { ram = m; i = 0 } in
    let positive = (2 ^ 32 - number) % 2 ^ 32 in
    if-IsBytes (number == 0) _ _ (finish-IsBytes buf _ (put-Filled buf b'0' start h)) (
      if-IsBytes (ltb number (2 ^ 31)) _ _
        (finish-IsBytes buf _ (dec_loop-Filled 10 buf number start h))
        (finish-IsBytes buf _ (
          put-Filled buf b'-' _
            (if-Filled (ltb positive (2 ^ 31)) _ _ (dec_loop-Filled 10 buf positive start h) h))))

pub hex2str-IsBytes : (m : Ram) (buf hex_num : ℕ) → IsBytes m → IsBytes (hex2str m buf hex_num)
unfolding hex2str
hex2str-IsBytes m buf hex_num h =
    let zero_first : Cursor = record { ram = store8 m buf b'0'; i = 1 } in
    let start =
      if-Filled (hex_num == 0) zero_first (record { ram = m; i = 0 }) (store8-IsBytes m buf b'0' h)
        h in
    let digits = hex_loop-Filled 8 buf hex_num _ start in
    finish-IsBytes buf _ (
      put-Filled buf b'0' _ (
        put-Filled buf b'x' _
          (if-Filled (ltb hex_num 0x10) _ _ (put-Filled buf b'0' _ digits) digits)))

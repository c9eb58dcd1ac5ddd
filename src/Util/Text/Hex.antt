-- ===== src/Util/Text/Hex.antt =====
-- `hex2str` prints `0x` and base 16, with at least two digits.
use kess_os.Base.{ℕ, zero, suc, ◌+◌, ◌-◌, ◌*◌, ◌/◌, ◌%◌, ◌^◌, ◌≤◌, ◌<◌, ◌≡◌, ◌⊎◌, ◌==◌}
use kess_os.Base.{List, [], ◌∷◌, length, get_or, if◌then◌else◌, ltb, true, false, dec_lt, ◌∙◌, refl}
use kess_os.Base.{arith, inl, inr, bit_and, bit_and_mask, leb, check_below, checked_below, ◌&&◌}
use native.Mathlib.Nat.{pow-suc, add-zero}
use kess_os.Ram.{Ram, store8}
use kess_os.Util.Text.{Cursor, put, finish, hex_loop, hex2str, ascii_numbers}
use kess_os.Util.Text.Reverse.{IsBytes}
use kess_os.Util.Text.Digits.{Pushed, Pushed-start, Pushed-put, Shows, finish-Shows}

-- What a hexadecimal digit in upper case stands for.
abbrev pub digit_value : ℕ → ℕ
digit_value c = if leb c b'9' then c - b'0' else c - b'A' + 10

abbrev pub hex_value : ℕ → List ℕ → ℕ
hex_value acc [] = acc
hex_value acc (c ∷ cs) = hex_value (acc * 16 + digit_value c) cs

abbrev pub hex_digit : ℕ → ℕ
hex_digit d = get_or ascii_numbers d 0

-- Each is one of the sixteen digits.
abbrev pub AreHexDigits : List ℕ → Type 0
AreHexDigits [] = Unit
AreHexDigits (c ∷ cs) = ((d : ℕ) × (d < 16) × (c ≡ hex_digit d)) × AreHexDigits cs

hex_digits_table :
    check_below 16
      (λ d. (digit_value (hex_digit d) == d) && ltb (hex_digit d) 128 && ltb 0 (hex_digit d))
    ≡ true
unfolding check_below
hex_digits_table = refl

pub hex_digit_lem :
    (d : ℕ) → d < 16 → (digit_value (hex_digit d) ≡ d) × (hex_digit d < 128) × (0 < hex_digit d)
hex_digit_lem d h = ground (arith, checked_below 16 _ d hex_digits_table h)

-- What the digits of `n`, pushed on `ds`, leave.
record Printed (m : Ram) (buf n limit : ℕ) (ds : List ℕ) (s : Cursor) : Type 0 where
  chars : List ℕ
  pushed : Pushed m buf chars s
  digits : AreHexDigits chars
  reads : hex_value 0 chars ≡ hex_value n ds
  short : length chars ≤ limit
  one : 0 < n → length ds < length chars
  two : 16 ≤ n → length ds + 1 < length chars
  keeps : length ds ≤ length chars

Printed-none :
    (m : Ram) (buf limit : ℕ) (ds : List ℕ) (s : Cursor)
    → Pushed m buf ds s
    → AreHexDigits ds
    → length ds ≤ limit
    → Printed m buf 0 limit ds s
Printed-none m buf limit ds s p dig short = record {
  chars = ds;
  pushed = p;
  digits = dig;
  reads = refl;
  short = short;
  one = λ h. absurd (omega arith);
  two = λ h. absurd (omega arith);
  keeps = omega arith;
}

Printed-nonempty :
    {m : Ram} {buf n limit : ℕ} {ds : List ℕ} {s : Cursor} (d : Printed m buf n limit ds s)
    → (length ds ≡ 1) ⊎ (0 < n)
    → 0 < length d.chars
Printed-nonempty d (inl one) = omega (arith, d.keeps)
Printed-nonempty d (inr pos) = omega (arith, d.one pos)

low_digit : (n : ℕ) → bit_and (n % 2 ^ 8) 0x0f ≡ n % 16
low_digit n = omega (arith, bit_and_mask 4 (n % 2 ^ 8))

hex_loop-Printed :
    (f : ℕ) (m : Ram) (buf n : ℕ) (ds : List ℕ) (s : Cursor)
    → Pushed m buf ds s
    → AreHexDigits ds
    → n < 16 ^ f
    → length ds + f < 255
    → Printed m buf n (length ds + f) ds (hex_loop f buf n s)
unfolding hex_loop
hex_loop-Printed zero m buf n ds s p dig small room =
    let none_left : n ≡ 0 = omega arith in
    rw none_left (Printed-none m buf _ ds s p dig (omega arith))
hex_loop-Printed (suc f) m buf n ds s p dig small room = elim (dec_lt 0 n) [
  | yes pos ↦
      let go : ltb 0 n ≡ true = ground arith in
      let digit = hex_digit (n % 16) in
      let facts = hex_digit_lem (n % 16) (omega arith) in
      let rest =
        hex_loop-Printed f m buf (n / 16) (digit ∷ ds) (put buf digit s)
          (Pushed-put m buf ds s digit p (omega (arith, facts.1)) (omega arith))
          ((n % 16, omega arith, refl), dig) (omega (arith, pow-suc 16 f)) (omega arith) in
      let last : n / 16 * 16 + digit_value digit ≡ n = omega (arith, facts.0) in
      rw (go, low_digit n)
        (record {
          chars = rest.chars;
          pushed = rest.pushed;
          digits = rest.digits;
          reads = rw last at (rest.reads);
          short = omega (arith, rest.short);
          one = λ _. omega (arith, rest.keeps);
          two = λ h. omega (arith, rest.one (omega arith));
          keeps = omega (arith, rest.keeps);
        })
  | no done ↦
      let none_left : n ≡ 0 = omega arith in
      rw none_left (Printed-none m buf _ ds s p dig (omega arith))
]

-- The prefix, in the order in which the source pushes it.
prefix-Shows :
    (m : Ram) (buf n : ℕ) (cs : List ℕ) (s : Cursor)
    → Pushed m buf cs s
    → 2 ≤ length cs
    → length cs ≤ 10
    → AreHexDigits cs
    → hex_value 0 cs ≡ n
    → (cs' : List ℕ) × Shows m buf (b'0' ∷ b'x' ∷ cs') (finish buf (put buf b'0' (put buf b'x' s)))
      × (2 ≤ length cs')
      × AreHexDigits cs'
      × (hex_value 0 cs' ≡ n)
prefix-Shows m buf n cs s p two short dig reads = (
  cs,
  finish-Shows m buf (b'0' ∷ b'x' ∷ cs) _
      (Pushed-put m buf (b'x' ∷ cs) _ b'0'
        (Pushed-put m buf cs s b'x' p (omega arith) (omega arith)) (omega arith) (omega arith))
      (omega arith) (omega arith),
  two,
  dig,
  reads,
)

-- `strncpy(hex_string, "0\0", 2)` has copied the one character.
Pushed-zero :
    (m : Ram) (buf : ℕ)
    → IsBytes m
    → Pushed m buf (b'0' ∷ []) (record { ram = store8 m buf b'0'; i = 1 })
unfolding put
Pushed-zero m buf bytes =
    rw (add-zero buf) at
      (Pushed-put m buf [] _ b'0' (Pushed-start m buf bytes) (omega arith) (omega arith))

-- From the first digits `ds` on: the padding and the prefix.
padded-Shows :
    (m : Ram) (buf n : ℕ) (ds : List ℕ) (start : Cursor)
    → Pushed m buf ds start
    → n < 2 ^ 32
    → AreHexDigits ds
    → length ds ≤ 1
    → (length ds ≡ 1) ⊎ (0 < n)
    → hex_value n ds ≡ n
    → let digits = hex_loop 8 buf n start in
      (cs : List ℕ) × Shows m buf (b'0' ∷ b'x' ∷ cs) (
        finish buf
          (put buf b'0' (put buf b'x' (if ltb n 0x10 then put buf b'0' digits else digits))))
      × (2 ≤ length cs)
      × AreHexDigits cs
      × (hex_value 0 cs ≡ n)
padded-Shows m buf n ds start p small dig one some_digit reads =
    let d = hex_loop-Printed 8 m buf n ds start p dig (omega arith) (omega arith) in
    elim (dec_lt n 16) [
      | yes few ↦
          let pad : ltb n 0x10 ≡ true = ground arith in
          rw pad (
            prefix-Shows m buf n (b'0' ∷ d.chars) _
              (Pushed-put m buf d.chars _ b'0' d.pushed (omega arith) (omega (arith, d.short)))
              (omega (arith, Printed-nonempty d some_digit)) (omega (arith, d.short))
              ((0, omega arith, refl), d.digits) (d.reads ∙ reads))
      | no many ↦
          let pad : ltb n 0x10 ≡ false = ground arith in
          rw pad (
            prefix-Shows m buf n d.chars _ d.pushed (omega (arith, d.two (omega arith)))
              (omega (arith, d.short)) d.digits (d.reads ∙ reads))
    ]

-- `hex2str` writes `0x` and at least two hexadecimal digits in upper case, which read back as
-- the number; no byte outside the 80 of the buffer changes.
pub hex2str-Shows :
    (m : Ram) (buf hex_num : ℕ)
    → IsBytes m
    → hex_num < 2 ^ 32
    → (cs : List ℕ) × Shows m buf (b'0' ∷ b'x' ∷ cs) (hex2str m buf hex_num)
      × (2 ≤ length cs)
      × AreHexDigits cs
      × (hex_value 0 cs ≡ hex_num)
unfolding hex2str
hex2str-Shows m buf hex_num bytes small = elim (dec_lt 0 hex_num) [
  | yes pos ↦
      let nonzero : (hex_num == 0) ≡ false = ground arith in
      rw nonzero (
        padded-Shows m buf hex_num [] _ (Pushed-start m buf bytes) small tt (omega arith) (inr pos)
          refl)
  | no none ↦
      let e : hex_num ≡ 0 = omega arith in
      rw e (
        padded-Shows m buf 0 (b'0' ∷ []) _ (Pushed-zero m buf bytes) (omega arith)
          ((0, omega arith, refl), tt) (omega arith) (inl refl) refl)
]

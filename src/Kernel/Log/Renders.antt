-- ===== src/Kernel/Log/Renders.antt =====
-- What a message with directives says.
use kess_os.Base.{ℕ, zero, suc, ◌+◌, ◌-◌, ◌^◌, ◌≤◌, ◌<◌, ◌≡◌, ◌≢◌, ◌⊎◌, inl, inr, refl, arith}
use kess_os.Base.{List, [], ◌∷◌, ◌++◌, length, ◌==◌, true, false, dec_lt}
use kess_os.Ram.{Ram}
use kess_os.Util.Text.{dec2str, hex2str}
use kess_os.Util.Text.Laws.{Holds, NonZero}
use kess_os.Util.Text.Reverse.{IsBytes}
use kess_os.Util.Text.Digits.{Shows}
use kess_os.Util.Text.Decimal.{AreDigits, IsCanonical, value, dec2str-Shows, dec2str-negative}
use kess_os.Util.Text.Hex.{AreHexDigits, hex_digit_lem, hex_value, hex2str-Shows}
use kess_os.Kernel.Log.{
  Arg, text, number, Directive, no_directive, string_directive, decimal_directive, hex_directive,
  directive, string_at,
}

-- The digits of the 32-bit pattern of an `int` in base 10, with no zero before another digit.
abbrev pub IsDecimal : (n : ℕ) → List ℕ → Type 0
IsDecimal n cs =
    ((n < 2 ^ 31) × AreDigits cs × IsCanonical cs × (value 0 cs ≡ n))
    ⊎ ((ds : List ℕ) × (cs ≡ b'-' ∷ ds)
        × (2 ^ 31 < n)
        × AreDigits ds
        × IsCanonical ds
        × (value 0 ds ≡ 2 ^ 32 - n))

-- `0x` and at least two digits in base 16.
abbrev pub IsHexadecimal : (n : ℕ) → List ℕ → Type 0
IsHexadecimal n cs =
    (ds : List ℕ) × (cs ≡ b'0' ∷ b'x' ∷ ds)
    × (2 ≤ length ds)
    × AreHexDigits ds
    × (hex_value 0 ds ≡ n)

-- A character and what follows it are not one of `%s`, `%d` and `%x`.
abbrev pub IsOrdinary : (c : ℕ) → (format : List ℕ) → Type 0
IsOrdinary c [] = Unit
IsOrdinary c (next ∷ format) = (c ≢ b'%') ⊎ ((next ≢ b's') × (next ≢ b'd') × (next ≢ b'x'))

-- The text of a format and its arguments.
pub data Renders : (format : List ℕ) → List Arg → List ℕ → Type 0 where
  end : (args : List Arg) → Renders [] args []
  char :
      (c : ℕ) {format : List ℕ} {args : List Arg} {cs : List ℕ}
      → IsOrdinary c format
      → Renders format args cs
      → Renders (c ∷ format) args (c ∷ cs)
  string :
      (str : List ℕ) {format : List ℕ} {args : List Arg} {cs : List ℕ}
      → Renders format args cs
      → Renders (b'%' ∷ b's' ∷ format) (text str ∷ args) (str ++ cs)
  decimal :
      (n : ℕ) (ds : List ℕ) {format : List ℕ} {args : List Arg} {cs : List ℕ}
      → IsDecimal n ds
      → Renders format args cs
      → Renders (b'%' ∷ b'd' ∷ format) (number n ∷ args) (ds ++ cs)
  hexadecimal :
      (n : ℕ) (ds : List ℕ) {format : List ℕ} {args : List Arg} {cs : List ℕ}
      → IsHexadecimal n ds
      → Renders format args cs
      → Renders (b'%' ∷ b'x' ∷ format) (number n ∷ args) (ds ++ cs)

-- What `plain` and `rest` say of the rest of the format, with the argument that a directive takes.
abbrev pub PrintsStep :
    Directive → (plain : Type 0) → (rest : List Arg → Type 0) → List Arg → Type 0
PrintsStep no_directive plain rest args = plain
PrintsStep string_directive plain rest (text cs ∷ args) = rest args
PrintsStep decimal_directive plain rest (number n ∷ args) = (n < 2 ^ 32) × (n ≢ 2 ^ 31) × rest args
PrintsStep hex_directive plain rest (number n ∷ args) = (n < 2 ^ 32) × rest args
PrintsStep _ plain rest _ = ⊥

-- Each directive of the format has an argument: a string for `%s`, an `int` for `%x`, and for `%d`
-- one whose absolute value is an `int` too.
abbrev pub Prints : (format : List ℕ) → List Arg → Type 0
unfolding directive
Prints [] args = Unit
Prints (c ∷ []) args = Unit
Prints (c ∷ next ∷ format) args =
    PrintsStep (directive c next) (Prints (next ∷ format) args) (Prints format) args

-- A text in memory is read back.
string_at-Holds :
    (fuel : ℕ) (m : Ram) (p : ℕ) (cs : List ℕ)
    → Holds m p cs
    → NonZero cs
    → length cs < fuel
    → string_at fuel m p ≡ cs
unfolding string_at
string_at-Holds zero m p cs h nz enough = absurd (omega arith)
string_at-Holds (suc fuel) m p [] h nz enough =
    let stop : (m p == 0) ≡ true = ground arith in rw stop refl
string_at-Holds (suc fuel) m p (c ∷ cs) h nz enough =
    let go : (m p == 0) ≡ false = ground arith in
    rw (go, h.0, string_at-Holds fuel m (p + 1) cs h.1 nz.1 (omega arith)) refl

AreDigits-NonZero : (cs : List ℕ) → AreDigits cs → NonZero cs
AreDigits-NonZero [] h = tt
AreDigits-NonZero (c ∷ cs) h = (omega arith, AreDigits-NonZero cs h.2)

AreHexDigits-NonZero : (cs : List ℕ) → AreHexDigits cs → NonZero cs
AreHexDigits-NonZero [] h = tt
AreHexDigits-NonZero (c ∷ cs) ((d, small, e), h) =
    (omega (arith, hex_digit_lem d small), AreHexDigits-NonZero cs h)

-- The text at `buf`, and memory as before outside its 80 bytes.
abbrev pub Converted : (m : Ram) (buf : ℕ) (cs : List ℕ) (out : Ram) → Type 0
Converted m buf cs out =
    (string_at 80 out buf ≡ cs) × ((x : ℕ) → (x < buf) ⊎ (buf + 80 ≤ x) → out x ≡ m x)

Shows-Converted :
    (m : Ram) (buf : ℕ) (cs : List ℕ) (out : Ram)
    → Shows m buf cs out
    → NonZero cs
    → Converted m buf cs out
Shows-Converted m buf cs out s nz = (string_at-Holds 80 out buf cs s.text nz s.fits, s.frame)

-- In a memory of bytes, the text of a 32-bit number but the least `int` is, read back from the
-- buffer, that of the `int` in base 10: its digits, or a minus sign and the digits of its absolute
-- value; there is at least one digit, and no zero stands before another digit. Memory outside the 80 bytes of the buffer stays.
pub dec2str-IsDecimal :
    (m : Ram) (buf n : ℕ)
    → IsBytes m
    → n < 2 ^ 32
    → n ≢ 2 ^ 31
    → (cs : List ℕ) × Converted m buf cs (dec2str m buf n) × IsDecimal n cs
dec2str-IsDecimal m buf n bytes small least = elim (dec_lt n (2 ^ 31)) [
  | yes pos ↦
      let (cs, shows, digits, canonical, reads) = dec2str-Shows m buf n bytes pos in
      (
        cs,
        Shows-Converted m buf cs _ shows (AreDigits-NonZero cs digits),
        inl (pos, digits, canonical, reads),
      )
  | no neg ↦
      let (cs, shows, digits, canonical, reads) =
        dec2str-negative m buf n bytes (omega arith) small in
      (
        b'-' ∷ cs,
        Shows-Converted m buf (b'-' ∷ cs) _ shows (omega arith, AreDigits-NonZero cs digits),
        inr (cs, refl, omega arith, digits, canonical, reads),
      )
]

pub hex2str-IsHexadecimal :
    (m : Ram) (buf n : ℕ)
    → IsBytes m
    → n < 2 ^ 32
    → (cs : List ℕ) × Converted m buf cs (hex2str m buf n) × IsHexadecimal n cs
hex2str-IsHexadecimal m buf n bytes small =
    let (cs, shows, two, digits, reads) = hex2str-Shows m buf n bytes small in
    (
      b'0' ∷ b'x' ∷ cs,
      Shows-Converted m buf (b'0' ∷ b'x' ∷ cs) _ shows
          (omega arith, (omega arith, AreHexDigits-NonZero cs digits)),
      (cs, refl, two, digits, reads),
    )

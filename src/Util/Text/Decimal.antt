-- ===== src/Util/Text/Decimal.antt =====
-- `dec2str` prints in base 10.
use kess_os.Base.{ℕ, zero, suc, ◌+◌, ◌-◌, ◌*◌, ◌/◌, ◌%◌, ◌^◌, ◌≤◌, ◌<◌, ◌≡◌, ◌≢◌, ◌==◌, subst, sym}
use kess_os.Base.{List, [], ◌∷◌, length, ltb, true, false, dec_lt, refl, arith}
use native.Mathlib.Nat.{pow-suc}
use kess_os.Ram.{Ram}
use kess_os.Util.Text.{Cursor, put, dec_loop, dec2str}
use kess_os.Util.Text.Reverse.{IsBytes}
use kess_os.Util.Text.Digits.{Pushed, Pushed-start, Pushed-put, Shows, finish-Shows}

-- The number that decimal digits stand for, read after `acc`.
abbrev pub value : ℕ → List ℕ → ℕ
value acc [] = acc
value acc (c ∷ cs) = value (acc * 10 + (c - b'0')) cs

abbrev pub AreDigits : List ℕ → Type 0
AreDigits [] = Unit
AreDigits (c ∷ cs) = (b'0' ≤ c) × (c ≤ b'9') × AreDigits cs

-- There is a digit, and the first is 0 only where it is the only one.
abbrev pub IsCanonical : List ℕ → Type 0
IsCanonical [] = ⊥
IsCanonical (c ∷ []) = Unit
IsCanonical (c ∷ d ∷ cs) = c ≢ b'0'

-- There is a digit, and the first is not 0.
abbrev Leads : List ℕ → Type 0
Leads [] = ⊥
Leads (c ∷ cs) = b'0' < c

Leads-IsCanonical : (cs : List ℕ) → Leads cs → IsCanonical cs
Leads-IsCanonical [] h = elim h [ ]
Leads-IsCanonical (c ∷ []) h = tt
Leads-IsCanonical (c ∷ d ∷ cs) h = λ e. absurd (omega (arith, h, e))

-- What the digits of `n`, pushed on `ds`, leave.
record Printed (m : Ram) (buf n limit : ℕ) (ds : List ℕ) (s : Cursor) : Type 0 where
  chars : List ℕ
  pushed : Pushed m buf chars s
  digits : AreDigits chars
  reads : value 0 chars ≡ value n ds
  short : length chars ≤ limit
  grows : 0 < n → length ds < length chars
  keeps : length ds ≤ length chars
  same : n ≡ 0 → chars ≡ ds
  leads : 0 < n → Leads chars

Printed-none :
    (m : Ram) (buf limit : ℕ) (ds : List ℕ) (s : Cursor)
    → Pushed m buf ds s
    → AreDigits ds
    → length ds ≤ limit
    → Printed m buf 0 limit ds s
Printed-none m buf limit ds s p dig short = record {
  chars = ds;
  pushed = p;
  digits = dig;
  reads = refl;
  short = short;
  grows = λ h. absurd (omega arith);
  keeps = omega arith;
  same = λ _. refl;
  leads = λ h. absurd (omega arith);
}

dec_loop-Printed :
    (f : ℕ) (m : Ram) (buf n : ℕ) (ds : List ℕ) (s : Cursor)
    → Pushed m buf ds s
    → AreDigits ds
    → n < 10 ^ f
    → length ds + f < 255
    → Printed m buf n (length ds + f) ds (dec_loop f buf n s)
unfolding dec_loop
dec_loop-Printed zero m buf n ds s p dig small room =
    let none_left : n ≡ 0 = omega arith in
    rw none_left (Printed-none m buf _ ds s p dig (omega arith))
dec_loop-Printed (suc f) m buf n ds s p dig small room = elim (dec_lt 0 n) [
  | yes pos ↦
      let go : ltb 0 n ≡ true = ground arith in
      let rest =
        dec_loop-Printed f m buf (n / 10) ((n % 10 + b'0') ∷ ds) (put buf (n % 10 + b'0') s)
          (Pushed-put m buf ds s (n % 10 + b'0') p (omega arith) (omega arith))
          (omega arith, omega arith, dig) (omega (arith, pow-suc 10 f)) (omega arith) in
      let last : n / 10 * 10 + (n % 10 + b'0' - b'0') ≡ n = omega arith in
      rw go (record {
        chars = rest.chars;
        pushed = rest.pushed;
        digits = rest.digits;
        reads = rw last at (rest.reads);
        short = omega (arith, rest.short);
        grows = λ _. omega (arith, rest.keeps);
        keeps = omega (arith, rest.keeps);
        same = λ e. absurd (omega arith);
        leads = λ _. elim (dec_lt 0 (n / 10)) [
          | yes more ↦ rest.leads more
          | no last_digit ↦
              let only : n / 10 ≡ 0 = omega arith in
              let lead : Leads ((n % 10 + b'0') ∷ ds) = omega arith in
              subst Leads (sym (rest.same only)) lead
        ];
      })
  | no done ↦
      let none_left : n ≡ 0 = omega arith in
      rw none_left (Printed-none m buf _ ds s p dig (omega arith))
]

digits_of :
    (m : Ram) (buf n : ℕ)
    → IsBytes m
    → n < 2 ^ 31
    → Printed m buf n 10 [] (dec_loop 10 buf n (record { ram = m; i = 0 }))
digits_of m buf n bytes small =
    dec_loop-Printed 10 m buf n [] _ (Pushed-start m buf bytes) tt (omega arith) (omega arith)

-- `dec2str` of a number that is not negative writes its decimal digits, the first of them 0
-- only for 0: they read back as the number, and no byte outside the 80 of the buffer changes.
pub dec2str-Shows :
    (m : Ram) (buf number : ℕ)
    → IsBytes m
    → number < 2 ^ 31
    → (cs : List ℕ) × Shows m buf cs (dec2str m buf number)
      × AreDigits cs
      × IsCanonical cs
      × (value 0 cs ≡ number)
unfolding dec2str
dec2str-Shows m buf number bytes small = elim (dec_lt 0 number) [
  | yes pos ↦
      let printed = digits_of m buf number bytes small in
      let nonzero : (number == 0) ≡ false = ground arith in
      let positive : ltb number (2 ^ 31) ≡ true = ground arith in
      rw (nonzero, positive)
        (
          printed.chars,
          finish-Shows m buf printed.chars _ printed.pushed (omega (arith, printed.grows pos))
              (omega (arith, printed.short)),
          printed.digits,
          Leads-IsCanonical printed.chars (printed.leads pos),
          printed.reads,
        )
  | no done ↦
      let none_left : number ≡ 0 = omega arith in
      rw none_left (
        b'0' ∷ [],
        finish-Shows m buf (b'0' ∷ []) _
            (Pushed-put m buf [] _ b'0' (Pushed-start m buf bytes) (omega arith) (omega arith))
            (omega arith) (omega arith),
        omega arith,
        tt,
        refl,
      )
]

-- `dec2str` of a negative number other than the least writes `-` and the digits of its absolute
-- value.
pub dec2str-negative :
    (m : Ram) (buf number : ℕ)
    → IsBytes m
    → 2 ^ 31 < number
    → number < 2 ^ 32
    → (cs : List ℕ) × Shows m buf (b'-' ∷ cs) (dec2str m buf number)
      × AreDigits cs
      × IsCanonical cs
      × (value 0 cs ≡ 2 ^ 32 - number)
unfolding dec2str
dec2str-negative m buf number bytes neg small =
    let wrap : (2 ^ 32 - number) % 2 ^ 32 ≡ 2 ^ 32 - number = omega arith in
    let nonzero : (number == 0) ≡ false = ground arith in
    let negative : ltb number (2 ^ 31) ≡ false = ground arith in
    let positive : ltb (2 ^ 32 - number) (2 ^ 31) ≡ true = ground arith in
    let printed = digits_of m buf (2 ^ 32 - number) bytes (omega arith) in
    rw (nonzero, negative, wrap, positive)
      (
        printed.chars,
        finish-Shows m buf (b'-' ∷ printed.chars) _
            (Pushed-put m buf printed.chars _ b'-' printed.pushed (omega arith)
              (omega (arith, printed.short)))
            (omega arith) (omega (arith, printed.short)),
        printed.digits,
        Leads-IsCanonical printed.chars (printed.leads (omega arith)),
        printed.reads,
      )

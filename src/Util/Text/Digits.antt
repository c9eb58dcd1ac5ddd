-- ===== src/Util/Text/Digits.antt =====
-- A string that is pushed backwards into a buffer and then reversed.
use kess_os.Base.{ℕ, suc, ◌+◌, ◌-◌, ◌≤◌, ◌<◌, ◌≡◌, ◌⊎◌, refl, arith}
use kess_os.Base.{List, [], ◌∷◌, length, u8, get_or, ℕ_discrete, ◌∙◌, ap}
use native.Mathlib.Nat.{add-zero}
use kess_os.Ram.{Ram, store8}
use kess_os.Ram.Laws.{store8-ne, store8_self}
use kess_os.Util.Text.{Cursor, put, finish, swap_loop}
use kess_os.Util.Text.Laws.{Holds}
use kess_os.Util.Text.Reverse.{IsBytes, store8-IsBytes, swap_loop-inside, swap_loop-outside}

-- The buffer holds `cs` from the last character to the first; the rest is as in `m`.
pub record Pushed (m : Ram) (buf : ℕ) (cs : List ℕ) (s : Cursor) : Type 0 where
  pub count : s.i ≡ length cs
  pub bytes : IsBytes s.ram
  pub char : (k : ℕ) → k < length cs → s.ram (buf + k) ≡ get_or cs (length cs - 1 - k) 0
  pub frame : (x : ℕ) → (x < buf) ⊎ (buf + length cs ≤ x) → s.ram x ≡ m x

pub Pushed-start : (m : Ram) (buf : ℕ) → IsBytes m → Pushed m buf [] (record { ram = m; i = 0 })
Pushed-start m buf b = record {
  count = refl;
  bytes = b;
  char = λ k h. absurd (omega arith);
  frame = λ x h. refl;
}

pub Pushed-put :
    (m : Ram) (buf : ℕ) (cs : List ℕ) (s : Cursor) (c : ℕ)
    → Pushed m buf cs s
    → c < 256
    → length cs < 255
    → Pushed m buf (c ∷ cs) (put buf c s)
unfolding put
Pushed-put m buf cs s c p small room = record {
  count = omega (arith, p.count);
  bytes = store8-IsBytes s.ram (buf + s.i) c p.bytes;
  char =
      λ k h. elim (ℕ_discrete k (length cs)) [ yes e ↦ newest k e | no ne ↦ older k (omega arith) ];
  frame = λ x h. ground (arith, p.count, p.frame x, store8-ne s.ram (buf + s.i) c x);
}
  where
    newest :
        (k : ℕ)
        → k ≡ length cs
        → store8 s.ram (buf + s.i) c (buf + k) ≡ get_or (c ∷ cs) (suc (length cs) - 1 - k) 0
    newest k e =
        let at_top : suc (length cs) - 1 - k ≡ 0 = omega arith in
        let here : buf + k ≡ buf + s.i = omega (arith, p.count) in
        rw (at_top, here) (store8_self s.ram (buf + s.i) c ∙ omega arith)

    older :
        (k : ℕ)
        → k < length cs
        → store8 s.ram (buf + s.i) c (buf + k) ≡ get_or (c ∷ cs) (suc (length cs) - 1 - k) 0
    older k l =
        let below : suc (length cs) - 1 - k ≡ suc (length cs - 1 - k) = omega arith in
        rw below (
          store8-ne s.ram (buf + s.i) c (buf + k) (λ e. absurd (omega (arith, p.count)))
          ∙ p.char k l)

Holds-of :
    (m : Ram) (p : ℕ) (cs : List ℕ)
    → ((k : ℕ) → k < length cs → m (p + k) ≡ get_or cs k 0)
    → m (p + length cs) ≡ 0
    → Holds m p cs
Holds-of m p [] h z = rw (add-zero p) at z
Holds-of m p (c ∷ cs) h z = (
  rw (add-zero p) at (h 0 (omega arith)),
  Holds-of m (p + 1) cs (λ k l. ap m (omega arith) ∙ h (suc k) (omega arith))
      (ap m (omega arith) ∙ z),
)

-- `finish` leaves the string in reading order, with its terminating zero.
pub finish-Holds :
    (m : Ram) (buf : ℕ) (cs : List ℕ) (s : Cursor)
    → Pushed m buf cs s
    → 0 < length cs
    → length cs < 80
    → Holds (finish buf s) buf cs
      × ((x : ℕ) → (x < buf) ⊎ (buf + length cs < x) → finish buf s x ≡ m x)
unfolding finish
finish-Holds m buf cs s p some_char fits = (Holds-of _ buf cs char end, outside)
  where
    ended : Ram
    ended = store8 s.ram (buf + s.i) 0

    ended_bytes : IsBytes ended
    ended_bytes = store8-IsBytes s.ram (buf + s.i) 0 p.bytes

    same : (k : ℕ) → k < length cs → ended (buf + k) ≡ s.ram (buf + k)
    same k l = store8-ne s.ram (buf + s.i) 0 (buf + k) (λ e. absurd (omega (arith, p.count)))

    char :
        (k : ℕ)
        → k < length cs
        → swap_loop 128 buf 0 (u8 (s.i + 255)) ended (buf + k) ≡ get_or cs k 0
    char k l =
        let mirror : u8 (s.i + 255) + 0 - k ≡ length cs - 1 - k = omega (arith, p.count) in
        let back : length cs - 1 - (length cs - 1 - k) ≡ k = omega arith in
        swap_loop-inside 128 buf 0 (u8 (s.i + 255)) ended ended_bytes (omega (arith, p.count)) k
          (omega arith) (omega (arith, p.count))
        ∙ (rw mirror (
            same (length cs - 1 - k) (omega arith)
            ∙ (p.char (length cs - 1 - k) (omega arith) ∙ rw back)))

    end : swap_loop 128 buf 0 (u8 (s.i + 255)) ended (buf + length cs) ≡ 0
    end =
        swap_loop-outside 128 buf 0 (u8 (s.i + 255)) ended (buf + length cs)
          (omega (arith, p.count))
        ∙ rw (← p.count) (store8_self s.ram (buf + s.i) 0)

    outside :
        (x : ℕ)
        → (x < buf) ⊎ (buf + length cs < x)
        → swap_loop 128 buf 0 (u8 (s.i + 255)) ended x ≡ m x
    outside x h = ground (
      arith,
      swap_loop-outside 128 buf 0 (u8 (s.i + 255)) ended x,
      store8-ne s.ram (buf + s.i) 0 x,
      p.count,
      p.frame x,
    )

-- The text at `buf`, and nothing written outside its 80 bytes.
pub record Shows (m : Ram) (buf : ℕ) (cs : List ℕ) (out : Ram) : Type 0 where
  pub text : Holds out buf cs
  pub fits : length cs < 80
  pub frame : (x : ℕ) → (x < buf) ⊎ (buf + 80 ≤ x) → out x ≡ m x

pub finish-Shows :
    (m : Ram) (buf : ℕ) (cs : List ℕ) (s : Cursor)
    → Pushed m buf cs s
    → 0 < length cs
    → length cs < 80
    → Shows m buf cs (finish buf s)
finish-Shows m buf cs s p some_char fits =
    let holds = finish-Holds m buf cs s p some_char fits in
    record { text = holds.0; fits = fits; frame = λ x h. holds.1 x (omega arith) }

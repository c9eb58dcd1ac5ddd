-- ===== src/Kernel/Log/Total.antt =====
-- Messages whose directives have arguments of their kinds.
use kess_os.Base.{ℕ, ◌≡◌, List, [], ◌∷◌, Option, some, refl}
use kess_os.Ram.{Ram}
use kess_os.Drivers.Video.{Canvas, kwrite}
use kess_os.Kernel.Log.{
  Status, status_color, Arg, text, number, Directive, no_directive, string_directive,
  decimal_directive, hex_directive, directive, write_arg, log_loop, log,
}

-- `plain` and `rest` say the same of what follows a character that is printed, and of what follows
-- a directive.
abbrev pub FitsStep : Directive → (plain : Type 0) → (rest : List Arg → Type 0) → List Arg → Type 0
FitsStep no_directive plain rest args = plain
FitsStep string_directive plain rest (text cs ∷ args) = rest args
FitsStep decimal_directive plain rest (number n ∷ args) = rest args
FitsStep hex_directive plain rest (number n ∷ args) = rest args
FitsStep _ plain rest _ = ⊥

-- Each directive of the format has an argument: a string for `%s`, a number for `%d` and `%x`.
abbrev pub Fits : (format : List ℕ) → List Arg → Type 0
unfolding directive
Fits [] args = Unit
Fits (c ∷ []) args = Unit
Fits (c ∷ next ∷ format) args =
    FitsStep (directive c next) (Fits (next ∷ format) args) (Fits format) args

abbrev pub Succeeds {ℓ} : {A : Type ℓ} → Option A → Type ℓ
Succeeds {A = A} r = (a : A) × (r ≡ some a)

log_loop-Fits :
    (dec_buf hex_buf color : ℕ) (format : List ℕ) (args : List Arg) (s : Canvas × Ram)
    → Fits format args
    → Succeeds (log_loop dec_buf hex_buf color format args s)
unfolding log_loop
log_loop-Fits dec_buf hex_buf color [] args s fits = (s, refl)
log_loop-Fits dec_buf hex_buf color (c ∷ []) args s fits = (kwrite (c ∷ []) color s, refl)
log_loop-Fits dec_buf hex_buf color (c ∷ next ∷ format) args s fits =
    branch (directive c next) refl args fits
      (log_loop-Fits dec_buf hex_buf color (next ∷ format) args (kwrite (c ∷ []) color s))
      (log_loop-Fits dec_buf hex_buf color format)
  where
    branch :
        (d : Directive)
        → directive c next ≡ d
        → (args : List Arg) → Fits (c ∷ next ∷ format) args
        → (Fits (next ∷ format) args
            → Succeeds
                (log_loop dec_buf hex_buf color (next ∷ format) args (kwrite (c ∷ []) color s)))
        → ((args : List Arg) (s : Canvas × Ram)
            → Fits format args
            → Succeeds (log_loop dec_buf hex_buf color format args s))
        → Succeeds (log_loop dec_buf hex_buf color (c ∷ next ∷ format) args s)
    branch no_directive e args fits plain rest = rw (log_loop, e) (plain (rw e at fits))
    branch string_directive e (text cs ∷ args) fits plain rest =
        rw (log_loop, e) (unfold write_arg in rest args _ (rw e at fits))
    branch decimal_directive e (number n ∷ args) fits plain rest =
        rw (log_loop, e) (unfold write_arg in rest args _ (rw e at fits))
    branch hex_directive e (number n ∷ args) fits plain rest =
        rw (log_loop, e) (unfold write_arg in rest args _ (rw e at fits))
    branch string_directive e [] fits plain rest = absurd (rw e at fits)
    branch decimal_directive e [] fits plain rest = absurd (rw e at fits)
    branch hex_directive e [] fits plain rest = absurd (rw e at fits)
    branch string_directive e (number n ∷ args) fits plain rest = absurd (rw e at fits)
    branch decimal_directive e (text cs ∷ args) fits plain rest = absurd (rw e at fits)
    branch hex_directive e (text cs ∷ args) fits plain rest = absurd (rw e at fits)

-- `log` reads no argument that was not passed, and none as another type, when each directive of the
-- format has an argument of its kind: it then writes the whole message.
pub log-Fits :
    (dec_buf hex_buf : ℕ) (format : List ℕ) (status : Status) (args : List Arg) (s : Canvas × Ram)
    → Fits format args
    → Succeeds (log dec_buf hex_buf format status args s)
unfolding log
log-Fits dec_buf hex_buf format status args s fits =
    log_loop-Fits dec_buf hex_buf (status_color status) format args _ fits

-- ===== src/Kernel/Log/Kept.antt =====
-- Messages are written on the same frame buffer.
use kess_os.Base.{ℕ, ◌≡◌, refl, ◌∙◌, List, [], ◌∷◌, Option, none, some}
use kess_os.Ram.{Ram}
use kess_os.Drivers.Video.{Canvas, Framebuffer, kwrite}
use kess_os.Drivers.Video.Kept.{IsOn, kwrite-lfb}
use kess_os.Kernel.Log.{
  Status, status_color, status_prefix, Arg, Directive, no_directive, string_directive,
  decimal_directive, hex_directive, directive, convert, write_arg, log_loop, log,
}

module _ (lfb : Framebuffer) where
  write_arg-IsOn :
      (dec_buf hex_buf color : ℕ) (d : Directive) (arg : Arg) (s : Canvas × Ram)
      → s.0.lfb ≡ lfb
      → IsOn lfb (write_arg dec_buf hex_buf color d arg s)
  unfolding write_arg
  write_arg-IsOn dec_buf hex_buf color d arg (canvas, m) e =
      converted (convert dec_buf hex_buf d arg m)
    where
      converted :
          (r : Option (List ℕ × Ram))
          → IsOn lfb (elim r [ none ↦ none | some x ↦ some (kwrite x.0 color (canvas, x.1)) ])
      converted none = tt
      converted (some (str, m')) = kwrite-lfb str color (canvas, m') ∙ e

  abbrev Rest : (dec_buf hex_buf color : ℕ) (format : List ℕ) → Type 0
  Rest dec_buf hex_buf color format =
      (rest : List Arg) (s : Canvas × Ram)
      → s.0.lfb ≡ lfb
      → IsOn lfb (log_loop dec_buf hex_buf color format rest s)

  log_loop-IsOn :
      (dec_buf hex_buf color : ℕ) (format : List ℕ) (args : List Arg) (s : Canvas × Ram)
      → s.0.lfb ≡ lfb
      → IsOn lfb (log_loop dec_buf hex_buf color format args s)
  unfolding log_loop
  log_loop-IsOn dec_buf hex_buf color [] args s e = e
  log_loop-IsOn dec_buf hex_buf color (c ∷ []) args s e = kwrite-lfb (c ∷ []) color s ∙ e
  log_loop-IsOn dec_buf hex_buf color (c ∷ next ∷ format) args s e =
      branch (directive c next) refl args
        (log_loop-IsOn dec_buf hex_buf color (next ∷ format) args (kwrite (c ∷ []) color s)
          (kwrite-lfb (c ∷ []) color s ∙ e))
        λ rest s' on. log_loop-IsOn dec_buf hex_buf color format rest s' on
    where
      write :
          Rest dec_buf hex_buf color format
          → (rest : List Arg) (r : Option (Canvas × Ram)) → IsOn lfb r
          → IsOn lfb
              (elim r [ none ↦ none | some s' ↦ log_loop dec_buf hex_buf color format rest s' ])
      write go rest none on = tt
      write go rest (some s') on = go rest s' on

      branch :
          (d : Directive)
          → directive c next ≡ d
          → (args : List Arg)
          → IsOn lfb (log_loop dec_buf hex_buf color (next ∷ format) args (kwrite (c ∷ []) color s))
          → Rest dec_buf hex_buf color format
          → IsOn lfb (log_loop dec_buf hex_buf color (c ∷ next ∷ format) args s)
      branch no_directive h args plain go = rw (log_loop, h) plain
      branch string_directive h [] plain go = rw (log_loop, h) tt
      branch decimal_directive h [] plain go = rw (log_loop, h) tt
      branch hex_directive h [] plain go = rw (log_loop, h) tt
      branch string_directive h (arg ∷ rest) plain go =
          rw (log_loop, h)
            (write go rest _ (write_arg-IsOn dec_buf hex_buf color string_directive arg s e))
      branch decimal_directive h (arg ∷ rest) plain go =
          rw (log_loop, h)
            (write go rest _ (write_arg-IsOn dec_buf hex_buf color decimal_directive arg s e))
      branch hex_directive h (arg ∷ rest) plain go =
          rw (log_loop, h)
            (write go rest _ (write_arg-IsOn dec_buf hex_buf color hex_directive arg s e))

  pub log-IsOn :
      (dec_buf hex_buf : ℕ) (format : List ℕ) (status : Status) (args : List Arg) (s : Canvas × Ram)
      → s.0.lfb ≡ lfb
      → IsOn lfb (log dec_buf hex_buf format status args s)
  unfolding log
  log-IsOn dec_buf hex_buf format status args s e =
      log_loop-IsOn dec_buf hex_buf (status_color status) format args _
        (kwrite-lfb (status_prefix status) (status_color status) s ∙ e)

-- ===== src/Kernel/Log/Laws.antt =====
-- Messages without directives.
use kess_os.Base.{ℕ, ◌≡◌, ◌≢◌, List, [], ◌∷◌, ◌++◌, some, refl, ◌==◌, false, arith}
use kess_os.Ram.{Ram}
use kess_os.Drivers.Video.{Canvas, kwrite}
use kess_os.Drivers.Video.Append.{kwrite-append}
use kess_os.Kernel.Log.{
  Status, status_color, status_prefix, Arg, no_directive, directive, log_loop, log,
}

abbrev pub IsPlain : List ℕ → Type 0
IsPlain [] = Unit
IsPlain (c ∷ cs) = (c ≢ b'%') × IsPlain cs

directive-plain : (c next : ℕ) → c ≢ b'%' → directive c next ≡ no_directive
unfolding directive
directive-plain c next h = let test : (c == b'%') ≡ false = ground arith in rw test refl

log_loop-plain :
    (dec_buf hex_buf color : ℕ) (format : List ℕ) (args : List Arg) (s : Canvas × Ram)
    → IsPlain format
    → log_loop dec_buf hex_buf color format args s ≡ some (kwrite format color s)
unfolding log_loop
log_loop-plain dec_buf hex_buf color [] args s h = unfold kwrite in refl
log_loop-plain dec_buf hex_buf color (c ∷ []) args s h = refl
log_loop-plain dec_buf hex_buf color (c ∷ next ∷ format) args s h =
    rw
      (
        log_loop,
        directive-plain c next h.0,
        log_loop-plain dec_buf hex_buf color (next ∷ format) args (kwrite (c ∷ []) color s) h.1,
        kwrite-append (c ∷ []) (next ∷ format) color s,
      )
      refl

-- A message without `%` is written after the prefix of its status, in the colour of the status, as
-- one text; arguments that it does not use are not looked at.
pub log-kwrite :
    (dec_buf hex_buf : ℕ) (format : List ℕ) (status : Status) (args : List Arg) (s : Canvas × Ram)
    → IsPlain format
    → log dec_buf hex_buf format status args s
      ≡ some (kwrite (status_prefix status ++ format) (status_color status) s)
unfolding log
log-kwrite dec_buf hex_buf format status args s h =
    rw
      (
        log_loop-plain dec_buf hex_buf (status_color status) format args
            (kwrite (status_prefix status) (status_color status) s) h,
        kwrite-append (status_prefix status) format (status_color status) s,
      )
      refl

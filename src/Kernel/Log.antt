-- ===== src/Kernel/Log.antt =====
-- kernel/src/kernel.c: `log` on the canvas. A format is a list of bytes without its terminating
-- zero; `none` stands for a `va_arg` with no argument left or one of another type. `dec_buf` and
-- `hex_buf` are the addresses of the static buffers of `dec2str` and `hex2str`.
pub mod Laws
pub mod Total
pub mod Renders
pub mod Written
pub mod Refines
pub mod Kept
mod Tests
use kess_os.Base.{
  ℕ, zero, suc, ◌+◌, ◌==◌, if◌then◌else◌, List, [], ◌∷◌, Option, none, some, ◌%◌, ◌^◌,
}
use kess_os.Ram.{Ram}
use kess_os.Util.Text.{dec2str, hex2str}
use kess_os.Drivers.Video.{Canvas, kwrite}

-- `STATUS`, and any other value of the parameter.
pub data Status : Type 0 where
  s_warning s_info s_critical s_panic s_other : Status

abbrev pub status_color : Status → ℕ
status_color s_warning = 0x800080
status_color s_info = 0x00FF00
status_color s_panic = 0xFF0000
status_color s_critical = 0xFF0000
status_color s_other = 0xFFFFFF

-- "[WARNING] ", "[INFO] ", "** KERNEL PANIC **\n", "[CRITICAL] ", and nothing.
abbrev pub status_prefix : Status → List ℕ
status_prefix s_warning = 0x5B ∷ b'W' ∷ b'A' ∷ b'R' ∷ b'N' ∷ b'I' ∷ b'N' ∷ b'G' ∷ 0x5D ∷ 0x20 ∷ []
status_prefix s_info = 0x5B ∷ b'I' ∷ b'N' ∷ b'F' ∷ b'O' ∷ 0x5D ∷ 0x20 ∷ []
status_prefix s_panic =
    0x2A ∷ 0x2A ∷ 0x20 ∷ b'K' ∷ b'E' ∷ b'R' ∷ b'N' ∷ b'E' ∷ b'L' ∷ 0x20 ∷ b'P' ∷ b'A' ∷ b'N' ∷ b'I'
    ∷ b'C' ∷ 0x20 ∷ 0x2A ∷ 0x2A ∷ 0x0A ∷ []
status_prefix s_critical =
    0x5B ∷ b'C' ∷ b'R' ∷ b'I' ∷ b'T' ∷ b'I' ∷ b'C' ∷ b'A' ∷ b'L' ∷ 0x5D ∷ 0x20 ∷ []
status_prefix s_other = []

-- An argument: a string, or the 32-bit pattern of a number.
pub data Arg : Type 0 where
  text : List ℕ → Arg
  number : ℕ → Arg

-- The cases of the `switch` on the character after `%`.
pub data Directive : Type 0 where
  string_directive decimal_directive hex_directive no_directive : Directive

unfoldable pub directive : (c next : ℕ) → Directive
directive c next =
    if c == b'%'
    then if next == b's'
      then string_directive
      else if next == b'd'
      then decimal_directive
      else if next == b'x'
      then hex_directive
      else no_directive
    else no_directive

-- The string at `p`, of at most `fuel` bytes.
unfoldable pub string_at : (fuel : ℕ) → Ram → (p : ℕ) → List ℕ
string_at zero m p = []
string_at (suc fuel) m p =
    let rest = string_at fuel m (p + 1) in if m p == 0 then [] else m p ∷ rest

-- The text of an argument, with the memory after the conversion.
unfoldable pub convert : (dec_buf hex_buf : ℕ) → Directive → Arg → Ram → Option (List ℕ × Ram)
unfolding string_at
convert dec_buf hex_buf string_directive (text cs) m = some (cs, m)
convert dec_buf hex_buf decimal_directive (number n) m =
    let m' = dec2str m dec_buf n in some (string_at 80 m' dec_buf, m')
convert dec_buf hex_buf hex_directive (number n) m =
    let m' = hex2str m hex_buf n in some (string_at 80 m' hex_buf, m')
convert dec_buf hex_buf _ _ m = none

-- The write of a converted argument; `none` where there is none.
unfoldable pub write_arg :
    (dec_buf hex_buf color : ℕ) → Directive → Arg → Canvas × Ram → Option (Canvas × Ram)
unfolding convert
write_arg dec_buf hex_buf color d arg (canvas, m) = elim (convert dec_buf hex_buf d arg m) [
  | none ↦ none
  | some r ↦ some (kwrite r.0 color (canvas, r.1))
]

-- The loop over the format, at each character that is followed by `next`.
unfoldable pub log_loop :
    (dec_buf hex_buf color : ℕ)
    → (format : List ℕ) → List Arg
    → Canvas × Ram
    → Option (Canvas × Ram)
unfolding directive write_arg
log_loop dec_buf hex_buf color [] args s = some s
log_loop dec_buf hex_buf color (c ∷ []) args s = some (kwrite (c ∷ []) color s)
log_loop dec_buf hex_buf color (c ∷ next ∷ format) args s = elim (directive c next) [
  | no_directive ↦ log_loop dec_buf hex_buf color (next ∷ format) args (kwrite (c ∷ []) color s)
  | d ↦ elim args [
    | [] ↦ none
    | arg ∷ args' ↦ elim (write_arg dec_buf hex_buf color d arg s) [
      | none ↦ none
      | some s' ↦ log_loop dec_buf hex_buf color format args' s'
    ]
  ]
]

unfoldable pub log :
    (dec_buf hex_buf : ℕ)
    → (format : List ℕ) → Status
    → List Arg
    → Canvas × Ram
    → Option (Canvas × Ram)
unfolding log_loop
log dec_buf hex_buf format status args s =
    let color = status_color status in
    log_loop dec_buf hex_buf color format args (kwrite (status_prefix status) color s)

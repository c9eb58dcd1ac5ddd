-- ===== src/Kernel/Log/Refines.antt =====
-- `log` refines the text of its format and arguments.
use kess_os.Base.{ℕ, ◌≡◌, inl, inr, refl, ◌∙◌}
use kess_os.Base.{List, [], ◌∷◌, ◌++◌, some}
use kess_os.Ram.{Ram}
use kess_os.Util.Text.{dec2str, hex2str}
use kess_os.Util.Text.Reverse.{IsBytes}
use kess_os.Drivers.Video.{Canvas, kwrite}
use kess_os.Drivers.Video.Agree.{Agree, AreGlyphsOff, kwrite-Agree}
use kess_os.Kernel.Log.{
  Status, status_color, status_prefix, Arg, text, number, string_directive, decimal_directive,
  hex_directive, directive, convert, log_loop, log,
}
use kess_os.Kernel.Log.Renders.{
  Renders, end, char, string, decimal, hexadecimal, Prints, dec2str-IsDecimal,
  hex2str-IsHexadecimal,
}
use kess_os.Util.Text.Bytes.{dec2str-IsBytes, hex2str-IsBytes}
use kess_os.Kernel.Log.Written.{
  directive-case, OffBuffers, IsWritten, IsWritten-append, Logged, Rest, char_step, arg_step,
}

module _ (dec_buf hex_buf color : ℕ) where
  string_step :
      (format : List ℕ)
      → Rest dec_buf hex_buf color format
      → (args : List Arg) (canvas : Canvas) (m r : Ram) → Prints (b'%' ∷ b's' ∷ format) args
      → AreGlyphsOff (OffBuffers dec_buf hex_buf) canvas.font
      → Agree (OffBuffers dec_buf hex_buf) m r
      → Logged dec_buf hex_buf color (b'%' ∷ b's' ∷ format) args canvas m r
  unfolding directive convert
  string_step format rest [] canvas m r fits off h = absurd fits
  string_step format rest (number n ∷ args) canvas m r fits off h = absurd fits
  string_step format rest (text str ∷ args) canvas m r fits off h =
      let (cursor, font, agree) =
        kwrite-Agree (OffBuffers dec_buf hex_buf) str color canvas m r off h in
      arg_step dec_buf hex_buf color string_directive b's' format str (text str) args canvas m m r
        refl (λ e. cc) refl off h (λ cs. string str) (rest args _ _ _ fits (rw font off) agree)

  decimal_step :
      (format : List ℕ)
      → Rest dec_buf hex_buf color format
      → (args : List Arg) (canvas : Canvas) (m r : Ram) → Prints (b'%' ∷ b'd' ∷ format) args
      → AreGlyphsOff (OffBuffers dec_buf hex_buf) canvas.font
      → Agree (OffBuffers dec_buf hex_buf) m r
      → Logged dec_buf hex_buf color (b'%' ∷ b'd' ∷ format) args canvas m r
  unfolding directive convert
  decimal_step format rest [] canvas m r fits off h = absurd fits
  decimal_step format rest (text str ∷ args) canvas m r fits off h = absurd fits
  decimal_step format rest (number n ∷ args) canvas m r fits off h =
      let (str, (reads, frame), is_decimal) = dec2str-IsDecimal m dec_buf n h.bytes fits.0 fits.1 in
      let m' = dec2str m dec_buf n in
      let h' : Agree (OffBuffers dec_buf hex_buf) m' r = record {
        same = λ x o. frame x o.0 ∙ h.same x o;
        bytes = dec2str-IsBytes m dec_buf n h.bytes;
      } in
      let (cursor, font, agree) =
        kwrite-Agree (OffBuffers dec_buf hex_buf) str color canvas m' r off h' in
      arg_step dec_buf hex_buf color decimal_directive b'd' format str (number n) args canvas m m' r
        refl (λ e. cc) (rw reads refl) off h' (λ cs. decimal n str is_decimal)
        (rest args _ _ _ fits.2 (rw font off) agree)

  hex_step :
      (format : List ℕ)
      → Rest dec_buf hex_buf color format
      → (args : List Arg) (canvas : Canvas) (m r : Ram) → Prints (b'%' ∷ b'x' ∷ format) args
      → AreGlyphsOff (OffBuffers dec_buf hex_buf) canvas.font
      → Agree (OffBuffers dec_buf hex_buf) m r
      → Logged dec_buf hex_buf color (b'%' ∷ b'x' ∷ format) args canvas m r
  unfolding directive convert
  hex_step format rest [] canvas m r fits off h = absurd fits
  hex_step format rest (text str ∷ args) canvas m r fits off h = absurd fits
  hex_step format rest (number n ∷ args) canvas m r fits off h =
      let (str, (reads, frame), is_hex) = hex2str-IsHexadecimal m hex_buf n h.bytes fits.0 in
      let m' = hex2str m hex_buf n in
      let h' : Agree (OffBuffers dec_buf hex_buf) m' r = record {
        same = λ x o. frame x o.1 ∙ h.same x o;
        bytes = hex2str-IsBytes m hex_buf n h.bytes;
      } in
      let (cursor, font, agree) =
        kwrite-Agree (OffBuffers dec_buf hex_buf) str color canvas m' r off h' in
      arg_step dec_buf hex_buf color hex_directive b'x' format str (number n) args canvas m m' r
        refl (λ e. cc) (rw reads refl) off h' (λ cs. hexadecimal n str is_hex)
        (rest args _ _ _ fits.1 (rw font off) agree)

  log_loop-Logged : (format : List ℕ) → Rest dec_buf hex_buf color format
  unfolding log_loop
  log_loop-Logged [] args canvas m r fits off h = record {
    cs = [];
    renders = end args;
    result = (canvas, m);
    runs = refl;
    written = record { cursor = unfold kwrite in refl; agree = unfold kwrite in h };
  }
  log_loop-Logged (c ∷ []) args canvas m r fits off h =
      let (cursor, font, agree) =
        kwrite-Agree (OffBuffers dec_buf hex_buf) (c ∷ []) color canvas m r off h in
      record {
        cs = c ∷ [];
        renders = char c tt (end args);
        result = kwrite (c ∷ []) color (canvas, m);
        runs = refl;
        written = record { cursor = cursor; agree = agree };
      }
  log_loop-Logged (c ∷ next ∷ format) args canvas m r fits off h =
      elim (directive-case c next format) [
        | inl (percent, s) ↦
            rw (percent, s)
              (string_step format (log_loop-Logged format) args canvas m r (rw (percent, s) at fits)
                off h)
        | inr (inl (percent, d)) ↦
            rw (percent, d)
              (decimal_step format (log_loop-Logged format) args canvas m r
                (rw (percent, d) at fits) off h)
        | inr (inr (inl (percent, x))) ↦
            rw (percent, x)
              (hex_step format (log_loop-Logged format) args canvas m r (rw (percent, x) at fits)
                off h)
        | inr (inr (inr (plain, e))) ↦
            let (cursor, font, agree) =
              kwrite-Agree (OffBuffers dec_buf hex_buf) (c ∷ []) color canvas m r off h in
            char_step dec_buf hex_buf color c next format args canvas m r plain e off h
              (log_loop-Logged (next ∷ format) args _ _ _ (rw e at fits) (rw font off) agree)
      ]

-- What `log` writes on a memory that agrees with `r` outside the two buffers.
pub log-Agree :
    (dec_buf hex_buf : ℕ) (format : List ℕ) (status : Status) (args : List Arg) (canvas : Canvas)
    (m r : Ram)
    → Prints format args
    → AreGlyphsOff (OffBuffers dec_buf hex_buf) canvas.font
    → Agree (OffBuffers dec_buf hex_buf) m r
    → (cs : List ℕ) × Renders format args cs
      × (result : Canvas × Ram) × (log dec_buf hex_buf format status args (canvas, m) ≡ some result)
      × IsWritten dec_buf hex_buf (status_color status) (status_prefix status ++ cs) canvas r result
unfolding log
log-Agree dec_buf hex_buf format status args canvas m r fits off h =
    let color = status_color status in
    let prefix = status_prefix status in
    let (cursor, font, agree) =
      kwrite-Agree (OffBuffers dec_buf hex_buf) prefix color canvas m r off h in
    let l = log_loop-Logged dec_buf hex_buf color format args _ _ _ fits (rw font off) agree in
    (
      l.cs,
      l.renders,
      l.result,
      l.runs,
      IsWritten-append dec_buf hex_buf color prefix l.cs canvas m r l.result off h l.written,
    )

-- A format whose directives all have an argument of their type, the numbers `int`s and those of
-- `%d` not the least one, on a memory of bytes and a canvas whose font is outside the static
-- buffers of the two conversions: `log` succeeds, and there is a text that the format and the
-- arguments stand for (with `%d` replaced by the decimal digits, `%x` by `0x` and the hexadecimal
-- ones, `%s` by the string, and every other character by itself) such that the cursor ends where it
-- does after `kwrite` of the prefix of the status and that text in the colour of the status, and
-- memory holds what it does after it, outside those buffers.
pub log-Renders :
    (dec_buf hex_buf : ℕ) (format : List ℕ) (status : Status) (args : List Arg) (canvas : Canvas)
    (m : Ram)
    → Prints format args
    → IsBytes m
    → AreGlyphsOff (OffBuffers dec_buf hex_buf) canvas.font
    → (cs : List ℕ) × Renders format args cs
      × (result : Canvas × Ram) × (log dec_buf hex_buf format status args (canvas, m) ≡ some result)
      × IsWritten dec_buf hex_buf (status_color status) (status_prefix status ++ cs) canvas m result
log-Renders dec_buf hex_buf format status args canvas m fits bytes off =
    log-Agree dec_buf hex_buf format status args canvas m m fits off
      (record { same = λ x o. refl; bytes = bytes })

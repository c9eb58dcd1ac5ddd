-- ===== src/Kernel/Log/Written.antt =====
-- `log` writes the text that its format and arguments stand for.
use kess_os.Base.{ℕ, ◌+◌, ◌≤◌, ◌<◌, ◌≡◌, ◌≢◌, ◌⊎◌, inl, inr, refl, arith, ◌∙◌}
use kess_os.Base.{List, [], ◌∷◌, ◌++◌, some, ◌==◌, true, false, ℕ_discrete}
use kess_os.Ram.{Ram}
use kess_os.Drivers.Video.{Canvas, kwrite}
use kess_os.Drivers.Video.Agree.{Agree, AreGlyphsOff, kwrite-Agree}
use kess_os.Kernel.Log.{
  Arg, Directive, no_directive, string_directive, decimal_directive, hex_directive, directive,
  convert, write_arg, log_loop,
}
use kess_os.Drivers.Video.Append.{kwrite-append}
use kess_os.Kernel.Log.Renders.{IsOrdinary, Renders, char, Prints}

-- What a character and the next one are.
abbrev pub DirectiveCase : (c next : ℕ) → (format : List ℕ) → Type 0
DirectiveCase c next format =
    ((c ≡ b'%') × (next ≡ b's'))
    ⊎ (((c ≡ b'%') × (next ≡ b'd'))
        ⊎ (((c ≡ b'%') × (next ≡ b'x'))
            ⊎ (IsOrdinary c (next ∷ format) × (directive c next ≡ no_directive))))

pub directive-case : (c next : ℕ) (format : List ℕ) → DirectiveCase c next format
unfolding directive
directive-case c next format = elim (ℕ_discrete c b'%') [
  | no other ↦
      let test : (c == b'%') ≡ false = ground arith in inr (inr (inr (inl other, rw test refl)))
  | yes percent ↦
      let test : (c == b'%') ≡ true = ground arith in
      elim (ℕ_discrete next b's') [
        | yes s ↦ inl (percent, s)
        | no not_s ↦ elim (ℕ_discrete next b'd') [
          | yes d ↦ inr (inl (percent, d))
          | no not_d ↦ elim (ℕ_discrete next b'x') [
            | yes x ↦ inr (inr (inl (percent, x)))
            | no not_x ↦
                let t1 : (next == b's') ≡ false = ground arith in
                let t2 : (next == b'd') ≡ false = ground arith in
                let t3 : (next == b'x') ≡ false = ground arith in
                inr (inr (inr (inr (not_s, not_d, not_x), rw (test, t1, t2, t3) refl)))
          ]
        ]
      ]
]

module _ (dec_buf hex_buf : ℕ) where
  -- Outside the two static buffers.
  abbrev pub OffBuffers : ℕ → Type 0
  OffBuffers x = ((x < dec_buf) ⊎ (dec_buf + 80 ≤ x)) × ((x < hex_buf) ⊎ (hex_buf + 80 ≤ x))

module _ (dec_buf hex_buf color : ℕ) where
  -- A result that `kwrite` of the text has too, but for the buffers.
  pub record IsWritten (cs : List ℕ) (canvas : Canvas) (r : Ram) (result : Canvas × Ram)
      : Type 0 where
    pub cursor : result.0 ≡ (kwrite cs color (canvas, r)).0
    pub agree : Agree (OffBuffers dec_buf hex_buf) result.1 (kwrite cs color (canvas, r)).1

  pub record Logged (format : List ℕ) (args : List Arg) (canvas : Canvas) (m r : Ram) : Type 0 where
    pub cs : List ℕ
    pub renders : Renders format args cs
    pub result : Canvas × Ram
    pub runs : log_loop dec_buf hex_buf color format args (canvas, m) ≡ some result
    pub written : IsWritten cs canvas r result

  -- First `str`, then the rest.
  pub IsWritten-append :
      (str cs : List ℕ) (canvas : Canvas) (m r : Ram) (result : Canvas × Ram)
      → AreGlyphsOff (OffBuffers dec_buf hex_buf) canvas.font
      → Agree (OffBuffers dec_buf hex_buf) m r
      → (let s = kwrite str color (canvas, m) in
          IsWritten cs s.0 (kwrite str color (canvas, r)).1 result)
      → IsWritten (str ++ cs) canvas r result
  IsWritten-append str cs canvas m r result off h w =
      let (cursor, font, agree) =
        kwrite-Agree (OffBuffers dec_buf hex_buf) str color canvas m r off h in
      let same : kwrite cs color
            ((kwrite str color (canvas, m)).0, (kwrite str color (canvas, r)).1)
          ≡ kwrite (str ++ cs) color (canvas, r) =
        rw cursor (kwrite-append str cs color (canvas, r)) in
      record { cursor = rw same at w.cursor; agree = rw same at w.agree }

  -- What holds of the rest of a format is assumed of every state.
  abbrev pub Rest : List ℕ → Type 0
  Rest format =
      (args : List Arg) (canvas : Canvas) (m r : Ram)
      → Prints format args
      → AreGlyphsOff (OffBuffers dec_buf hex_buf) canvas.font
      → Agree (OffBuffers dec_buf hex_buf) m r
      → Logged format args canvas m r

  -- A character that stands for itself.
  pub char_step :
      (c next : ℕ) (format : List ℕ) (args : List Arg) (canvas : Canvas) (m r : Ram)
      → IsOrdinary c (next ∷ format)
      → directive c next ≡ no_directive
      → AreGlyphsOff (OffBuffers dec_buf hex_buf) canvas.font
      → Agree (OffBuffers dec_buf hex_buf) m r
      → (let s = kwrite (c ∷ []) color (canvas, m) in
          Logged (next ∷ format) args s.0 s.1 (kwrite (c ∷ []) color (canvas, r)).1)
      → Logged (c ∷ next ∷ format) args canvas m r
  unfolding log_loop
  char_step c next format args canvas m r plain e off h rest = record {
    cs = c ∷ rest.cs;
    renders = char c plain rest.renders;
    result = rest.result;
    runs = rw (log_loop, e) rest.runs;
    written = IsWritten-append (c ∷ []) rest.cs canvas m r rest.result off h rest.written;
  }

  arg_runs :
      (d : Directive) (next : ℕ) (format str : List ℕ) (arg : Arg) (args : List Arg)
      (canvas : Canvas) (m m' : Ram)
      → directive b'%' next ≡ d
      → d ≢ no_directive
      → convert dec_buf hex_buf d arg m ≡ some (str, m')
      → log_loop dec_buf hex_buf color (b'%' ∷ next ∷ format) (arg ∷ args) (canvas, m)
        ≡ log_loop dec_buf hex_buf color format args (kwrite str color (canvas, m'))
  unfolding log_loop write_arg
  arg_runs no_directive next format str arg args canvas m m' e is_directive converted =
      absurd (is_directive refl)
  arg_runs string_directive next format str arg args canvas m m' e is_directive converted =
      rw (log_loop, e, write_arg, converted) refl
  arg_runs decimal_directive next format str arg args canvas m m' e is_directive converted =
      rw (log_loop, e, write_arg, converted) refl
  arg_runs hex_directive next format str arg args canvas m m' e is_directive converted =
      rw (log_loop, e, write_arg, converted) refl

  -- A directive: its text is `str`, and the conversion has changed a buffer.
  pub arg_step :
      (d : Directive) (next : ℕ) (format str : List ℕ) (arg : Arg) (args : List Arg)
      (canvas : Canvas) (m m' r : Ram)
      → directive b'%' next ≡ d
      → d ≢ no_directive
      → convert dec_buf hex_buf d arg m ≡ some (str, m')
      → AreGlyphsOff (OffBuffers dec_buf hex_buf) canvas.font
      → Agree (OffBuffers dec_buf hex_buf) m' r
      → ((cs : List ℕ)
          → Renders format args cs
          → Renders (b'%' ∷ next ∷ format) (arg ∷ args) (str ++ cs))
      → (let s = kwrite str color (canvas, m') in
          Logged format args s.0 s.1 (kwrite str color (canvas, r)).1)
      → Logged (b'%' ∷ next ∷ format) (arg ∷ args) canvas m r
  arg_step d next format str arg args canvas m m' r e is_directive converted off h renders rest =
      record {
        cs = str ++ rest.cs;
        renders = renders rest.cs rest.renders;
        result = rest.result;
        runs = arg_runs d next format str arg args canvas m m' e is_directive converted ∙ rest.runs;
        written = IsWritten-append str rest.cs canvas m' r rest.result off h rest.written;
      }

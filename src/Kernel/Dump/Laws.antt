-- ===== src/Kernel/Dump/Laws.antt =====
-- What `dump_stack` writes.
use kess_os.Base.{ℕ, zero, suc, ◌+◌, ◌^◌, ◌<◌, ◌≤◌, ◌≡◌, refl, arith, ◌∙◌, sym, ap, subst, u32}
use kess_os.Base.{List, [], ◌∷◌, ◌++◌, some}
use kess_os.Ram.{Ram}
use kess_os.Util.Text.Reverse.{IsBytes}
use kess_os.Drivers.Video.{Framebuffer, Canvas, kwrite}
use kess_os.Drivers.Video.Agree.{Agree, AreGlyphsOff, kwrite-Agree}
use kess_os.Drivers.Video.Kept.{kwrite-lfb}
use kess_os.Drivers.Video.Below.{kwrite-below}
use kess_os.Kernel.Log.{s_other, number, directive, log}
use kess_os.Drivers.Video.Append.{kwrite-append}
use kess_os.Kernel.Log.Laws.{IsPlain, log-kwrite}
use kess_os.Kernel.Log.Renders.{Renders, Prints}
use kess_os.Kernel.Log.Written.{OffBuffers, IsWritten}
use kess_os.Kernel.Log.Refines.{log-Agree}
use kess_os.Kernel.Dump.{ruler, heading, dump_format, signed_char, dump_loop, dump_stack}

-- The lines for `left` bytes from `rsp` on: the address as an `int` and the byte as a `char`.
pub data Dumps : (m : Ram) (left rsp : ℕ) → List ℕ → Type 0 where
  done : {m : Ram} {rsp : ℕ} → Dumps m 0 rsp []
  line :
      {m : Ram} {left rsp : ℕ} {cs rest : List ℕ}
      → Renders dump_format (number (u32 rsp) ∷ number (signed_char (m rsp)) ∷ []) cs
      → Dumps m left (rsp + 1) rest
      → Dumps m (suc left) rsp (cs ++ rest)

dump_format-Prints :
    (x c : ℕ) → x < 2 ^ 32 → c < 256 → Prints dump_format (number x ∷ number (signed_char c) ∷ [])
unfolding directive
dump_format-Prints x c hx hc = (hx, (ground arith, tt))

module _ (dec_buf hex_buf : ℕ) where
  abbrev Off : ℕ → Type 0
  Off = OffBuffers dec_buf hex_buf

  abbrev IsWhite : List ℕ → Canvas → Ram → Canvas × Ram → Type 0
  IsWhite = IsWritten dec_buf hex_buf 0xFFFFFF

  -- Two texts, one after the other.
  IsWritten-both :
      (xs ys : List ℕ) (canvas : Canvas) (r : Ram) (result1 result2 : Canvas × Ram)
      → IsWhite xs canvas r result1
      → IsWhite ys result1.0 (kwrite xs 0xFFFFFF (canvas, r)).1 result2
      → IsWhite (xs ++ ys) canvas r result2
  IsWritten-both xs ys canvas r result1 result2 v w =
      let same : kwrite ys 0xFFFFFF (result1.0, (kwrite xs 0xFFFFFF (canvas, r)).1)
          ≡ kwrite (xs ++ ys) 0xFFFFFF (canvas, r) =
        rw (v.cursor) (kwrite-append xs ys 0xFFFFFF (canvas, r)) in
      record { cursor = rw same at w.cursor; agree = rw same at w.agree }

  -- What a text leaves of the canvas.
  IsWritten-canvas :
      (xs : List ℕ) (canvas : Canvas) (m r : Ram) (result : Canvas × Ram)
      → AreGlyphsOff Off canvas.font
      → Agree Off m r
      → IsWhite xs canvas r result
      → AreGlyphsOff Off result.0.font × (result.0.lfb ≡ canvas.lfb)
  IsWritten-canvas xs canvas m r result off h w =
      let (cursor, font, agree) = kwrite-Agree Off xs 0xFFFFFF canvas m r off h in
      let same : result.0.font ≡ canvas.font =
        ap (λ (c : Canvas). c.font) (w.cursor ∙ sym cursor) ∙ font in
      (rw same off, ap (λ (c : Canvas). c.lfb) (w.cursor) ∙ kwrite-lfb xs 0xFFFFFF (canvas, r))

  -- A message without directives.
  plain_message :
      (xs : List ℕ) (canvas : Canvas) (m r : Ram)
      → IsPlain xs
      → AreGlyphsOff Off canvas.font
      → Agree Off m r
      → (result : Canvas × Ram) × (log dec_buf hex_buf xs s_other [] (canvas, m) ≡ some result)
        × IsWhite xs canvas r result
  plain_message xs canvas m r plain off h =
      let (cursor, font, agree) = kwrite-Agree Off xs 0xFFFFFF canvas m r off h in
      (
        kwrite xs 0xFFFFFF (canvas, m),
        log-kwrite dec_buf hex_buf xs s_other [] (canvas, m) plain,
        record { cursor = cursor; agree = agree },
      )

  -- A byte that no message changes.
  abbrev pub IsKept : Framebuffer → ℕ → Type 0
  IsKept lfb a = Off a × (a < lfb.base_addr)

  dump_loop-step :
      (left rsp : ℕ) (s s' : Canvas × Ram)
      → log dec_buf hex_buf dump_format s_other
          (number (u32 rsp) ∷ number (signed_char (s.1 rsp)) ∷ [])
          s
        ≡ some s'
      → dump_loop dec_buf hex_buf (suc left) rsp s ≡ dump_loop dec_buf hex_buf left (rsp + 1) s'
  unfolding dump_loop
  dump_loop-step left rsp s s' e = rw (dump_loop, e) refl

  dump_loop-Dumps :
      (m : Ram) (left rsp : ℕ) (canvas : Canvas) (m' r : Ram)
      → AreGlyphsOff Off canvas.font
      → Agree Off m' r
      → ((a : ℕ) → rsp ≤ a → a < rsp + left → IsKept canvas.lfb a)
      → ((a : ℕ) → rsp ≤ a → a < rsp + left → r a ≡ m a)
      → (cs : List ℕ) × Dumps m left rsp cs
        × (result : Canvas × Ram) × (dump_loop dec_buf hex_buf left rsp (canvas, m') ≡ some result)
        × IsWhite cs canvas r result
  unfolding dump_loop
  dump_loop-Dumps m zero rsp canvas m' r off h kept same = (
    [],
    done,
    (canvas, m'),
    refl,
    record { cursor = unfold kwrite in refl; agree = unfold kwrite in h },
  )
  dump_loop-Dumps m (suc left) rsp canvas m' r off h kept same =
      let here : m' rsp ≡ m rsp =
        h.same rsp (kept rsp (omega arith) (omega arith)).0
        ∙ same rsp (omega arith) (omega arith) in
      let args = number (u32 rsp) ∷ number (signed_char (m' rsp)) ∷ [] in
      let prints = dump_format-Prints (u32 rsp) (m' rsp) (omega arith) (h.bytes rsp) in
      let (cs, renders, result1, runs, w) =
        log-Agree dec_buf hex_buf dump_format s_other args canvas m' r prints off h in
      let (off1, lfb1) = IsWritten-canvas cs canvas m' r result1 off h w in
      let r1 = (kwrite cs 0xFFFFFF (canvas, r)).1 in
      let (rest, dumps, result2, runs2, w2) =
        dump_loop-Dumps m left (rsp + 1) result1.0 result1.1 r1 off1 w.agree
          (λ a lo hi. rw lfb1 (kept a (omega arith) (omega arith)))
          (λ a lo hi.
            kwrite-below cs 0xFFFFFF a (canvas, r) (kept a (omega arith) (omega arith)).1
            ∙ same a (omega arith) (omega arith)) in
      (
        cs ++ rest,
        line
            (subst (λ c. Renders dump_format (number (u32 rsp) ∷ number (signed_char c) ∷ []) cs)
              here renders)
            dumps,
        result2,
        dump_loop-step left rsp (canvas, m') result1 runs ∙ runs2,
        IsWritten-both cs rest canvas r result1 result2 w w2,
      )

ruler-IsPlain : IsPlain ruler
ruler-IsPlain = ground arith

heading-IsPlain : IsPlain heading
heading-IsPlain = ground arith

-- `dump_stack` writes, in white, the ruler, the heading, five lines and the ruler again. A line
-- says the address, from `rsp` on, and the byte that is there when the call starts, each as an
-- `int` in base 16; memory ends as after `kwrite` of that text, outside the buffers of the two
-- conversions. Memory holds bytes, the stack and the font lie outside those buffers, and the stack
-- below the frame buffer.
pub dump_stack-Dumps :
    (dec_buf hex_buf : ℕ) (rsp : ℕ) (canvas : Canvas) (m : Ram)
    → IsBytes m
    → AreGlyphsOff (OffBuffers dec_buf hex_buf) canvas.font
    → ((a : ℕ) → rsp ≤ a → a < rsp + 5 → IsKept dec_buf hex_buf canvas.lfb a)
    → (cs : List ℕ) × Dumps m 5 rsp cs
      × (result : Canvas × Ram) × (dump_stack dec_buf hex_buf rsp (canvas, m) ≡ some result)
      × IsWritten dec_buf hex_buf 0xFFFFFF (ruler ++ heading ++ cs ++ ruler) canvas m result
unfolding dump_stack
dump_stack-Dumps dec_buf hex_buf rsp canvas m bytes off kept =
    let h : Agree (OffBuffers dec_buf hex_buf) m m = record { same = λ x o. refl; bytes = bytes } in
    let (s1, e1, w1) = plain_message dec_buf hex_buf ruler canvas m m ruler-IsPlain off h in
    let (off1, lfb1) = IsWritten-canvas dec_buf hex_buf ruler canvas m m s1 off h w1 in
    let r1 = (kwrite ruler 0xFFFFFF (canvas, m)).1 in
    let (s2, e2, w2) =
      plain_message dec_buf hex_buf heading s1.0 s1.1 r1 heading-IsPlain off1 w1.agree in
    let (off2, lfb2) = IsWritten-canvas dec_buf hex_buf heading s1.0 s1.1 r1 s2 off1 w1.agree w2 in
    let r2 = (kwrite heading 0xFFFFFF (s1.0, r1)).1 in
    let (cs, dumps, s3, e3, w3) =
      dump_loop-Dumps dec_buf hex_buf m 5 rsp s2.0 s2.1 r2 off2 w2.agree
        (λ a lo hi. rw (lfb2, lfb1) (kept a lo hi))
        (λ a lo hi.
          kwrite-below heading 0xFFFFFF a (s1.0, r1) (rw lfb1 (kept a lo hi).1)
          ∙ kwrite-below ruler 0xFFFFFF a (canvas, m) (kept a lo hi).1) in
    let r3 = (kwrite cs 0xFFFFFF (s2.0, r2)).1 in
    let (off3, lfb3) = IsWritten-canvas dec_buf hex_buf cs s2.0 s2.1 r2 s3 off2 w2.agree w3 in
    let (s4, e4, w4) =
      plain_message dec_buf hex_buf ruler s3.0 s3.1 r3 ruler-IsPlain off3 w3.agree in
    (
      cs,
      dumps,
      s4,
      rw (dump_stack, e1, e2, e3) e4,
      IsWritten-both dec_buf hex_buf ruler (heading ++ cs ++ ruler) canvas m s1 s4 w1 (
          IsWritten-both dec_buf hex_buf heading (cs ++ ruler) s1.0 r1 s2 s4 w2
            (IsWritten-both dec_buf hex_buf cs ruler s2.0 r2 s3 s4 w3 w4)),
    )

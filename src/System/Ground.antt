-- ===== src/System/Ground.antt =====
-- The black ground of the screen.
use kess_os.Base.{
  ℕ, ◌+◌, ◌*◌, ◌^◌, ◌≤◌, ◌<◌, ◌≡◌, ◌⊎◌, inl, inr, refl, arith, ap, ◌∙◌, List, ◌++◌, codes,
}
use kess_os.Ram.{Ram, load32}
use kess_os.Drivers.Video.{Framebuffer, Canvas, kwrite, clear_screen}
use kess_os.Drivers.Video.Square.{pixel}
use kess_os.Drivers.Video.Fill.{clear_screen-paints}
use kess_os.Drivers.Video.Kwrite.{IsLine, HasRoom}
use kess_os.Drivers.Video.Line.{IsBeside, line_feed-keeps}
use kess_os.Kernel.Log.{s_info, status_prefix}
use kess_os.Kernel.Run.Final.{footer}
use kess_os.Interrupts.Syscall.{hello_text}

-- Out of `n` characters from the left margin on, at the height `y`.
abbrev pub IsOut : (y n px py : ℕ) → Type 0
IsOut y n px py = ((py < y) ⊎ (y + 16 ≤ py)) ⊎ (8 * n ≤ px)

-- The messages of the footer and of the user program, without their line feeds.
abbrev line1 : List ℕ
line1 = status_prefix s_info ++ codes "Initalizing ps/2 keyboard.."

abbrev line2 : List ℕ
line2 = status_prefix s_info ++ codes "Hello syscall!"

line1-IsLine : IsLine line1
line1-IsLine = ground arith

line2-IsLine : IsLine line2
line2-IsLine = ground arith

-- Neither in the bar nor in a line of text.
abbrev pub IsGround : (px py : ℕ) → Type 0
IsGround px py = ((500 ≤ px) ⊎ (30 ≤ py)) × IsOut 55 34 px py × IsOut 75 21 px py

-- A screen with room for the bar and the two lines.
pub record HasSpace (lfb : Framebuffer) : Type 0 where
  pub wide : 500 ≤ lfb.ppsl
  pub fits : 30 * lfb.ppsl ≤ 2 ^ 31
  pub tall : 91 ≤ lfb.height
  pub short : lfb.height < 2 ^ 32

IsOut-IsBeside :
    (canvas : Canvas) (y n px py : ℕ)
    → canvas.x ≡ 0
    → canvas.y ≡ y
    → IsOut y n px py
    → IsBeside canvas n px py
IsOut-IsBeside canvas y n px py ex ey (inl (inl l)) = inl (inl (omega (arith, ey)))
IsOut-IsBeside canvas y n px py ex ey (inl (inr l)) = inl (inr (omega (arith, ey)))
IsOut-IsBeside canvas y n px py ex ey (inr l) = inr (inr (omega (arith, ex)))

-- A pixel that no line covers is as black after both as `clearScreen` made it.
pub both_lines-black :
    (canvas : Canvas) (m : Ram) (px py : ℕ)
    → HasSpace canvas.lfb
    → px < canvas.lfb.ppsl
    → py < canvas.lfb.height
    → IsOut 55 34 px py
    → IsOut 75 21 px py
    → let r =
        kwrite
          (status_prefix s_info ++ hello_text)
          0x00FF00
          (kwrite (status_prefix s_info ++ footer) 0x00FF00 (clear_screen 0x000000 (canvas, m))) in
      load32 r.1 (pixel canvas.lfb px py) ≡ 0x000000
unfolding clear_screen
both_lines-black canvas m px py space hx hy out1 out2 =
    let clear = clear_screen-paints 0x000000 canvas m (omega arith) (omega (arith, space.fits)) in
    let canvas1 = record canvas { x = 0; y = 55; prev_x = 0 } in
    let m1 = (clear_screen 0x000000 (canvas, m)).1 in
    let room1 : HasRoom canvas1 line1 = record {
      across = omega (arith, space.wide);
      narrow = omega (arith, space.fits);
      down = omega (arith, space.tall);
      short = space.short;
    } in
    let first =
      line_feed-keeps 0x00FF00 (omega arith) px py line1 canvas1 m1 line1-IsLine room1 hx
        (IsOut-IsBeside canvas1 55 34 px py refl refl out1) in
    let after1 = kwrite (status_prefix s_info ++ footer) 0x00FF00 (canvas1, m1) in
    let canvas2 = record canvas { x = 0; y = 75; prev_x = 0 } in
    let room2 : HasRoom canvas2 line2 = record {
      across = omega (arith, space.wide);
      narrow = omega (arith, space.fits);
      down = omega (arith, space.tall);
      short = space.short;
    } in
    let second =
      line_feed-keeps 0x00FF00 (omega arith) px py line2 canvas2 after1.1 line2-IsLine room2 hx
        (IsOut-IsBeside canvas2 75 21 px py refl refl out2) in
    let there : after1 ≡ (canvas2, after1.1) = ap (λ (c : Canvas). (c, after1.1)) first.0 in
    ap
      (λ (z : Canvas × Ram).
        load32 (kwrite (status_prefix s_info ++ hello_text) 0x00FF00 z).1 (pixel canvas.lfb px py))
      there
    ∙ second.1
    ∙ first.1
    ∙ clear.0 px py hx hy

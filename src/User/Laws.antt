-- ===== src/User/Laws.antt =====
-- What the user program leaves on the screen.
use kess_os.Base.{ℕ, ◌*◌, ◌^◌, ◌≤◌, ◌<◌, ◌≡◌, ◌⊎◌, ◌++◌, inl, inr, refl, arith}
use kess_os.Ram.{Ram, load32}
use kess_os.Arch.Io.{Io, Device, Trace}
use kess_os.Drivers.Video.{Framebuffer, Canvas, kwrite, draw_square}
use kess_os.Drivers.Video.Square.{pixel, draw_square-paints}
use kess_os.Drivers.Video.Kept.{kwrite-lfb}
use kess_os.Kernel.Log.{s_info, status_prefix}
use kess_os.Interrupts.Syscall.{SyscallRegArgs, Os, hello_text}
use kess_os.Interrupts.Syscall.Laws.{syscall_dispatcher-serves}
use kess_os.User.{bar, ui_start}

-- The greeting is written before the bar is drawn.
pub ui_start-runs :
    (behind : ℕ → Os → Io Os) (dec_buf hex_buf : ℕ) (entry : SyscallRegArgs) (s : Os) (dev : Device)
    (t : Trace)
    → let w = kwrite (status_prefix s_info ++ hello_text) 0x00FF00 (s.canvas, s.ram) in
      ui_start behind dec_buf hex_buf entry s dev t
      ≡ (record { regs = bar; canvas = w.0; ram = draw_square w.0 0 0 500 30 0xFFFFFF w.1 }, t)
unfolding ui_start
ui_start-runs behind dec_buf hex_buf entry s dev t =
    let w = kwrite (status_prefix s_info ++ hello_text) 0x00FF00 (s.canvas, s.ram) in
    let s1 : Os = record { regs = entry; canvas = w.0; ram = w.1 } in
    let first = syscall_dispatcher-serves behind dec_buf hex_buf 1 entry s dev t in
    let second = syscall_dispatcher-serves behind dec_buf hex_buf 2 bar s1 dev t in
    rw (first.2 refl) (second.3 refl)

-- What `draw_square-Bar` leaves of a pixel.
abbrev Bar : Framebuffer → Canvas × Ram → (px py : ℕ) → Type 0
Bar lfb w px py =
    let r = draw_square w.0 0 0 500 30 0xFFFFFF w.1 in
    (px < 500 → py < 30 → load32 r (pixel lfb px py) ≡ 0xFFFFFF)
    × ((500 ≤ px) ⊎ (30 ≤ py) → load32 r (pixel lfb px py) ≡ load32 w.1 (pixel lfb px py))

draw_square-Bar :
    (w : Canvas × Ram) (lfb : Framebuffer)
    → w.0.lfb ≡ lfb
    → 500 ≤ lfb.ppsl
    → 30 * lfb.ppsl ≤ 2 ^ 31
    → (px py : ℕ) → px < lfb.ppsl
    → Bar lfb w px py
draw_square-Bar w lfb same wide fits px py hp =
    rw (← same) (drawn (rw same wide) (rw same fits) (rw same hp))
  where
    drawn :
        500 ≤ w.0.lfb.ppsl → 30 * w.0.lfb.ppsl ≤ 2 ^ 31 → px < w.0.lfb.ppsl → Bar w.0.lfb w px py
    drawn wide fits hp =
        let p =
          draw_square-paints w.0 0xFFFFFF (omega arith) 0 0 500 30 w.1 (omega arith) (omega arith)
            (omega arith) (omega arith) px py hp in
        (
          (λ a b. p.0 (omega arith) (omega arith) (omega arith) (omega arith)),
          λ o. p.1 (elim o [ inl x ↦ inl (inr x) | inr y ↦ inr (inr y) ]),
        )

-- The user program reaches its endless loop with no port accessed. A pixel of the screen is then
-- white in the bar, the first 500 pixels of the first 30 lines, and outside the bar it is as the
-- greeting of the first call left it; the cursor is where the greeting left it, whatever the
-- registers held on entry. The scan lines have at least 500 pixels, and the pixels of 30 of them
-- have numbers up to 2 ^ 31.
pub ui_start-paints :
    (behind : ℕ → Os → Io Os) (dec_buf hex_buf : ℕ) (entry : SyscallRegArgs) (s : Os) (dev : Device)
    (t : Trace)
    → 500 ≤ s.canvas.lfb.ppsl
    → 30 * s.canvas.lfb.ppsl ≤ 2 ^ 31
    → (px py : ℕ) → px < s.canvas.lfb.ppsl
    → let r = ui_start behind dec_buf hex_buf entry s dev t in
      let w = kwrite (status_prefix s_info ++ hello_text) 0x00FF00 (s.canvas, s.ram) in
      (r.1 ≡ t)
      × (r.0.canvas ≡ w.0)
      × (w.0.lfb ≡ s.canvas.lfb)
      × (px < 500 → py < 30 → load32 r.0.ram (pixel s.canvas.lfb px py) ≡ 0xFFFFFF)
      × ((500 ≤ px) ⊎ (30 ≤ py)
          → load32 r.0.ram (pixel s.canvas.lfb px py) ≡ load32 w.1 (pixel s.canvas.lfb px py))
ui_start-paints behind dec_buf hex_buf entry s dev t wide fits px py hp =
    let w = kwrite (status_prefix s_info ++ hello_text) 0x00FF00 (s.canvas, s.ram) in
    let same : w.0.lfb ≡ s.canvas.lfb = kwrite-lfb _ 0x00FF00 (s.canvas, s.ram) in
    let (inside, outside) = draw_square-Bar w s.canvas.lfb same wide fits px py hp in
    rw (ui_start-runs behind dec_buf hex_buf entry s dev t) (refl, refl, same, inside, outside)

-- ===== src/System/Screen.antt =====
-- From power on to what the screen shows at the end.
use kess_os.Base.{ℕ, ◌+◌, ◌<◌, ◌≡◌, List, [], ◌∷◌, ◌++◌, refl, ◌∙◌, ap, subst, sym}
use kess_os.Ram.{Ram, load32}
use kess_os.Arch.Io.{Device, Trace, ◌>>=◌}
use kess_os.Arch.Pic.Chip.{Chip}
use kess_os.Drivers.Video.{Framebuffer, Canvas, kwrite, clear_screen}
use kess_os.Drivers.Video.Square.{pixel}
use kess_os.Drivers.Pci.Fields.{Config}
use kess_os.Boot.Main.{Firmware, Entry}
use kess_os.Boot.Main.Bootable.{IsBootable, IsEntered}
use kess_os.Interrupts.Syscall.{SyscallRegArgs, Os, hello_text}
use kess_os.Kernel.Log.{s_info, status_prefix}
use kess_os.Kernel.Run.Final.{footer, display, IsFinal, start-IsFinal}
use kess_os.System.Ground.{IsGround, HasSpace, both_lines-black}
use kess_os.User.{ui_start}
use kess_os.User.Laws.{ui_start-paints}
use kess_os.Kernel.Start.{
  Image, Machine, Started, running, halted, division_error, no_message, asleep, no_paging, and_then,
}
use kess_os.Boot.Menu.Laws.{NoRight}
use kess_os.Kernel.Start.Laws.{HasMap}
use kess_os.Kernel.Run.{start}
use kess_os.Kernel.Run.Kept.{IsShown, start-IsShown}
use kess_os.Kernel.Run.Laws.{AfterStart}
use kess_os.System.{in_kernel, power_on, enter_userspace, user}
use kess_os.System.Laws.{IsMachine, power_on-AfterStart}

-- A machine that runs shows this pixel as it should be, white in the bar and black on the ground.
abbrev pub HasPixel : Framebuffer → (px py : ℕ) → Started → Type 0
HasPixel lfb px py (running m) =
    (m.canvas.lfb ≡ lfb)
    × (px < 500 → py < 30 → load32 m.vmm.ram (pixel lfb px py) ≡ 0xFFFFFF)
    × (IsGround px py → load32 m.vmm.ram (pixel lfb px py) ≡ 0x000000)
HasPixel lfb px py _ = Unit

-- The greeting of the user program leaves the ground black.
greeting-black :
    (lfb : Framebuffer) (px py : ℕ) (m : Machine)
    → HasSpace lfb
    → px < lfb.ppsl
    → py < lfb.height
    → IsGround px py
    → IsFinal lfb m
    → load32 (kwrite (status_prefix s_info ++ hello_text) 0x00FF00 (display m)).1 (pixel lfb px py)
      ≡ 0x000000
greeting-black lfb px py m space hx hy (bar, out1, out2) (s, on, e) =
    let black =
      both_lines-black s.0 s.1 px py (subst HasSpace (sym on) space) (rw on hx) (rw on hy) out1
        out2 in
    let text = status_prefix s_info ++ hello_text in
    let start = kwrite (status_prefix s_info ++ footer) 0x00FF00 (clear_screen 0x000000 s) in
    subst (λ z. load32 (kwrite text 0x00FF00 z).1 (pixel lfb px py) ≡ 0x000000) (sym e)
      (subst (λ l. load32 (kwrite text 0x00FF00 start).1 (pixel l px py) ≡ 0x000000) on black)

module _ (img : Image) (entry regs : SyscallRegArgs) (lfb : Framebuffer) (px py : ℕ) (ticks : ℕ)
    (c1 c2 : Chip) (dev : Device) (space : HasSpace lfb) (hx : px < lfb.ppsl)
    (hy : py < lfb.height) where
  entered-HasPixel :
      (m : Machine) (t : Trace)
      → m.canvas.lfb ≡ lfb
      → IsFinal lfb m
      → AfterStart img ticks c1 c2 (running m, t)
      → (let r = enter_userspace img entry regs m dev t in
          AfterStart img ticks c1 c2 r × HasPixel lfb px py r.0)
  unfolding enter_userspace
  entered-HasPixel m t shown final ready =
      let os : Os = record { regs = regs; canvas = m.canvas; ram = m.vmm.ram } in
      let u = ui_start img.behind_syscalls img.dec_buf img.hex_buf entry os dev t in
      let w = kwrite (status_prefix s_info ++ hello_text) 0x00FF00 (display m) in
      let p =
        ui_start-paints img.behind_syscalls img.dec_buf img.hex_buf entry os dev t
          (rw shown (space.wide)) (rw shown (space.fits)) px py (rw shown hx) in
      let painted : HasPixel lfb px py (enter_userspace img entry regs m dev t).0 = (
        ap (λ (c : Canvas). c.lfb) p.1 ∙ p.2 ∙ shown,
        (λ in_x in_y. subst (λ l. load32 u.0.ram (pixel l px py) ≡ 0xFFFFFF) shown (p.3 in_x in_y)),
        (λ ground.
            subst (λ l. load32 u.0.ram (pixel l px py) ≡ load32 w.1 (pixel l px py)) shown
              (p.4 ground.0)
            ∙ greeting-black lfb px py m space hx hy ground final),
      ) in
      rw p.0 (ready, painted)

  ended-HasPixel :
      (r : Started × Trace)
      → IsShown lfb r.0
      → ((m : Machine) (t : Trace) → r ≡ (running m, t) → IsFinal lfb m)
      → AfterStart img ticks c1 c2 r
      → (let r' = and_then r.0 (enter_userspace img entry regs) dev r.1 in
          AfterStart img ticks c1 c2 r' × HasPixel lfb px py r'.0)
  ended-HasPixel (running m, t) shown final ready =
      entered-HasPixel m t shown (final m t refl) ready
  ended-HasPixel (halted, t) shown final ready = (ready, tt)
  ended-HasPixel (no_paging r, t) shown final ready = (ready, tt)
  ended-HasPixel (division_error, t) shown final ready = absurd ready
  ended-HasPixel (no_message, t) shown final ready = absurd ready
  ended-HasPixel (asleep, t) shown final ready = absurd ready

-- A bootable kernel on a machine that works, with the up and right arrows pressed at last and no
-- right arrow before them, whose memory map lies below the frame buffer and names a segment that
-- `IsPool` describes, with fewer pages than the fuel, and whose frame buffer has scan lines of at least 500 pixels, 30 of them with numbers up to 2 ^ 31, and at
-- least 91 and fewer than 2 ^ 32 lines: the kernel is entered with its segments in memory, and then
-- the pages run out while paging is set up, ACPI halts the machine, or the user program reaches its
-- endless loop. There what `_start` guarantees of the gates, the ACPI tables, the ticks, the
-- speaker and the interrupt controllers still holds, and of the firmware's frame buffer each of the
-- first 500 pixels of each of the first 30 lines is white, and each other pixel outside the 34 and
-- 21 characters of two lines of text at the heights 55 and 75 is black.
pub power_on-HasPixel :
    (fw : Firmware) (file font_file : ℕ → ℕ) (size font_size : ℕ) (lfb : Framebuffer) (m : Ram)
    (keys : List ℕ) (img : Image) (fuel : ℕ) (polls1 polls2 polls3 : List ℕ) (statics : Machine)
    (dev : Device) (cfg : Config) (t : Trace) (c1 c2 : Chip) (entry regs : SyscallRegArgs)
    (px py : ℕ)
    → IsBootable fw file font_file size font_size lfb m
    → fw.keys ≡ keys ++ 1 ∷ 3 ∷ []
    → NoRight keys
    → ((r : Ram) → HasMap img.pml4 fuel fw.mem_info lfb.base_addr (fw.get_memory_map r))
    → IsMachine img dev cfg c1 statics polls1 polls2 polls3
    → HasSpace lfb
    → px < lfb.ppsl
    → py < lfb.height
    → (e : Entry) × IsEntered fw file lfb m e
      × (r : Started × Trace) × ((power_on fw img fuel polls1 polls2 polls3 statics m
              >>= user img entry regs)
            dev t
          ≡ (in_kernel r.0, r.1))
      × AfterStart img (statics.timer.ticks + 375) c1 c2 r
      × HasPixel lfb px py r.0
unfolding user
power_on-HasPixel fw file font_file size font_size lfb m keys img fuel polls1 polls2 polls3 statics
      dev cfg t c1 c2 entry regs px py ok pressed none_right maps works space hx hy =
    let (e, is_entered, (up, ready)) =
      power_on-AfterStart fw file font_file size font_size lfb m keys img fuel polls1 polls2 polls3
        statics dev cfg t c1 c2 ok pressed none_right maps works in
    let statics1 = record statics { vmm = record (statics.vmm) { ram = e.ram } } in
    let r =
      start img fuel e.lfb e.font e.mem_info e.rsdp e.legacy_boot polls1 polls2 polls3 statics1 dev
        t in
    let shown : IsShown lfb r.0 =
      subst (λ l. IsShown l r.0) is_entered.screen
        (start-IsShown e.lfb img dev fuel e.font e.mem_info e.rsdp e.legacy_boot polls1 polls2
          polls3 statics1 t) in
    let final : (m' : Machine) (t' : Trace) → r ≡ (running m', t') → IsFinal lfb m' =
      subst (λ l. (m' : Machine) (t' : Trace) → r ≡ (running m', t') → IsFinal l m')
        is_entered.screen
        (start-IsFinal img e.lfb dev fuel e.font e.mem_info e.rsdp e.legacy_boot polls1 polls2
          polls3 statics1 t) in
    let (after, pixels) =
      ended-HasPixel img entry regs lfb px py (statics.timer.ticks + 375) c1 c2 dev space hx hy r
        shown final ready in
    (
      e,
      is_entered,
      and_then r.0 (enter_userspace img entry regs) dev r.1,
      rw up refl,
      after,
      pixels,
    )

-- ===== src/Kernel/Run/Final.antt =====
-- What is on the screen when `_start` enters user space.
use kess_os.Base.{ℕ, ◌≡◌, refl, ◌∙◌, List, [], ◌++◌, codes, Option, none, some, arith, ap, subst}
use kess_os.Ram.{Ram}
use kess_os.Arch.Io.{Io, Device, Trace}
use kess_os.Arch.MemoryMap.{Meminfo}
use kess_os.Drivers.Video.{Canvas, Framebuffer, Psf1Font, kwrite, clear_screen}
use kess_os.Drivers.Pit.{Timer, pit_sleep}
use kess_os.Drivers.Pcspkr.{pcspkr_play}
use kess_os.Kernel.Log.{s_info, status_prefix}
use kess_os.Kernel.Log.Laws.{IsPlain, log-kwrite}
use kess_os.Kernel.Start.{Image, Machine, Started, running, asleep, say}
use kess_os.Kernel.Run.{sleep, blank_screen, beep, footer_init, after_init, start}
use kess_os.Kernel.Run.Ends.{Ends, then-Ends}
use kess_os.Kernel.Run.Kept.{enumerate-IsShown, sleep-IsShown, init-IsShown}

abbrev pub footer : List ℕ
footer = codes "Initalizing ps/2 keyboard..\n"

footer-IsPlain : IsPlain footer
footer-IsPlain = ground arith

abbrev pub display : Machine → Canvas × Ram
display m = (m.canvas, m.vmm.ram)

-- The footer on a blank screen.
abbrev pub IsFinal : Framebuffer → Machine → Type 0
IsFinal lfb m =
    (s : Canvas × Ram) × (s.0.lfb ≡ lfb)
    × (display m ≡ kwrite (status_prefix s_info ++ footer) 0x00FF00 (clear_screen 0x000000 s))

-- Sleeping and beeping draw nothing.
sleep-display :
    (ticks : ℕ) (polls : List ℕ) (m : Machine) (dev : Device) (t : Trace)
    → Ends (λ m'. display m' ≡ display m) (sleep ticks polls m dev t).0
unfolding sleep
sleep-display ticks polls m dev t = woken (pit_sleep ticks polls m.timer dev t).0
  where
    woken :
        (r : Option Timer)
        → Ends
            (λ m'. display m' ≡ display m)
            (elim r [ none ↦ asleep | some timer ↦ running (record m { timer = timer }) ])
    woken none = tt
    woken (some timer) = refl

beep-display :
    (m : Machine) (dev : Device) (t : Trace) → Ends (λ m'. display m' ≡ display m) (beep m dev t).0
unfolding beep
beep-display m dev t = played (pcspkr_play 500) refl
  where
    played :
        (r : Option (Io (Unit {0})))
        → pcspkr_play 500 ≡ r
        → Ends (λ m'. display m' ≡ display m) (beep m dev t).0
    played none e = rw (beep, e) tt
    played (some io) e = rw (beep, e) refl

module _ (img : Image) (lfb : Framebuffer) (dev : Device) where
  say-display :
      (m : Machine) (t : Trace)
      → Ends
          (λ m'. display m' ≡ kwrite (status_prefix s_info ++ footer) 0x00FF00 (display m))
          (say img footer m dev t).0
  unfolding say
  say-display m t =
      rw (say, log-kwrite img.dec_buf img.hex_buf footer s_info [] (display m) footer-IsPlain) refl

  footer-IsFinal :
      (s : Canvas × Ram) (m : Machine) (t : Trace)
      → s.0.lfb ≡ lfb
      → display m ≡ clear_screen 0x000000 s
      → Ends (IsFinal lfb) (footer_init img m dev t).0
  unfolding footer_init
  footer-IsFinal s m t on blank =
      then-Ends (λ m'. display m' ≡ kwrite (status_prefix s_info ++ footer) 0x00FF00 (display m))
        (IsFinal lfb) (say img footer m dev t).0 _ dev _ (say-display m t)
        λ m' e. (s, on, e ∙ ap (kwrite (status_prefix s_info ++ footer) 0x00FF00) blank)

  after_init-IsFinal :
      (polls1 polls2 polls3 : List ℕ) (m : Machine) (t : Trace)
      → m.canvas.lfb ≡ lfb
      → Ends (IsFinal lfb) (after_init img polls1 polls2 polls3 m dev t).0
  unfolding after_init blank_screen
  after_init-IsFinal polls1 polls2 polls3 m t on =
      let On : Machine → Type 0 = λ m'. m'.canvas.lfb ≡ lfb in
      then-Ends On (IsFinal lfb) _ _ dev _ (enumerate-IsShown lfb img dev m t on) λ m1 on1.
        then-Ends On (IsFinal lfb) _ _ dev _ (sleep-IsShown lfb 200 polls1 m1 dev _ on1) λ m2 on2.
          then-Ends On (IsFinal lfb) _ _ dev _ (sleep-IsShown lfb 150 polls2 m2 dev _ on2) λ m3 on3.
            then-Ends (λ m'. display m' ≡ display (blank_screen m3)) (IsFinal lfb) _ _ dev _
              (beep-display (blank_screen m3) dev _)
              λ m4 e4.
                then-Ends (λ m'. display m' ≡ display m4) (IsFinal lfb) _ _ dev _
                  (sleep-display 25 polls3 m4 dev _)
                  λ m5 e5. footer-IsFinal (display m3) m5 _ on3 (e5 ∙ e4)

  pub start-IsFinal :
      (fuel : ℕ) (font : Psf1Font) (meminfo : Meminfo) (rsdp legacy_mode : ℕ)
      (polls1 polls2 polls3 : List ℕ) (m : Machine) (t : Trace) (m' : Machine) (t' : Trace)
      → start img fuel lfb font meminfo rsdp legacy_mode polls1 polls2 polls3 m dev t
        ≡ (running m', t')
      → IsFinal lfb m'
  unfolding start
  start-IsFinal fuel font meminfo rsdp legacy_mode polls1 polls2 polls3 m t m' t' e =
      subst (λ (r : Started × Trace). Ends (IsFinal lfb) r.0) e
        (then-Ends (λ m1. m1.canvas.lfb ≡ lfb) (IsFinal lfb) _ _ dev _
          (init-IsShown lfb img dev fuel meminfo rsdp _ t refl)
          λ m1 on1. after_init-IsFinal polls1 polls2 polls3 m1 _ on1)

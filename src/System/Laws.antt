-- ===== src/System/Laws.antt =====
-- From power on to user space.
use kess_os.Base.{ℕ, ◌+◌, ◌^◌, ◌≤◌, ◌<◌, ◌≡◌, List, [], ◌∷◌, ◌++◌, length, refl}
use kess_os.Ram.{Ram}
use kess_os.Arch.Io.{Device, Trace}
use kess_os.Arch.Pic.Chip.{Chip}
use kess_os.Drivers.Video.{Framebuffer}
use kess_os.Drivers.Pit.Laws.{total}
use kess_os.Drivers.Pci.Fields.{Config, IsHostBridge}
use kess_os.Boot.Main.{Firmware, Entry}
use kess_os.Boot.Main.Bootable.{IsBootable, IsEntered}
use kess_os.Boot.Main.Laws.{efi_main-enters}
use kess_os.Boot.Menu.Laws.{NoRight}
use kess_os.Kernel.Start.{Image, Machine}
use kess_os.Kernel.Start.Steps.{IsMasked}
use kess_os.Kernel.Start.Laws.{AreAddresses, HasMap}
use kess_os.Kernel.Run.{start}
use kess_os.Kernel.Run.Laws.{AfterStart, start-AfterStart}
use kess_os.System.{in_kernel, kernel_entry, power_on}

-- What the kernel can count on of the machine.
pub record IsMachine (img : Image) (dev : Device) (cfg : Config) (c1 : Chip) (statics : Machine)
    (polls1 polls2 polls3 : List ℕ) : Type 0 where
  pub bridge : IsHostBridge dev cfg
  pub masked : IsMasked dev c1
  pub addresses : AreAddresses img
  pub gates : length statics.idt.idt ≡ 256
  pub no_wrap : statics.timer.ticks + total polls1 + total polls2 + total polls3 < 2 ^ 64
  pub enough1 : 200 ≤ total polls1
  pub enough2 : 150 ≤ total polls2
  pub enough3 : 25 ≤ total polls3

-- A bootable kernel on a machine that works, with the up and right arrows pressed at last and no
-- right arrow before them, is entered with its segments in memory. The firmware's memory map lies
-- below the frame buffer and names a segment that `IsPool` describes, with fewer pages than the
-- fuel. `_start` gets the frame buffer, the font, the memory map,
-- the root pointer and the mode from the loader, and ends with the machine ready for user space,
-- unless the pages ran out or ACPI halted the machine.
pub power_on-AfterStart :
    (fw : Firmware) (file font_file : ℕ → ℕ) (size font_size : ℕ) (lfb : Framebuffer) (m : Ram)
    (keys : List ℕ) (img : Image) (fuel : ℕ) (polls1 polls2 polls3 : List ℕ) (statics : Machine)
    (dev : Device) (cfg : Config) (t : Trace) (c1 c2 : Chip)
    → IsBootable fw file font_file size font_size lfb m
    → fw.keys ≡ keys ++ 1 ∷ 3 ∷ []
    → NoRight keys
    → ((r : Ram) → HasMap img.pml4 fuel fw.mem_info lfb.base_addr (fw.get_memory_map r))
    → IsMachine img dev cfg c1 statics polls1 polls2 polls3
    → (e : Entry) × IsEntered fw file lfb m e
      × (let r =
            start img fuel e.lfb e.font e.mem_info e.rsdp e.legacy_boot polls1 polls2 polls3
              (record statics { vmm = record (statics.vmm) { ram = e.ram } })
              dev
              t in
          (power_on fw img fuel polls1 polls2 polls3 statics m dev t ≡ (in_kernel r.0, r.1))
          × AfterStart img (statics.timer.ticks + 375) c1 c2 r)
unfolding power_on kernel_entry
power_on-AfterStart fw file font_file size font_size lfb m keys img fuel polls1 polls2 polls3
      statics dev cfg t c1 c2 ok pressed none_right maps works =
    let (e, booted, is_entered) =
      efi_main-enters fw file font_file size font_size lfb m keys ok pressed none_right in
    let (r, at_map) = is_entered.described in
    let map : HasMap img.pml4 fuel e.mem_info e.lfb.base_addr e.ram =
      rw (is_entered.screen, is_entered.map, at_map) (maps r) in
    let statics1 = record statics { vmm = record (statics.vmm) { ram = e.ram } } in
    (
      e,
      is_entered,
      (
        rw (power_on, booted) refl,
        start-AfterStart img fuel e.lfb e.font e.mem_info e.rsdp e.legacy_boot polls1 polls2 polls3
            statics1 dev t c1 c2 works.bridge works.masked works.addresses works.gates map
            works.no_wrap works.enough1 works.enough2 works.enough3,
      ),
    )

-- ===== src/Boot/Main.antt =====
-- gnu-efi/bootloader/main.c: `initGOP` and `efi_main`. The firmware, its files and the addresses
-- that it allocates are a parameter. A `NULL` frame buffer or font is used by the menu before
-- anything tests it: both are ends of their own.
pub mod Frame
pub mod Bootable
pub mod Laws
mod Tests
use kess_os.Base.{
  ℕ, zero, suc, ◌+◌, ◌*◌, ◌==◌, Bool, if◌then◌else◌, List, [], ◌∷◌, Option, none, some, codes,
}
use kess_os.Ram.{Ram, load, load64}
use kess_os.Drivers.Video.{Framebuffer, Psf1Font}
use kess_os.Arch.MemoryMap.{Meminfo}
use kess_os.Boot.Elf.{header_bad, load_segments}
use kess_os.Boot.Font.{load_font}
use kess_os.Boot.Menu.{
  MenuEvent, shows_boot, shows_reboot, waiting, resets, leaves, Menu, first_menu, menu_loop,
  menu_select_boot, menu_select_reboot, boot_clear_screen,
}
use kess_os.Boot.Rsdp.{rsdp_search}

abbrev pub top_text : List ℕ
top_text =
    codes
      "KessBoot v1.4 -- use up/down arrows to move and right arrow to select. Or left arrow for legacy support."

-- `gop->Mode` and its `Info`.
pub record GopMode : Type 0 where
  pub frame_buffer_base : ℕ
  pub frame_buffer_size : ℕ
  pub horizontal_resolution : ℕ
  pub vertical_resolution : ℕ
  pub pixels_per_scan_line : ℕ

-- What the firmware does and returns: the status of `Open` for each file, what `SetPosition` and
-- `Read` of it do to memory, the graphics mode if `LocateProtocol` succeeds, the memory map and
-- where it is put, the configuration table, the keys, and the addresses of the loader's variables
-- and constants.
pub record Firmware : Type 0 where
  pub open_kernel : ℕ
  pub open_font : ℕ
  pub read_kernel : (position size address : ℕ) → Ram → Ram
  pub read_font : (position size address : ℕ) → Ram → Ram
  pub gop : Option GopMode
  pub get_memory_map : Ram → Ram
  pub mem_info : Meminfo
  pub compare_guid : ℕ → ℕ
  pub vendor_table : ℕ → ℕ
  pub table_entries : ℕ
  pub keys : List ℕ
  pub header : ℕ
  pub elf_mag : ℕ
  pub prog_headers : ℕ
  pub font_header : ℕ
  pub glyphs : ℕ
  pub rsd_ptr : ℕ

-- The arguments of `kernel_entry`, its address, and memory when it is called.
pub record Entry : Type 0 where
  pub address : ℕ
  pub lfb : Framebuffer
  pub font : Psf1Font
  pub mem_info : Meminfo
  pub rsdp : ℕ
  pub legacy_boot : ℕ
  pub ram : Ram

-- How `efi_main` ends: with a message, with a `NULL` that is used, in the menu with no more keys,
-- with a reset of the machine, or in the kernel.
pub data Booted : Type 0 where
  no_kernel bad_header null_framebuffer null_font in_menu machine_reset : Booted
  entered : Entry → Booted

-- Whether a file is returned: `status` is that of `Open`, and `EFI_SUCCESS` is 0.
unfoldable pub load_file : (status : ℕ) → Bool
load_file status = status == 0

unfoldable pub init_gop : Option GopMode → Option Framebuffer
init_gop none = none
init_gop (some mode) = some (record {
  base_addr = mode.frame_buffer_base;
  buffer_size = mode.frame_buffer_size;
  width = mode.horizontal_resolution;
  height = mode.vertical_resolution;
  ppsl = mode.pixels_per_scan_line;
})

-- The screens that the loop of the menu draws.
unfoldable pub draw_events : Framebuffer → Psf1Font → List MenuEvent → Ram → Ram
draw_events lfb font [] m = m
draw_events lfb font (shows_boot ∷ events) m =
    menu_select_boot lfb font top_text (draw_events lfb font events m)
draw_events lfb font (shows_reboot ∷ events) m =
    menu_select_reboot lfb font top_text (draw_events lfb font events m)

module _ (fw : Firmware) where
  -- The kernel's header in memory.
  unfoldable pub read_header : Ram → Ram
  read_header m = fw.read_kernel 0 64 fw.header m

  unfoldable pub phentsize : Ram → ℕ
  phentsize m = load 2 m (fw.header + 54)

  unfoldable pub phnum : Ram → ℕ
  phnum m = load 2 m (fw.header + 56)

  unfoldable pub read_prog_headers : Ram → Ram
  read_prog_headers m =
      fw.read_kernel (load64 m (fw.header + 32)) (phnum m * phentsize m) fw.prog_headers m

  -- The segments; headers of no size end the loop at once.
  unfoldable pub load_kernel : Ram → Ram
  load_kernel m =
      let size = phentsize m in
      load_segments fw.read_kernel size (if size == 0 then 0 else phnum m) fw.prog_headers
        (read_prog_headers m)

  -- From the end of the menu to the call of the kernel.
  unfoldable pub enter_kernel : Framebuffer → Psf1Font → Menu → Ram → Entry
  enter_kernel lfb font menu m =
      let m1 = boot_clear_screen lfb 0x000000 (draw_events lfb font menu.events m) in
      let m2 = fw.get_memory_map m1 in
      record {
        address = load64 m2 (fw.header + 24);
        lfb = lfb;
        font = font;
        mem_info = fw.mem_info;
        rsdp = rsdp_search fw.compare_guid fw.vendor_table fw.rsd_ptr m2 fw.table_entries;
        legacy_boot = menu.legacy_boot;
        ram = m2;
      }

  -- From the loaded kernel on.
  unfoldable pub run_menu : Ram → Booted
  run_menu m = elim (init_gop fw.gop) [
    | none ↦ null_framebuffer
    | some lfb ↦ elim (load_font fw.read_font fw.font_header fw.glyphs (load_file fw.open_font) m) [
      | none ↦ null_font
      | some r ↦ elim (menu_loop fw.keys first_menu) [
        | waiting ↦ in_menu
        | resets ↦ machine_reset
        | leaves menu ↦ entered (enter_kernel lfb r.0 menu r.1)
      ]
    ]
  ]

  unfoldable pub efi_main : Ram → Booted
  efi_main m =
      let m1 = read_header m in
      let loaded = run_menu (load_kernel m1) in
      if load_file fw.open_kernel
      then if header_bad fw.elf_mag m1 fw.header then bad_header else loaded
      else no_kernel

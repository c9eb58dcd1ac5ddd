-- ===== src/Boot/Main/Bootable.antt =====
-- What a kernel needs to be booted, and how it is entered.
use kess_os.Base.{ℕ, ◌+◌, ◌*◌, ◌≤◌, ◌<◌, ◌≡◌, ◌⊎◌}
use kess_os.Base.{false, some}
use kess_os.Ram.{Ram, load64}
use kess_os.Drivers.Video.{Framebuffer}
use kess_os.Boot.Elf.{header_bad}
use kess_os.Boot.Elf.Segments.{Segment, segment_at, Outside, Holds, IsFile, IsLoadable}
use kess_os.Boot.Font.{psf1_magic0, psf1_magic1, glyph_buffer_size}
use kess_os.Boot.Rsdp.Laws.{Hit}
use kess_os.Boot.Main.{Firmware, Entry, init_gop, read_header, phentsize, phnum, read_prog_headers}
use kess_os.Drivers.Video.Screen.{OffScreen}
use kess_os.Boot.Main.Frame.{IsScreen}

-- An address outside `n` bytes at `a`.
abbrev pub Away : (a n x : ℕ) → Type 0
Away a n x = (x < a) ⊎ (a + n ≤ x)

-- The headers as the loader reads them.
abbrev pub program_header : Firmware → Ram → (k : ℕ) → Segment
program_header fw m k =
    let m1 = read_header fw m in
    segment_at (read_prog_headers fw m1) (fw.prog_headers + k * phentsize fw m1)

-- An address that nothing writes once the segments are loaded: outside the font, the screen and the
-- memory map.
abbrev pub IsKept : Firmware → (font_file : ℕ → ℕ) → Framebuffer → ℕ → Type 0
IsKept fw font_file lfb x =
    Away fw.font_header 4 x
    × Away fw.glyphs (glyph_buffer_size (font_file 2) (font_file 3)) x
    × OffScreen lfb x
    × Away fw.mem_info.m_map fw.mem_info.m_size x

-- Both files can be read, the kernel can be loaded, the screen is large enough, the font is a PSF1
-- font, and the areas that the loader writes stay apart from the kernel and from its header.
pub record IsBootable (fw : Firmware) (file font_file : ℕ → ℕ) (size font_size : ℕ)
    (lfb : Framebuffer) (m : Ram) : Type 0 where
  pub kernel_opens : fw.open_kernel ≡ 0
  pub font_opens : fw.open_font ≡ 0
  pub kernel : IsFile file size fw.read_kernel
  pub font : IsFile font_file font_size fw.read_font
  pub whole_header : 64 ≤ size
  pub accepted : header_bad fw.elf_mag (read_header fw m) fw.header ≡ false
  pub whole_table :
      let m1 = read_header fw m in load64 m1 (fw.header + 32) + phnum fw m1 * phentsize fw m1 ≤ size
  pub loadable :
      let m1 = read_header fw m in
      IsLoadable (read_prog_headers fw m1) fw.prog_headers (phentsize fw m1) (phnum fw m1) size
  pub graphics : init_gop fw.gop ≡ some lfb
  pub screen : IsScreen lfb
  pub magic : (font_file 0 ≡ psf1_magic0) × (font_file 1 ≡ psf1_magic1)
  pub whole_font : 4 + glyph_buffer_size (font_file 2) (font_file 3) ≤ font_size
  pub map :
      (r : Ram) (x : ℕ) → Away fw.mem_info.m_map fw.mem_info.m_size x → fw.get_memory_map r x ≡ r x
  pub header_kept :
      (d : ℕ)
      → d < 64
      → let m1 = read_header fw m in
        IsKept fw font_file lfb (fw.header + d)
        × Away fw.prog_headers (phnum fw m1 * phentsize fw m1) (fw.header + d)
        × ((k : ℕ)
            → k < phnum fw m1
            → (program_header fw m k).type ≡ 1
            → Outside (program_header fw m k) (fw.header + d))
  pub segments_kept :
      (k j : ℕ)
      → k < phnum fw (read_header fw m)
      → (program_header fw m k).type ≡ 1
      → j < (program_header fw m k).filesz
      → IsKept fw font_file lfb ((program_header fw m k).paddr + j)

-- The kernel is entered at the entry point of its file, with each of its segments in memory, the
-- frame buffer of the firmware, the glyphs, the memory map as the firmware left it, and as root pointer NULL or a table
-- with the signature.
pub record IsEntered (fw : Firmware) (file : ℕ → ℕ) (lfb : Framebuffer) (m : Ram) (e : Entry)
    : Type 0 where
  pub entry_point : e.address ≡ load64 file 24
  pub segments :
      (k : ℕ)
      → k < phnum fw (read_header fw m)
      → (program_header fw m k).type ≡ 1
      → Holds file e.ram (program_header fw m k)
  pub screen : e.lfb ≡ lfb
  pub glyphs : e.font.glyph_buffer ≡ fw.glyphs
  pub map : e.mem_info ≡ fw.mem_info
  pub described : (r : Ram) × (e.ram ≡ fw.get_memory_map r)
  pub root :
      (e.rsdp ≡ 0)
      ⊎ ((i : ℕ) × Hit fw.compare_guid fw.vendor_table fw.rsd_ptr e.ram fw.table_entries e.rsdp i)

-- ===== src/Boot/Sample.antt =====
-- A small kernel with one segment that is booted.
use kess_os.Base.{
  ℕ, ◌+◌, ◌*◌, ◌<◌, ◌≡◌, ◌==◌, ◌||◌, ◌-◌, ltb, false, if◌then◌else◌, refl, arith, [], ◌∷◌, some,
}
use kess_os.Ram.{Ram, load, load64}
use kess_os.Kernel.Sample.{acpi_tables, descriptor_byte}
use kess_os.Drivers.Video.{Framebuffer}
use kess_os.Boot.Elf.{memcmp, header_bad}
use kess_os.Boot.Elf.Segments.{copy_of, copy_of-IsFile, segment_at, IsLoadable}
use kess_os.Boot.Font.{glyph_buffer_size}
use kess_os.Boot.Main.{Firmware, init_gop, read_header, phentsize, phnum, read_prog_headers}
use kess_os.Boot.Main.Bootable.{program_header, IsBootable}

-- The header, one program header at 64, and code from 128 on that goes to 0x100000.
abbrev pub kernel_elf : ℕ → ℕ
kernel_elf p =
    if p == 0
    then 0x7F
    else if p == 1
    then b'E'
    else if p == 2
    then b'L'
    else if p == 3
    then b'F'
    else if p == 4
    then 2
    else if p == 16
    then 2
    else if p == 18
    then 62
    else if p == 20
    then 1
    else if p == 26
    then 0x10
    else if p == 32
    then 64
    else if p == 54
    then 56
    else if p == 56
    then 1
    else if p == 64
    then 1
    else if p == 72
    then 128
    else if p == 90
    then 0x10
    else if p == 96
    then 16
    else if ltb 127 p
    then 0xF4
    else 0

abbrev pub zap_light : ℕ → ℕ
zap_light p = if p == 0 then 0x36 else if p == 1 then 4 else if p == 3 then 16 else 0

-- The loader's constants "\177ELF" and "RSD PTR " are at 0x6000 and 0x6010; at 0x9000 there is a
-- root pointer.
abbrev pub memory : Ram
memory x =
    if x == 0x6000
    then 0x7F
    else if x == 0x6001
    then b'E'
    else if x == 0x6002
    then b'L'
    else if x == 0x6003
    then b'F'
    else if (x == 0x6010) || (x == 0x9000)
    then b'R'
    else if (x == 0x6011) || (x == 0x9001)
    then b'S'
    else if (x == 0x6012) || (x == 0x9002)
    then b'D'
    else if (x == 0x6013) || (x == 0x9003)
    then 0x20
    else if (x == 0x6014) || (x == 0x9004)
    then b'P'
    else if (x == 0x6015) || (x == 0x9005)
    then b'T'
    else if (x == 0x6016) || (x == 0x9006)
    then b'R'
    else if (x == 0x6017) || (x == 0x9007)
    then 0x20
    else acpi_tables x

abbrev pub firmware : Firmware
firmware = record {
  open_kernel = 0;
  open_font = 0;
  read_kernel = copy_of kernel_elf;
  read_font = copy_of zap_light;
  gop = some (record {
    frame_buffer_base = 0x80000000;
    frame_buffer_size = 3145728;
    horizontal_resolution = 1024;
    vertical_resolution = 768;
    pixels_per_scan_line = 1024;
  });
  get_memory_map = λ r x.
      if ltb x 0x20000 then r x else if ltb x 0x20060 then descriptor_byte (x - 0x20000) else r x;
  mem_info = record { m_map = 0x20000; m_size = 96; m_descriptor_size = 48 };
  compare_guid = λ i. if i == 0 then 1 else 0;
  vendor_table = λ i. 0x9000 + i * 0x10000;
  table_entries = 3;
  keys = 2 ∷ 1 ∷ 3 ∷ [];
  header = 0x7000;
  elf_mag = 0x6000;
  prog_headers = 0x8000;
  font_header = 0x30000;
  glyphs = 0x31000;
  rsd_ptr = 0x6010;
}

abbrev pub screen : Framebuffer
screen = record {
  base_addr = 0x80000000;
  buffer_size = 3145728;
  width = 1024;
  height = 768;
  ppsl = 1024;
}

counted :
    (phnum firmware (read_header firmware memory) ≡ 1)
    × (phentsize firmware (read_header firmware memory) ≡ 56)
    × (load64 (read_header firmware memory) (0x7000 + 32) ≡ 64)
unfolding phnum phentsize read_header load
counted = (refl, refl, refl)

header_accepted : header_bad 0x6000 (read_header firmware memory) 0x7000 ≡ false
unfolding header_bad memcmp read_header load
header_accepted = refl

code :
    let s =
      segment_at (read_prog_headers firmware (read_header firmware memory)) (0x8000 + 0 * 56) in
    (s.type ≡ 1) × (s.offset ≡ 128) × (s.filesz ≡ 16) × (s.paddr ≡ 0x100000)
unfolding read_prog_headers phnum phentsize read_header load
code = (refl, refl, refl, refl)

-- The only program header.
header_zero :
    (k : ℕ)
    → k < phnum firmware (read_header firmware memory)
    → ((program_header firmware memory k).type ≡ 1)
      × ((program_header firmware memory k).offset ≡ 128)
      × ((program_header firmware memory k).filesz ≡ 16)
      × ((program_header firmware memory k).paddr ≡ 0x100000)
header_zero k h = let only : k ≡ 0 = omega (arith, counted) in rw (only, counted.1) code

glyph_bytes : glyph_buffer_size (zap_light 2) (zap_light 3) ≡ 4080
unfolding glyph_buffer_size
glyph_bytes = refl

firmware-IsLoadable :
    let m1 = read_header firmware memory in
    IsLoadable
      (read_prog_headers firmware m1)
      0x8000
      (phentsize firmware m1)
      (phnum firmware m1)
      0x100
firmware-IsLoadable = record {
  wide = omega (arith, counted);
  in_file = λ i h is_load. omega (arith, header_zero i h);
  off_table = λ i x h is_load p q. omega (arith, header_zero i h, rw (counted.0, counted.1) at q);
  off_segments = λ i k j h is_load h' is_load' apart hj. absurd (apart (omega (arith, counted)));
}

pub firmware-IsBootable : IsBootable firmware kernel_elf zap_light 0x100 5000 screen memory
unfolding init_gop
firmware-IsBootable = record {
  kernel_opens = refl;
  font_opens = refl;
  kernel = copy_of-IsFile kernel_elf 0x100;
  font = copy_of-IsFile zap_light 5000;
  whole_header = omega arith;
  accepted = header_accepted;
  whole_table = rw (counted.0, counted.1, counted.2) (omega arith);
  loadable = firmware-IsLoadable;
  graphics = refl;
  screen = record {
    tall = omega arith;
    wide = omega arith;
    not_too_tall = omega arith;
    not_too_wide = omega arith;
    visible = omega arith;
  };
  magic = (refl, refl);
  whole_font = omega (arith, glyph_bytes);
  map = λ r x away. ground arith;
  header_kept = λ d h. (
    omega (arith, glyph_bytes),
    rw (counted.0, counted.1) (omega arith),
    λ k hk is_load. omega (arith, header_zero k hk),
  );
  segments_kept = λ k j h is_load hj. omega (arith, glyph_bytes, header_zero k h);
}

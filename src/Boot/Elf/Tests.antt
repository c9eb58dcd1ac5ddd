-- ===== src/Boot/Elf/Tests.antt =====
-- Instances of the header test and of a loaded kernel.
use kess_os.Base.{
  ℕ, ◌+◌, ◌*◌, ◌%◌, ◌<◌, ◌≡◌, ◌==◌, if◌then◌else◌, ◌↔◌, false, refl, arith, ℕ_discrete,
}
use kess_os.Ram.{Ram, load, load32}
use kess_os.Util.Text.Laws.{Same}
use kess_os.Boot.Elf.{header_bad, load_segments}
use kess_os.Boot.Elf.Laws.{header_bad-accepts}
use kess_os.Boot.Elf.Segments.{
  copy_of, copy_of-IsFile, segment_at, Outside, Holds, IsLoadable, load_segments-loads,
}

abbrev empty_file : Ram
empty_file x = 0

header_bad-accepts_example : (header_bad 0x40 empty_file 0x100 ≡ false) ↔ (
    Same empty_file 0x100 0x40 4
    × (empty_file (0x100 + 4) ≡ 2)
    × (load 2 empty_file (0x100 + 16) ≡ 2)
    × (load 2 empty_file (0x100 + 18) ≡ 62)
    × (load32 empty_file (0x100 + 20) ≡ 1))
header_bad-accepts_example = header_bad-accepts 0x40 empty_file 0x100

-- A file.
abbrev kernel_file : ℕ → ℕ
kernel_file position = position * 7 % 256

-- Two program headers at 0x1000: 16 bytes from 0x40 on to be loaded at 0x100000, and a note.
abbrev headers : Ram
headers x =
    if x == 0x1000
    then 1
    else if x == 0x1008
    then 0x40
    else if x == 0x101A
    then 0x10
    else if x == 0x1020
    then 16
    else if x == 0x1038
    then 6
    else 0

first_header :
    let first = segment_at headers (0x1000 + 0 * 56) in
    (first.offset ≡ 0x40) × (first.filesz ≡ 16) × (first.paddr ≡ 0x100000)
unfolding load
first_header = (refl, refl, refl)

note_header : (segment_at headers (0x1000 + 1 * 56)).type ≡ 6
unfolding load
note_header = refl

only_first : (i : ℕ) → i < 2 → (segment_at headers (0x1000 + i * 56)).type ≡ 1 → i ≡ 0
only_first i h is_load = elim (ℕ_discrete i 1) [
  | yes same ↦ absurd (omega (arith, note_header, rw same at is_load))
  | no other ↦ omega arith
]

headers-IsLoadable : IsLoadable headers 0x1000 56 2 0x100
headers-IsLoadable = record {
  wide = omega arith;
  in_file = λ i h is_load. rw (only_first i h is_load) (omega (arith, first_header));
  off_table = λ i x h is_load p q. rw (only_first i h is_load) (omega (arith, first_header));
  off_segments = λ i k j h is_load h' is_load' apart hj.
      absurd (omega (arith, only_first i h is_load, only_first k h' is_load', apart));
}

load_segments-loads_example :
    let r = load_segments (copy_of kernel_file) 56 2 0x1000 headers in
    ((k : ℕ)
      → k < 2
      → (segment_at headers (0x1000 + k * 56)).type ≡ 1
      → Holds kernel_file r (segment_at headers (0x1000 + k * 56)))
    × ((x : ℕ)
        → ((k : ℕ)
            → k < 2
            → (segment_at headers (0x1000 + k * 56)).type ≡ 1
            → Outside (segment_at headers (0x1000 + k * 56)) x)
        → r x ≡ headers x)
load_segments-loads_example =
    load_segments-loads kernel_file 0x100 (copy_of kernel_file) headers 0x1000 56 2
      (copy_of-IsFile kernel_file 0x100) headers-IsLoadable

-- ===== src/Boot/Elf/Segments.antt =====
-- What the loader leaves in memory.
use kess_os.Base.{if◌then◌else◌, ltb, not, ◌&&◌, ◌-◌}
use kess_os.Base.{
  ℕ, zero, suc, ◌+◌, ◌*◌, ◌≤◌, ◌<◌, ◌≡◌, ◌≢◌, ◌⊎◌, refl, arith, sym, ◌∙◌, ℕ_discrete,
}
use kess_os.Base.{◌==◌, true, false}
use native.Mathlib.Nat.{add-zero}
use kess_os.Ram.{Ram, load, load32, load64}
use kess_os.Ram.Laws.{load-cong}
use kess_os.Boot.Elf.{load_segments}

-- The fields of a program header that the loader reads.
pub record Segment : Type 0 where
  pub type : ℕ
  pub offset : ℕ
  pub filesz : ℕ
  pub paddr : ℕ

abbrev pub segment_at : Ram → (phdr : ℕ) → Segment
segment_at m phdr = record {
  type = load32 m phdr;
  offset = load64 m (phdr + 8);
  filesz = load64 m (phdr + 32);
  paddr = load64 m (phdr + 24);
}

-- An address outside the memory that the file's bytes of a segment take.
abbrev pub Outside : Segment → ℕ → Type 0
Outside s x = (x < s.paddr) ⊎ (s.paddr + s.filesz ≤ x)

abbrev pub Holds : (file : ℕ → ℕ) → Ram → Segment → Type 0
Holds file m s = (j : ℕ) → j < s.filesz → m (s.paddr + j) ≡ file (s.offset + j)

-- `SetPosition` and `Read` of the firmware on a file of `size` bytes: a read within the file copies
-- its bytes to the address, and changes nothing else.
pub record IsFile (file : ℕ → ℕ) (size : ℕ) (read : (position size address : ℕ) → Ram → Ram)
    : Type 0 where
  pub copies :
      (position n address : ℕ) (m : Ram) (j : ℕ)
      → position + n ≤ size
      → j < n
      → read position n address m (address + j) ≡ file (position + j)
  pub keeps :
      (position n address : ℕ) (m : Ram) (x : ℕ)
      → position + n ≤ size
      → (x < address) ⊎ (address + n ≤ x)
      → read position n address m x ≡ m x

-- Reads that do no more than that.
abbrev pub copy_of : (file : ℕ → ℕ) → (position size address : ℕ) → Ram → Ram
copy_of file position size address m x =
    if not (ltb x address) && ltb x (address + size) then file (position + (x - address)) else m x

pub copy_of-IsFile : (file : ℕ → ℕ) (size : ℕ) → IsFile file size (copy_of file)
copy_of-IsFile file size = record {
  copies = λ position n address m j fits h. ground arith;
  keeps = λ position n address m x fits out. ground arith;
}

-- A kernel that can be loaded: `n` headers of `phentsize` bytes at `table`, the bytes of each
-- loaded segment in the file, and no two of the areas that the loader reads or writes overlap.
pub record IsLoadable (m : Ram) (table phentsize n size : ℕ) : Type 0 where
  pub wide : 56 ≤ phentsize
  pub in_file :
      (i : ℕ)
      → i < n
      → (segment_at m (table + i * phentsize)).type ≡ 1
      → (segment_at m (table + i * phentsize)).offset
          + (segment_at m (table + i * phentsize)).filesz
        ≤ size
  pub off_table :
      (i x : ℕ)
      → i < n
      → (segment_at m (table + i * phentsize)).type ≡ 1
      → table ≤ x
      → x < table + n * phentsize
      → Outside (segment_at m (table + i * phentsize)) x
  pub off_segments :
      (i k j : ℕ)
      → i < n
      → (segment_at m (table + i * phentsize)).type ≡ 1
      → k < n
      → (segment_at m (table + k * phentsize)).type ≡ 1
      → i ≢ k
      → j < (segment_at m (table + k * phentsize)).filesz
      → Outside
          (segment_at m (table + i * phentsize))
          ((segment_at m (table + k * phentsize)).paddr + j)

module _ (file : ℕ → ℕ) (size : ℕ) (read : (position size address : ℕ) → Ram → Ram)
    (is_file : IsFile file size read) (m0 : Ram) (table phentsize n : ℕ)
    (ok : IsLoadable m0 table phentsize n size) where
  -- Header `i` as it was before.
  abbrev pub header : ℕ → Segment
  header i = segment_at m0 (table + i * phentsize)

  -- The first `i` headers have been dealt with.
  pub record IsLoaded (i : ℕ) (m : Ram) : Type 0 where
    pub headers : (x : ℕ) → table ≤ x → x < table + n * phentsize → m x ≡ m0 x
    pub loaded : (k : ℕ) → k < i → (header k).type ≡ 1 → Holds file m (header k)
    pub frame :
        (x : ℕ) → ((k : ℕ) → k < n → (header k).type ≡ 1 → Outside (header k) x) → m x ≡ m0 x

  inside : (i d : ℕ) → i < n → d ≤ 56 → table + i * phentsize + d ≤ table + n * phentsize
  inside i d h small = grind (arith, ok.wide)

  same_load :
      (w i d : ℕ) (m : Ram)
      → IsLoaded i m
      → i < n
      → d + w ≤ 56
      → load w m (table + i * phentsize + d) ≡ load w m0 (table + i * phentsize + d)
  same_load w i d m v h small =
      load-cong w m m0 (table + i * phentsize + d)
        (λ x p q. v.headers x (omega arith) (omega (arith, inside i (d + w) h small)))

  skip_step : (i : ℕ) (m : Ram) → IsLoaded i m → (header i).type ≢ 1 → IsLoaded (i + 1) m
  skip_step i m v other = record {
    headers = v.headers;
    loaded = λ k h is_load. elim (ℕ_discrete k i) [
      | yes same ↦ absurd (other (rw same at is_load))
      | no before ↦ v.loaded k (omega arith) is_load
    ];
    frame = v.frame;
  }

  read_step :
      (i : ℕ) (m : Ram)
      → i < n
      → IsLoaded i m
      → (header i).type ≡ 1
      → IsLoaded (i + 1) (read (header i).offset (header i).filesz (header i).paddr m)
  read_step i m h v this =
      let s = header i in
      let fits = ok.in_file i h this in
      record {
        headers = λ x p q.
            is_file.keeps s.offset s.filesz s.paddr m x fits (ok.off_table i x h this p q)
            ∙ v.headers x p q;
        loaded = λ k hk is_load j hj. elim (ℕ_discrete k i) [
          | yes same ↦ rw same (is_file.copies s.offset s.filesz s.paddr m j fits (rw same at hj))
          | no before ↦
              is_file.keeps s.offset s.filesz s.paddr m ((header k).paddr + j) fits
                (ok.off_segments i k j h this (omega arith) is_load (λ e. before (sym e)) hj)
              ∙ v.loaded k (omega arith) is_load j hj
        ];
        frame = λ x out.
            is_file.keeps s.offset s.filesz s.paddr m x fits (out i h this) ∙ v.frame x out;
      }

  same_segment :
      (i : ℕ) (m : Ram)
      → IsLoaded i m
      → i < n
      → let phdr = table + i * phentsize in
        (load32 m phdr ≡ (header i).type)
        × (load64 m (phdr + 8) ≡ (header i).offset)
        × (load64 m (phdr + 32) ≡ (header i).filesz)
        × (load64 m (phdr + 24) ≡ (header i).paddr)
  same_segment i m v h = (
    rw add-zero at (same_load 4 i 0 m v h (omega arith)),
    same_load 8 i 8 m v h (omega arith),
    same_load 8 i 32 m v h (omega arith),
    same_load 8 i 24 m v h (omega arith),
  )

  load_segments-IsLoaded :
      (left i phdr : ℕ) (m : Ram)
      → i + left ≡ n
      → phdr ≡ table + i * phentsize
      → IsLoaded i m
      → IsLoaded n (load_segments read phentsize left phdr m)
  unfolding load_segments
  load_segments-IsLoaded zero i phdr m e at' v = let done : i ≡ n = omega arith in rw (← done) v
  load_segments-IsLoaded (suc left) i phdr m e at' v =
      let h : i < n = omega arith in
      let same = same_segment i m v h in
      let next : phdr + phentsize ≡ table + (i + 1) * phentsize = grind arith in
      elim (ℕ_discrete (header i).type 1) [
        | yes this ↦
            let test : (load32 m phdr == 1) ≡ true = rw (at', same.0, this) refl in
            rw (test, at', same.1, same.2, same.3)
              (load_segments-IsLoaded left (i + 1) _ _ (omega arith) (rw (← at') next)
                (read_step i m h v this))
        | no other ↦
            let test : (load32 m phdr == 1) ≡ false = rw (at', same.0) (ground arith) in
            rw test
              (load_segments-IsLoaded left (i + 1) _ m (omega arith) next (skip_step i m v other))
      ]

-- The loader ends with each segment of type `PT_LOAD` at its physical address: the file's bytes
-- from `p_offset` on, `p_filesz` of them. It changes no byte outside these areas; in particular it
-- does not clear the rest of `p_memsz`. The firmware's read copies bytes of the file, and the areas
-- that the loader reads and writes do not overlap.
pub load_segments-loads :
    (file : ℕ → ℕ) (size : ℕ) (read : (position size address : ℕ) → Ram → Ram) (m : Ram)
    (table phentsize n : ℕ)
    → IsFile file size read
    → IsLoadable m table phentsize n size
    → let r = load_segments read phentsize n table m in
      ((k : ℕ)
        → k < n
        → (segment_at m (table + k * phentsize)).type ≡ 1
        → Holds file r (segment_at m (table + k * phentsize)))
      × ((x : ℕ)
          → ((k : ℕ)
              → k < n
              → (segment_at m (table + k * phentsize)).type ≡ 1
              → Outside (segment_at m (table + k * phentsize)) x)
          → r x ≡ m x)
load_segments-loads file size read m table phentsize n is_file ok =
    let start : IsLoaded file size read is_file m table phentsize n ok 0 m = record {
      headers = λ x p q. refl;
      loaded = λ k h. absurd (omega arith);
      frame = λ x out. refl;
    } in
    let v =
      load_segments-IsLoaded file size read is_file m table phentsize n ok n 0 table m (omega arith)
        (omega arith) start in
    (v.loaded, v.frame)

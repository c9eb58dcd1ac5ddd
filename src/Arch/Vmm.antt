-- ===== src/Arch/Vmm.antt =====
-- kernel/src/arch/memory/vmm.h and impl/vmm.c: the page allocator and the page tables.
-- The tables lie in memory, so every access is a load or a store of 8 bytes. `pml4` is the
-- address that the linker gives the static top table. `map_page` calls itself on each page that
-- it takes for a table: the recursion goes on fuel, one unit for each nested call.

pub mod Entry
pub mod Invariant
pub mod NewTable
pub mod Maps
pub mod Leaf
pub mod Ensure
pub mod Walk
pub mod MapPage
pub mod Init
pub mod Pages
mod Tests
use kess_os.Base.{ℕ, zero, suc, ◌+◌, ◌-◌, ◌*◌, ◌/◌, ◌==◌, ◌&&◌, ltb, bit_and, bit_or, Bool}
use kess_os.Base.{none, some, if◌then◌else◌, u64, ◌>>>◌}
use kess_os.Ram.{Ram, load64, store64}
use kess_os.Util.Bytes.{memzero}
use kess_os.Arch.MemoryMap.{
  mmap_usable_memory, mem_type_code, Memdesc, Meminfo, read_memdesc, get_mmap_entries,
  mmap_iterator_helper,
}

abbrev pub page_bit_p_present : ℕ
page_bit_p_present = 1

abbrev pub page_bit_rw_writable : ℕ
page_bit_rw_writable = 2

abbrev pub page_bit_us_user : ℕ
page_bit_us_user = 4

abbrev pub page_addr_mask : ℕ
page_addr_mask = 0x000ffffffffff000

abbrev pub gb : ℕ
gb = 0x40000000

-- Memory with the statics `placement` and `biggestSegment`.
pub record Vmm : Type 0 where
  pub ram : Ram
  pub placement : ℕ
  pub biggest_segment : Memdesc

-- `null_table`: `alloc_page` had no page left and its `NULL` is cleared as a table, which C leaves
-- undefined. `divide_error`: the memory map has descriptors of size 0.
pub data Outcome : Type 0 where
  done : Vmm → Outcome
  null_table : Outcome
  divide_error : Outcome
  out_of_fuel : Outcome

infixl 5 ◌>>=◌
abbrev pub ◌>>=◌ : Outcome → (Vmm → Outcome) → Outcome
done s >>= k = k s
null_table >>= k = null_table
divide_error >>= k = divide_error
out_of_fuel >>= k = out_of_fuel

-- One round of the loop in `set_placement`, on `biggestSegment`.
unfoldable pub bigger : Memdesc → Memdesc → Memdesc
unfolding mem_type_code
bigger cur biggest =
    if ltb biggest.n_pages cur.n_pages && cur.type == mem_type_code mmap_usable_memory
    then cur
    else biggest

-- The loop of `set_placement` at index `i`, with `left` rounds to go.
unfoldable pub biggest_loop : Ram → Meminfo → (left i : ℕ) → Memdesc → Memdesc
unfolding bigger read_memdesc mmap_iterator_helper
biggest_loop m meminfo zero i biggest = biggest
biggest_loop m meminfo (suc left) i biggest =
    biggest_loop m meminfo left (i + 1)
      (bigger (read_memdesc m (mmap_iterator_helper i meminfo)) biggest)

unfoldable pub set_placement : Meminfo → Vmm → Outcome
unfolding biggest_loop get_mmap_entries
set_placement meminfo s = elim (get_mmap_entries meminfo) [
  | none ↦ divide_error
  | some mmap_entries ↦
      let biggest =
        biggest_loop s.ram meminfo mmap_entries 0 (record (s.biggest_segment) { n_pages = 0 }) in
      done (record s { biggest_segment = biggest; placement = biggest.phys_addr })
]

-- The page, 0 for `NULL`.
unfoldable pub alloc_page : Vmm → ℕ × Vmm
alloc_page s = if s.biggest_segment.n_pages == 0 then (0, s) else (
  s.placement,
  record s {
    placement = u64 (s.placement + 4096);
    biggest_segment = record (s.biggest_segment) { n_pages = s.biggest_segment.n_pages - 1 };
  },
)

abbrev pub flags : ℕ
flags = bit_or (bit_or page_bit_p_present page_bit_rw_writable) page_bit_us_user

-- `entry & PAGE_BIT_P_PRESENT`, as a test that fails.
unfoldable pub is_absent : Ram → ℕ → Bool
is_absent m entry = bit_and (load64 m entry) page_bit_p_present == 0

-- The body of the first three tests in `map_page`: a new table is cleared, entered at the
-- address `entry` and mapped by the call `map` of `map_page` itself. `clear` is the mask that
-- the first of them puts on the address it clears, and nothing in the other two.
unfoldable pub add_table : (map : ℕ → Vmm → Outcome) (clear : ℕ → ℕ) (entry : ℕ) → Vmm → Outcome
unfolding alloc_page
add_table map clear entry s =
    let (page, s') = alloc_page s in
    if page == 0
    then null_table
    else map page (record s' {
      ram =
          store64 (memzero s'.ram (clear page) 4096) entry
            (bit_or (bit_and page page_addr_mask) flags);
    })

unfoldable pub ensure_table : (map : ℕ → Vmm → Outcome) (clear : ℕ → ℕ) (entry : ℕ) → Vmm → Outcome
unfolding add_table is_absent
ensure_table map clear entry s =
    if is_absent s.ram entry then add_table map clear entry s else done s

-- `&((struct MappingTable*)(entry & PAGE_ADDR_MASK))->entries[idx]`.
unfoldable pub next_entry : Ram → (entry idx : ℕ) → ℕ
next_entry m entry idx = bit_and (load64 m entry) page_addr_mask + 8 * idx

-- The last test of `map_page`: the page's own entry.
unfoldable pub set_leaf : (logical entry : ℕ) → Vmm → Outcome
unfolding is_absent
set_leaf logical entry s =
    if is_absent s.ram entry
    then done
        (record s { ram = store64 s.ram entry (bit_or (bit_and logical page_addr_mask) flags) })
    else done s

abbrev pub pml4_idx : ℕ → ℕ
pml4_idx logical = bit_and (logical >>> 39) 0x1ff

abbrev pub pdp_idx : ℕ → ℕ
pdp_idx logical = bit_and (logical >>> 30) 0x1ff

abbrev pub pd_idx : ℕ → ℕ
pd_idx logical = bit_and (logical >>> 21) 0x1ff

abbrev pub pt_idx : ℕ → ℕ
pt_idx logical = bit_and (logical >>> 12) 0x1ff

module _ (pml4 : ℕ) where
  unfoldable pub map_page : (fuel logical : ℕ) → Vmm → Outcome
  unfolding ensure_table next_entry set_leaf
  map_page zero logical s = out_of_fuel
  map_page (suc fuel) logical s =
      let pml4_entry = pml4 + 8 * pml4_idx logical in
      do
        s1 ← ensure_table (map_page fuel) (λ page. bit_and page page_addr_mask) pml4_entry s
        let pdpt_entry = next_entry s1.ram pml4_entry (pdp_idx logical)
        s2 ← ensure_table (map_page fuel) (λ page. page) pdpt_entry s1
        let pdt_entry = next_entry s2.ram pdpt_entry (pd_idx logical)
        s3 ← ensure_table (map_page fuel) (λ page. page) pdt_entry s2
        set_leaf logical (next_entry s3.ram pdt_entry (pt_idx logical)) s3

  -- The loop of `init_vmm` at the address `i`, with `left` rounds to go.
  unfoldable pub map_loop : (fuel left i : ℕ) → Vmm → Outcome
  unfolding map_page
  map_loop fuel zero i s = done s
  map_loop fuel (suc left) i s = map_page fuel i s >>= map_loop fuel left (i + 4096)

  -- `init_vmm` up to the load of `cr3`, which is assembly; the loop runs to 6 GB.
  unfoldable pub init_vmm : (fuel : ℕ) → Meminfo → Vmm → Outcome
  init_vmm fuel meminfo s = do
    s1 ← set_placement meminfo s
    map_loop fuel (gb * 6 / 4096) 0 (record s1 { ram = memzero s1.ram pml4 4096 })

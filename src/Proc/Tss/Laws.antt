-- ===== src/Proc/Tss/Laws.antt =====
-- What the processor reads from the descriptor and from the TSS.
use kess_os.Base.{
  ℕ, ◌+◌, ◌*◌, ◌%◌, ◌/◌, ◌^◌, ◌<◌, ◌≡◌, bit_and, bit_and_mask, bit_and_shifted, refl, arith,
}
use kess_os.Base.{◌-◌}
use kess_os.Arch.Vmm.{Vmm, alloc_page}
use kess_os.Arch.Vmm.Invariant.{pages_left}
use kess_os.Proc.Tss.{TssDesc, TssEntry, Tss, init_tss}

abbrev pub base_address : TssDesc → ℕ
base_address d =
    d.base_addr_low
    + d.base_addr_middle * 2 ^ 16
    + d.base_addr_other_middle * 2 ^ 24
    + d.base_addr_upper * 2 ^ 32

abbrev pub stack_pointer : TssEntry → ℕ
stack_pointer e = e.rsp0_low + e.rsp0_high * 2 ^ 32

field : (k w x : ℕ) → bit_and x ((2 ^ w - 1) * 2 ^ k) ≡ x / 2 ^ k % 2 ^ w * 2 ^ k
field k w x = rw (bit_and_shifted k x (2 ^ w - 1), bit_and_mask w (x / 2 ^ k))

-- `init_tss` makes the descriptor that of a system segment, a present, available 64-bit TSS of
-- privilege 0, whose base is the
-- whole address of the static TSS, and puts the ring-0 stack 4080 bytes above what `alloc_page`
-- returned.
pub init_tss-fields :
    (tss_entry : ℕ) (v : Vmm) (s : Tss)
    → tss_entry < 2 ^ 64
    → (alloc_page v).0 < 2 ^ 63
    → let t = (init_tss tss_entry v s).0 in
      (base_address t.desc ≡ tss_entry)
      × (t.desc.p ≡ 1)
      × (t.desc.type ≡ 9)
      × (t.desc.zero_bit ≡ 0)
      × (t.desc.dpl ≡ 0)
      × (stack_pointer t.entry ≡ (alloc_page v).0 + 4080)
      × ((init_tss tss_entry v s).1 ≡ (alloc_page v).1)
unfolding init_tss
init_tss-fields tss_entry v s h page =
    let x = (alloc_page v).0 + 4080 in
    let wrap : x % 2 ^ 64 ≡ x = omega arith in
    (
      omega (
        arith,
        bit_and_mask 16 tss_entry,
        field 16 8 tss_entry,
        field 24 8 tss_entry,
        field 32 32 tss_entry,
      ),
      refl,
      refl,
      refl,
      refl,
      rw wrap (omega (arith, bit_and_mask 32 x, field 32 32 x)),
      refl,
    )

-- Called while the static segment has no pages, `init_tss` gets `NULL` from `alloc_page` and takes the address 4080 for the ring-0 stack.
pub init_tss-before_vmm :
    (tss_entry : ℕ) (v : Vmm) (s : Tss)
    → pages_left v ≡ 0
    → stack_pointer (init_tss tss_entry v s).0.entry ≡ 4080
unfolding init_tss alloc_page
init_tss-before_vmm tss_entry v s h = rw h

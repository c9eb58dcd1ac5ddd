-- ===== src/Drivers/Pci/Address.antt =====
-- The configuration address, as the PCI specification lays it out.
use kess_os.Base.{ℕ, ◌+◌, ◌*◌, ◌/◌, ◌%◌, ◌^◌, ◌<◌, ◌≡◌, bit_and, bit_or, arith, ◌∙◌, ap}
use kess_os.Base.{bit_and_mask, bit_and_shifted, bit_or_fields, bit_or_shifted}
use kess_os.Drivers.Pci.{address_of}

low_offset : (x : ℕ) → x < 256 → bit_and x 0xFC ≡ x / 4 * 4
low_offset x h = omega (arith, bit_and_shifted 2 x 63, bit_and_mask 6 (x / 4))

-- `x | (1 << 31)` of a value below it.
top_bit : (x : ℕ) → x < 2 ^ 31 → bit_or x 0x80000000 ≡ x + 2 ^ 31
top_bit x h = omega (arith, bit_or_shifted 31 x 1, ap (λ (t : ℕ). bit_or t 1) small)
  where
    small : x / 2 ^ 31 ≡ 0
    small = omega arith

-- For a bus, a slot, a function and an offset in range the address has the enable bit and each
-- number in its own field.
pub address_of-fields :
    (bus slot func offset : ℕ)
    → bus < 256
    → slot < 32
    → func < 8
    → offset < 256
    → address_of bus slot func offset
      ≡ 2 ^ 31 + bus * 2 ^ 16 + slot * 2 ^ 11 + func * 2 ^ 8 + offset / 4 * 4
address_of-fields bus slot func offset hb hs hf ho =
    let wrap_bus : bus * 2 ^ 16 % 2 ^ 32 ≡ bus * 2 ^ 16 = omega arith in
    let wrap_slot : slot * 2 ^ 11 % 2 ^ 32 ≡ slot * 2 ^ 11 = omega arith in
    let step1 : bit_or (bus * 2 ^ 16) (slot * 2 ^ 11) ≡ (bus * 32 + slot) * 2 ^ 11 =
      bit_or_fields 16 bus (slot * 2 ^ 11) (omega arith) ∙ omega arith in
    let step2 : bit_or ((bus * 32 + slot) * 2 ^ 11) (func * 2 ^ 8)
        ≡ ((bus * 32 + slot) * 8 + func) * 2 ^ 8 =
      bit_or_fields 11 (bus * 32 + slot) (func * 2 ^ 8) (omega arith) ∙ omega arith in
    let step3 : bit_or (((bus * 32 + slot) * 8 + func) * 2 ^ 8) (offset / 4 * 4)
        ≡ ((bus * 32 + slot) * 8 + func) * 2 ^ 8 + offset / 4 * 4 =
      bit_or_fields 8 ((bus * 32 + slot) * 8 + func) (offset / 4 * 4) (omega arith) in
    rw
      (
        wrap_bus,
        wrap_slot,
        step1,
        step2,
        low_offset offset ho,
        step3,
        top_bit (((bus * 32 + slot) * 8 + func) * 2 ^ 8 + offset / 4 * 4) (omega arith),
      )
      (omega arith)

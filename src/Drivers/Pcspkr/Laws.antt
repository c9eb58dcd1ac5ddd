-- ===== src/Drivers/Pcspkr/Laws.antt =====
-- The speaker's tone and its gate, bits 0 and 1 of port 0x61.
use kess_os.Base.{
  ℕ, ◌+◌, ◌*◌, ◌/◌, ◌%◌, ◌^◌, ◌<◌, ◌≤◌, ◌≡◌, ◌⊎◌, inl, inr, ◌==◌, ◌&&◌, bit_and, bit_or, refl,
  arith,
}
use kess_os.Base.{check_below, checked_below, true, false, some, ◌∷◌, u8, bit_and_mask, ℕ_discrete}
use native.Mathlib.Nat.{div-lt_iff_lt-mul}
use kess_os.Arch.Io.{Io, Trace, Device, out8, in8}
use kess_os.Drivers.Pcspkr.{play_divisor, pcspkr_play, pcspkr_shutup}

gate_table :
    check_below 256 (λ x. (bit_or x 3 == x / 4 * 4 + 3) && (bit_and x 0xFC == x / 4 * 4)) ≡ true
unfolding check_below
gate_table = refl

gate_bits : (x : ℕ) → x < 256 → (bit_or x 3 ≡ x / 4 * 4 + 3) × (bit_and x 0xFC ≡ x / 4 * 4)
gate_bits x h = ground (arith, checked_below 256 _ x gate_table h)

quotient : (hz : ℕ) → 19 ≤ hz → 1193180 / hz < 2 ^ 16
quotient hz h = (div-lt_iff_lt-mul (omega arith)).1 (omega arith)

-- What `play_divisor` leaves of the gate: it is open, and was not written if it was open before.
abbrev pub GateOpened : (dev : Device) (t t' : Trace) → Type 0
GateOpened dev t t' =
    let tmp = u8 (dev t 0x61) in
    ((tmp % 4 ≡ 3) × (t' ≡ in8 0x61 ∷ t))
    ⊎ ((v : ℕ) × (t' ≡ out8 0x61 v ∷ in8 0x61 ∷ t) × (v ≡ tmp / 4 * 4 + 3))

play_divisor-opens :
    (d : ℕ) (dev : Device) (t : Trace)
    → GateOpened dev
        (out8 0x42 (u8 (d / 2 ^ 8)) ∷ out8 0x42 (u8 (bit_and d 0xFF)) ∷ out8 0x43 0xB6 ∷ t)
        (play_divisor d dev t).1
unfolding play_divisor
play_divisor-opens d dev t =
    let before =
      out8 0x42 (u8 (d / 2 ^ 8)) ∷ out8 0x42 (u8 (bit_and d 0xFF)) ∷ out8 0x43 0xB6 ∷ t in
    let tmp = u8 (dev before 0x61) in
    let bits = (gate_bits tmp (omega arith)).0 in
    elim (ℕ_discrete tmp (bit_or tmp 3)) [
      | yes same ↦
          let test : (tmp == bit_or tmp 3) ≡ true = ground arith in
          inl (omega (arith, bits), rw test refl)
      | no other ↦
          let test : (tmp == bit_or tmp 3) ≡ false = ground arith in
          inr (u8 (bit_or tmp 3), rw test refl, omega (arith, bits))
    ]

-- From 19 Hz on, `pcspkr_play` sends the command byte and then a divisor of 16 bits, low byte
-- first, which is the whole quotient 1193180 / hz. Then it opens the speaker's gate and keeps the
-- other bits of port 0x61; a gate that is open already is not written.
pub pcspkr_play-opens :
    (hz : ℕ) (dev : Device) (t : Trace)
    → 19 ≤ hz
    → (io : Io (Unit {0})) × (pcspkr_play hz ≡ some io)
      × (lo : ℕ) × (hi : ℕ) × (lo + 256 * hi ≡ 1193180 / hz)
      × GateOpened dev (out8 0x42 hi ∷ out8 0x42 lo ∷ out8 0x43 0xB6 ∷ t) (io dev t).1
unfolding pcspkr_play
pcspkr_play-opens hz dev t h =
    let nonzero : (hz == 0) ≡ false = ground arith in
    let d = 1193180 / hz in
    rw nonzero (
      play_divisor d,
      refl,
      u8 (bit_and d 0xFF),
      u8 (d / 2 ^ 8),
      omega (arith, quotient hz h, bit_and_mask 8 d),
      play_divisor-opens d dev t,
    )

-- `pcspkr_shutup` closes the gate that `pcspkr_play` opens and keeps the other bits of the port.
pub pcspkr_shutup-closes :
    (dev : Device) (t : Trace)
    → (v : ℕ) × ((pcspkr_shutup dev t).1 ≡ out8 0x61 v ∷ in8 0x61 ∷ t)
      × (v ≡ u8 (dev t 0x61) / 4 * 4)
unfolding pcspkr_shutup
pcspkr_shutup-closes dev t =
    let tmp = u8 (dev t 0x61) in
    (u8 (bit_and tmp 0xFC), refl, omega (arith, (gate_bits tmp (omega arith)).1))

-- ===== src/Arch/Pic/Chip.antt =====
-- The 8259 as its data sheet describes it: what a chip does with the bytes it is sent.
use kess_os.Base.{ℕ, [], ◌∷◌, ◌≡◌, ◌==◌, refl, if◌then◌else◌, bit_and, arith}
use kess_os.Base.{◌+◌, leb}
use kess_os.Arch.Io.{Access, out8, Trace, Device}
use kess_os.Arch.Pic.{init_pic, pic_send_eoi}

-- The initialisation word that the data port expects next. `icw2` and `icw3` keep bit 0 of the first
-- word: without it the chip takes no fourth word.
pub data Stage : Type 0 where
  icw2 icw3 : (ic4 : ℕ) → Stage
  icw4 : Stage
  ready : Stage

-- `offset` is the vector of the chip's first line; `acks` counts end-of-interrupt commands.
pub record Chip : Type 0 where
  pub stage : Stage
  pub offset : ℕ
  pub cascade : ℕ
  pub mode : ℕ
  pub mask : ℕ
  pub acks : ℕ

-- A byte with bit 4 set starts the initialisation, with the mask and the mode cleared; 0x20 acknowledges.
abbrev pub command : ℕ → Chip → Chip
command v c =
    if bit_and v 0x10 == 0x10
    then record c { stage = icw2 (bit_and v 1); mode = 0; mask = 0 }
    else if v == 0x20
    then record c { acks = c.acks + 1 }
    else c

abbrev pub feed : Stage → ℕ → Chip → Chip
feed (icw2 ic4) v c = record c { offset = v; stage = icw3 ic4 }
feed (icw3 ic4) v c = record c { cascade = v; stage = if ic4 == 0 then ready else icw4 }
feed icw4 v c = record c { mode = v; stage = ready }
feed ready v c = record c { mask = v }

abbrev pub react : (cmd dat : ℕ) → Access → Chip → Chip
react cmd dat (out8 p v) c =
    if p == cmd then command v c else if p == dat then feed c.stage v c else c
react cmd dat _ c = c

-- The chip at these two ports after a trace, the latest access first.
abbrev pub chip_after : (cmd dat : ℕ) → Chip → Trace → Chip
chip_after cmd dat start [] = start
chip_after cmd dat start (a ∷ t) = react cmd dat a (chip_after cmd dat start t)

abbrev pub master : Chip → Trace → Chip
master = chip_after 0x20 0x21

abbrev pub slave : Chip → Trace → Chip
slave = chip_after 0xA0 0xA1

-- Whatever happened before, `init_pic` brings both chips through their whole initialisation:
-- lines 0 to 7 at vectors from 0x20 and 8 to 15 from 0x28, the slave on line 2, 8086 mode, and
-- every line masked; it acknowledges nothing.
pub init_pic-ready :
    (dev : Device) (t : Trace) (c1 c2 : Chip)
    → (master c1 (init_pic dev t).1 ≡ record {
      stage = ready;
      offset = 0x20;
      cascade = 4;
      mode = 1;
      mask = 0xFF;
      acks = (master c1 t).acks;
    })
      × (slave c2 (init_pic dev t).1 ≡ record {
        stage = ready;
        offset = 0x28;
        cascade = 2;
        mode = 1;
        mask = 0xFF;
        acks = (slave c2 t).acks;
      })
unfolding init_pic
init_pic-ready dev t c1 c2 = (refl, refl)

-- `PIC_sendEOI` acknowledges one interrupt at the master, and one at the slave exactly when the
-- line belongs to it; nothing else changes in either chip.
pub pic_send_eoi-acks :
    (irq : ℕ) (dev : Device) (t : Trace) (c1 c2 : Chip)
    → let m = master c1 t in
      let s = slave c2 t in
      (master c1 (pic_send_eoi irq dev t).1 ≡ record m { acks = m.acks + 1 })
      × (slave c2 (pic_send_eoi irq dev t).1
          ≡ record s { acks = if leb 8 irq then s.acks + 1 else s.acks })
unfolding pic_send_eoi
pic_send_eoi-acks irq dev t c1 c2 = ground arith

-- ===== src/Arch/Pic/Tests.antt =====
-- Instances of the interrupt controller's theorems.
use kess_os.Base.{◌≡◌, ◌∷◌, []}
use kess_os.Arch.Io.{Device, Trace, in8}
use kess_os.Arch.Pic.{init_pic, pic_send_eoi}
use kess_os.Arch.Pic.Chip.{Chip, ready, master, slave, init_pic-ready, pic_send_eoi-acks}

abbrev silent : Device
silent t port = 0

abbrev earlier : Trace
earlier = in8 0x60 ∷ []

abbrev fresh : Chip
fresh = record { stage = ready; offset = 0; cascade = 0; mode = 0; mask = 0; acks = 3 }

init_pic-ready_example :
    (master fresh (init_pic silent earlier).1
      ≡ record { stage = ready; offset = 0x20; cascade = 4; mode = 1; mask = 0xFF; acks = 3 })
    × (slave fresh (init_pic silent earlier).1
        ≡ record { stage = ready; offset = 0x28; cascade = 2; mode = 1; mask = 0xFF; acks = 3 })
init_pic-ready_example = init_pic-ready silent earlier fresh fresh

pic_send_eoi-acks_example :
    (master fresh (pic_send_eoi 12 silent earlier).1 ≡ record fresh { acks = 4 })
    × (slave fresh (pic_send_eoi 12 silent earlier).1 ≡ record fresh { acks = 4 })
pic_send_eoi-acks_example = pic_send_eoi-acks 12 silent earlier fresh fresh

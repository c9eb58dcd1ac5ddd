-- ===== src/Arch/Pic.antt =====
-- kernel/src/arch/io/legacy-pic.h and impl/legacy-pic.c: the two 8259 interrupt controllers.
pub mod Chip
mod Tests
use kess_os.Base.{ℕ, leb, if◌then◌else◌, bit_or}
use kess_os.Arch.Io.{Io, pure, ◌>>=◌, ◌>>◌, outportb, io_wait}

abbrev pub pic1_command : ℕ
pic1_command = 0x20

abbrev pub pic1_data : ℕ
pic1_data = 0x21

abbrev pub pic2_command : ℕ
pic2_command = 0xA0

abbrev pub pic2_data : ℕ
pic2_data = 0xA1

abbrev pub icw1_init : ℕ
icw1_init = 0x10

abbrev pub icw1_icw4 : ℕ
icw1_icw4 = 0x01

abbrev pub icw4_8086 : ℕ
icw4_8086 = 0x01

abbrev pub pic_eoi : ℕ
pic_eoi = 0x20

unfoldable pub init_pic : Io (Unit {0})
init_pic = do
  outportb pic1_command (bit_or icw1_init icw1_icw4)
  io_wait
  outportb pic2_command (bit_or icw1_init icw1_icw4)
  io_wait
  outportb pic1_data 0x20
  io_wait
  outportb pic2_data 0x28
  io_wait
  outportb pic1_data 4
  io_wait
  outportb pic2_data 2
  io_wait
  outportb pic1_data icw4_8086
  io_wait
  outportb pic2_data icw4_8086
  io_wait
  outportb pic1_data 0xFF
  io_wait
  outportb pic2_data 0xFF

unfoldable pub pic_send_eoi : (irq : ℕ) → Io (Unit {0})
pic_send_eoi irq = do
  if leb 8 irq then outportb pic2_command pic_eoi else pure tt
  outportb pic1_command pic_eoi

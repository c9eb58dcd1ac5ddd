-- ===== src/Boot/Main/Tests.antt =====
-- The small kernel is booted.
use kess_os.Base.{◌≡◌, refl, arith, [], ◌∷◌}
use kess_os.Boot.Main.{Entry, entered, efi_main}
use kess_os.Boot.Main.Bootable.{IsEntered}
use kess_os.Boot.Main.Laws.{efi_main-enters}
use kess_os.Boot.Sample.{kernel_elf, zap_light, memory, firmware, screen, firmware-IsBootable}

efi_main-enters_example :
    (e : Entry) × (efi_main firmware memory ≡ entered e)
    × IsEntered firmware kernel_elf screen memory e
efi_main-enters_example =
    efi_main-enters firmware kernel_elf zap_light 0x100 5000 screen memory (2 ∷ [])
      firmware-IsBootable refl (omega arith, tt)

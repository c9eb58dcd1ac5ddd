-- ===== src/System/Tests.antt =====
-- The small kernel on the machine of the tests.
use kess_os.Ram.{Ram, load}
use kess_os.Arch.MemoryMap.{get_mmap_entries, mmap_iterator_helper, read_memdesc, mem_type_code}
use kess_os.Arch.Vmm.{bigger, biggest_loop}
use kess_os.Kernel.Start.Laws.{HasMap}
use kess_os.Base.{inl, ◌+◌, ◌≡◌, [], ◌∷◌, refl, arith}
use kess_os.Boot.Main.{Entry}
use kess_os.Boot.Main.Bootable.{IsEntered}
use kess_os.Boot.Sample.{kernel_elf, zap_light, memory, firmware, screen, firmware-IsBootable}
use kess_os.Kernel.Run.{start}
use kess_os.Kernel.Run.Laws.{AfterStart}
use kess_os.Kernel.Sample.{linked, fresh, machine, space, board, board-IsMasked, board-IsHostBridge}
use kess_os.Arch.Io.{Trace, ◌>>=◌}
use kess_os.Interrupts.Syscall.{SyscallRegArgs}
use kess_os.Kernel.Start.{Started}
use kess_os.System.{in_kernel, power_on, user}
use kess_os.System.Ground.{HasSpace}
use kess_os.System.Screen.{HasPixel, power_on-HasPixel}
use kess_os.System.Laws.{IsMachine, power_on-AfterStart}

-- Whatever else is in memory, the map has the pool.
firmware-HasMap :
    (r : Ram)
    → HasMap linked.pml4 5000 firmware.mem_info screen.base_addr (firmware.get_memory_map r)
unfolding get_mmap_entries mmap_iterator_helper biggest_loop bigger read_memdesc mem_type_code load
firmware-HasMap r = record {
  entries = 2;
  counted = refl;
  inside = λ i h. omega arith;
  pool = λ b. record {
    aligned = refl;
    not_first = omega arith;
    low = omega arith;
    pml4_aligned = refl;
    pml4_low = omega arith;
    apart = inl (omega arith);
  };
  enough = λ b. omega arith;
}

board-IsMachine :
    IsMachine linked board space fresh machine (120 ∷ 80 ∷ []) (0 ∷ 150 ∷ []) (30 ∷ [])
board-IsMachine = record {
  bridge = board-IsHostBridge;
  masked = board-IsMasked;
  addresses = omega arith;
  gates = refl;
  no_wrap = omega arith;
  enough1 = omega arith;
  enough2 = omega arith;
  enough3 = omega arith;
}

power_on-AfterStart_example :
    (e : Entry) × IsEntered firmware kernel_elf screen memory e
    × (let r =
          start linked 5000 e.lfb e.font e.mem_info e.rsdp e.legacy_boot
            (120 ∷ 80 ∷ [])
            (0 ∷ 150 ∷ [])
            (30 ∷ [])
            (record machine { vmm = record (machine.vmm) { ram = e.ram } })
            board
            [] in
        (power_on firmware linked 5000
            (120 ∷ 80 ∷ [])
            (0 ∷ 150 ∷ [])
            (30 ∷ [])
            machine
            memory
            board
            []
          ≡ (in_kernel r.0, r.1))
        × AfterStart linked (machine.timer.ticks + 375) fresh fresh r)
power_on-AfterStart_example =
    power_on-AfterStart firmware kernel_elf zap_light 0x100 5000 screen memory (2 ∷ []) linked 5000
      (120 ∷ 80 ∷ []) (0 ∷ 150 ∷ []) (30 ∷ []) machine board space [] fresh fresh
      firmware-IsBootable refl (omega arith, tt) firmware-HasMap board-IsMachine

-- The user program is entered with its registers at zero.
abbrev zero_regs : SyscallRegArgs
zero_regs = record { r14 = 0; r13 = 0; r12 = 0; r11 = 0; r10 = 0 }

screen-HasSpace : HasSpace screen
screen-HasSpace = record {
  wide = omega arith;
  fits = omega arith;
  tall = omega arith;
  short = omega arith;
}

-- A pixel below the bar.
power_on-HasPixel_example :
    (e : Entry) × IsEntered firmware kernel_elf screen memory e
    × (r : Started × Trace) × ((power_on firmware linked 5000
              (120 ∷ 80 ∷ [])
              (0 ∷ 150 ∷ [])
              (30 ∷ [])
              machine
              memory
            >>= user linked zero_regs zero_regs)
          board []
        ≡ (in_kernel r.0, r.1))
    × AfterStart linked (machine.timer.ticks + 375) fresh fresh r
    × HasPixel screen 499 30 r.0
power_on-HasPixel_example =
    power_on-HasPixel firmware kernel_elf zap_light 0x100 5000 screen memory (2 ∷ []) linked 5000
      (120 ∷ 80 ∷ []) (0 ∷ 150 ∷ []) (30 ∷ []) machine board space [] fresh fresh zero_regs
      zero_regs 499 30 firmware-IsBootable refl (omega arith, tt) firmware-HasMap board-IsMachine
      screen-HasSpace (omega arith) (omega arith)

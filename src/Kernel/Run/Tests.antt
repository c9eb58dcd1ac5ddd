-- ===== src/Kernel/Run/Tests.antt =====
-- A machine with a pool of 4096 pages and a FADT, whose chips answer with their masks, and every PCI function is
-- an AHCI controller.
use kess_os.Base.{◌+◌, [], ◌∷◌, refl, arith}
use kess_os.Kernel.Sample.{
  linked, fresh, machine, info, info-HasMap, board, board-IsMasked, board-IsHostBridge,
}
use kess_os.Kernel.Run.{start}
use kess_os.Kernel.Run.Laws.{AfterStart, start-AfterStart}

-- The interrupts come in three bursts.
start-AfterStart_example : AfterStart linked (machine.timer.ticks + 375) fresh fresh (
    start linked 5000
      (machine.canvas.lfb)
      (machine.canvas.font)
      info
      0x9000
      0
      (120 ∷ 80 ∷ [])
      (0 ∷ 150 ∷ [])
      (30 ∷ [])
      machine
      board
      [])
start-AfterStart_example =
    start-AfterStart linked 5000 (machine.canvas.lfb) (machine.canvas.font) info 0x9000 0
      (120 ∷ 80 ∷ []) (0 ∷ 150 ∷ []) (30 ∷ []) machine board [] fresh fresh board-IsHostBridge
      board-IsMasked (omega arith) refl info-HasMap (omega arith) (omega arith) (omega arith)
      (omega arith)

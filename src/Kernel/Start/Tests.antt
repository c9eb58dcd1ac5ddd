-- ===== src/Kernel/Start/Tests.antt =====
-- A machine that starts.
use kess_os.Base.{◌==◌, if◌then◌else◌, refl, arith, []}
use kess_os.Arch.Io.{Device}
use kess_os.Arch.Pic.Chip.{master}
use kess_os.Kernel.Start.{init}
use kess_os.Kernel.Start.Steps.{IsMasked}
use kess_os.Kernel.Start.Laws.{AfterInit, init-AfterInit}
use kess_os.Kernel.Run.Ends.{Ends}
use kess_os.Kernel.Start.Stack.{HasLowStack, init-HasLowStack}
use kess_os.Kernel.Sample.{linked, fresh, machine, info, info-HasMap}

-- The data port of the master answers with its mask.
abbrev board : Device
board t port = if port == 0x21 then (master fresh t).mask else 0

board-IsMasked : IsMasked board fresh
board-IsMasked t = refl

init-AfterInit_example :
    AfterInit linked machine.timer fresh fresh (init linked 5000 info 0x9000 machine board [])
init-AfterInit_example =
    init-AfterInit linked 5000 info 0x9000 machine board [] fresh fresh (omega arith) refl
      board-IsMasked info-HasMap

init-HasLowStack_example : Ends HasLowStack (init linked 5000 info 0x9000 machine board []).0
init-HasLowStack_example = init-HasLowStack linked 5000 info 0x9000 machine board [] refl

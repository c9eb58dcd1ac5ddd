-- ===== src/Kernel/Dump/Tests.antt =====
-- An instance of the theorem on the dump.
use kess_os.Base.{ℕ, ◌≡◌, List, ◌++◌, some, inr, arith}
use kess_os.Ram.{Ram}
use kess_os.Util.Text.Reverse.{IsBytes}
use kess_os.Drivers.Video.Sample.{screen}
use kess_os.Drivers.Video.{Canvas}
use kess_os.Drivers.Video.Agree.{AreGlyphsOff}
use kess_os.Kernel.Log.Written.{OffBuffers, IsWritten}
use kess_os.Kernel.Dump.{ruler, heading, dump_stack}
use kess_os.Kernel.Dump.Laws.{Dumps, dump_stack-Dumps}

-- A negative `char` everywhere.
abbrev stack : Ram
stack x = 0x90

stack-IsBytes : IsBytes stack
stack-IsBytes x = omega arith

-- The glyphs are from 0x4800 to 0x5800.
glyphs_off : AreGlyphsOff (OffBuffers 0x100 0x200) screen.font
glyphs_off chr j h = ground arith

dump_stack-Dumps_example :
    (cs : List ℕ) × Dumps stack 5 0x10000 cs
    × (result : Canvas × Ram) × (dump_stack 0x100 0x200 0x10000 (screen, stack) ≡ some result)
    × IsWritten 0x100 0x200 0xFFFFFF (ruler ++ heading ++ cs ++ ruler) screen stack result
dump_stack-Dumps_example =
    dump_stack-Dumps 0x100 0x200 0x10000 screen stack stack-IsBytes glyphs_off
      (λ a lo hi. ((inr (omega arith), inr (omega arith)), omega arith))

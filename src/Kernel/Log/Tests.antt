-- ===== src/Kernel/Log/Tests.antt =====
-- Instances of the theorems on messages.
use kess_os.Base.{ℕ, ◌≡◌, ◌∷◌, [], ◌++◌, List, some, arith, codes}
use kess_os.Ram.{Ram}
use kess_os.Drivers.Video.Sample.{screen, zeros}
use kess_os.Drivers.Video.{Canvas}
use kess_os.Kernel.Log.{log, s_info, status_prefix, text, number, directive}
use kess_os.Kernel.Log.{Arg}
use kess_os.Util.Text.{dec2str}
use kess_os.Util.Text.Reverse.{IsBytes}
use kess_os.Drivers.Video.Agree.{AreGlyphsOff}
use kess_os.Kernel.Log.Renders.{Prints, Renders, Converted, IsDecimal, dec2str-IsDecimal}
use kess_os.Kernel.Log.Written.{OffBuffers, IsWritten}
use kess_os.Kernel.Log.Refines.{log-Renders}

abbrev hello : List ℕ
hello = b'H' ∷ b'i' ∷ 0x0A ∷ []

two_print : Prints (codes "%s: %d%%\n") (text hello ∷ number 7 ∷ [])
unfolding directive
two_print = (omega arith, (λ h. absurd (omega arith)), tt)

zeros-IsBytes : IsBytes zeros
zeros-IsBytes x = omega arith

abbrev args : List Arg
args = text hello ∷ number 7 ∷ []

-- The glyphs are from 0x4800 to 0x5800.
glyphs_off : AreGlyphsOff (OffBuffers 0x100 0x200) screen.font
glyphs_off chr j h = ground arith

-- -7 in two's complement.
dec2str-IsDecimal_example :
    (cs : List ℕ) × Converted zeros 100 cs (dec2str zeros 100 4294967289) × IsDecimal 4294967289 cs
dec2str-IsDecimal_example =
    dec2str-IsDecimal zeros 100 4294967289 zeros-IsBytes (omega arith) (λ h. absurd (omega arith))

log-Renders_example :
    (cs : List ℕ) × Renders (codes "%s: %d%%\n") args cs
    × (result : Canvas × Ram) × (log 0x100 0x200 (codes "%s: %d%%\n") s_info args (screen, zeros)
        ≡ some result)
    × IsWritten 0x100 0x200 0x00FF00 (status_prefix s_info ++ cs) screen zeros result
log-Renders_example =
    log-Renders 0x100 0x200 (codes "%s: %d%%\n") s_info args screen zeros two_print zeros-IsBytes
      glyphs_off

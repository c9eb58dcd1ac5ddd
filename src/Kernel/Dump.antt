-- ===== src/Kernel/Dump.antt =====
-- kernel/src/debug/impl/log.c: `dump_stack`. A `char` from 128 on is negative, and is passed as an
-- `int`; the address is passed as 64 bits and read as an `int`.
pub mod Laws
mod Tests
use kess_os.Base.{
  ℕ, zero, suc, ◌+◌, ◌-◌, ◌^◌, ltb, if◌then◌else◌, u32, List, [], ◌∷◌, Option, none, some,
}
use kess_os.Ram.{Ram}
use kess_os.Drivers.Video.{Canvas}
use kess_os.Kernel.Log.{log, s_other, number}

-- Twenty-nine dashes and the end of the line.
abbrev pub ruler : List ℕ
ruler = dashes 29
  where
    dashes : ℕ → List ℕ
    dashes zero = 0x0A ∷ []
    dashes (suc n) = b'-' ∷ dashes n

-- "ADDRESS         DATA\n".
abbrev pub heading : List ℕ
heading =
    b'A' ∷ b'D' ∷ b'D' ∷ b'R' ∷ b'E' ∷ b'S' ∷ b'S' ∷ 0x20 ∷ 0x20 ∷ 0x20 ∷ 0x20 ∷ 0x20 ∷ 0x20 ∷ 0x20
    ∷ 0x20 ∷ 0x20 ∷ b'D' ∷ b'A' ∷ b'T' ∷ b'A' ∷ 0x0A ∷ []

-- "%x => %x\n".
abbrev pub dump_format : List ℕ
dump_format = b'%' ∷ b'x' ∷ 0x20 ∷ b'=' ∷ 0x3E ∷ 0x20 ∷ b'%' ∷ b'x' ∷ 0x0A ∷ []

-- `*(char*)rsp` as an `int`.
abbrev pub signed_char : ℕ → ℕ
signed_char c = if ltb c 128 then c else 2 ^ 32 - 256 + c

module _ (dec_buf hex_buf : ℕ) where
  -- The loop, with `left` rounds to go.
  unfoldable pub dump_loop : (left rsp : ℕ) → Canvas × Ram → Option (Canvas × Ram)
  dump_loop zero rsp s = some s
  dump_loop (suc left) rsp s =
      elim (log dec_buf hex_buf dump_format s_other
        (number (u32 rsp) ∷ number (signed_char (s.1 rsp)) ∷ []) s) [
          | none ↦ none
          | some s' ↦ dump_loop left (rsp + 1) s'
        ]

  unfoldable pub dump_stack : (rsp : ℕ) → Canvas × Ram → Option (Canvas × Ram)
  unfolding dump_loop
  dump_stack rsp s = elim (log dec_buf hex_buf ruler s_other [] s) [
    | none ↦ none
    | some s1 ↦ elim (log dec_buf hex_buf heading s_other [] s1) [
      | none ↦ none
      | some s2 ↦ elim (dump_loop 5 rsp s2) [
        | none ↦ none
        | some s3 ↦ log dec_buf hex_buf ruler s_other [] s3
      ]
    ]
  ]

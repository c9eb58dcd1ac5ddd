-- ===== src/Util/Bytes/Tests.antt =====
-- Runs and instances of the memory helpers.
use kess_os.Base.{ℕ, ◌+◌, ◌<◌, ◌≤◌, ◌%◌, ◌⊎◌, inl, ◌≡◌, refl, arith}
use kess_os.Ram.{Ram, store8}
use kess_os.Util.Bytes.{memzero, memcpy}
use kess_os.Util.Bytes.Laws.{memcpy_lem}

-- Byte `x` holds `x`.
abbrev ramp : Ram
ramp x = x

zero_runs : memzero ramp 2 3 4 ≡ 0
unfolding memzero store8
zero_runs = refl

copy_runs : memcpy ramp 2 5 3 4 ≡ 7
unfolding memcpy store8
copy_runs = refl

-- The two areas overlap.
memcpy_lem_example :
    ((j : ℕ) → j < 3 → memcpy ramp 2 4 3 (2 + j) ≡ ramp (4 + j) % 256)
    × ((x : ℕ) → (x < 2) ⊎ (2 + 3 ≤ x) → memcpy ramp 2 4 3 x ≡ ramp x)
memcpy_lem_example = memcpy_lem ramp 2 4 3 (omega arith) (inl (omega arith))

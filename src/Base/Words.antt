-- ===== src/Base/Words.antt =====
-- `uint32_t` arithmetic and the cast to `int`.
use Prim.Native.Nat.{ℕ, ◌+◌, ◌-◌, ◌%◌}
use tabla_rusa_os.Base.Tests.{if◌then◌else◌, ltb}
use tabla_rusa_os.Base.Outcome.{Result, ok, err}

abbrev pub u32 : ℕ
u32 = 0x1_0000_0000

abbrev pub add32 : ℕ → ℕ → ℕ
add32 a b = (a + b) % u32

-- `(int)a`: the values from 2^31 on are negative.
abbrev pub as_int : ℕ → Result ℕ
as_int a = if ltb a 0x8000_0000 then ok a else err (u32 - a)

-- ===== src/Tests/Math.antt =====
-- Witnesses for the number theory of src/mathlib.c.
use Prim.Native.Nat.{◌∣◌}
use tabla_rusa_os.Base.{ℕ, ◌≡◌, ◌↔◌, ◌^◌, ◌%◌, some, arith}
use tabla_rusa_os.Math.Numbers.{magnitude, mod_i32, gcd_i32, modpow_i32}
use tabla_rusa_os.Math.Gcd.{gcd_i32-divides}
use tabla_rusa_os.Math.Powers.{modpow_i32-power}

-- The first argument is -12.
gcd_i32-divides_example :
    (g : ℕ) × (gcd_i32 0xffff_fff4 18 ≡ some g)
    × ((k : ℕ) → (k ∣ g) ↔ ((k ∣ magnitude 0xffff_fff4) × (k ∣ magnitude 18)))
gcd_i32-divides_example = gcd_i32-divides 0xffff_fff4 18 (omega arith) (omega arith)

modpow_i32-power_example : modpow_i32 7 560 561 ≡ some ((mod_i32 7 561 ^ 560) % 561)
modpow_i32-power_example = modpow_i32-power 7 560 561 (omega arith) (omega arith) (omega arith)

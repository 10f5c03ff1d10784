-- ===== src/Math/Gcd.antt =====
-- `gcd_i32` of src/mathlib.c is the greatest common divisor.
use Prim.Native.Nat.{◌∣◌}
use native.Mathlib.Nat.{dvd-zero, dvd-mod_iff}
use tabla_rusa_os.Base.{
  ℕ, zero, suc, ◌%◌, ◌≡◌, ◌≢◌, ◌<◌, ◌↔◌, refl, inl, inr, some, ◌==◌, Bool-cases, arith,
}
use tabla_rusa_os.Math.Numbers.{two31, magnitude, gcd_loop, gcd_i32}

-- With more rounds than the second value, the loop ends with a value that exactly the common
-- divisors divide.
gcd_loop-divides :
    (rounds x y : ℕ)
    → y < rounds
    → (g : ℕ) × (gcd_loop rounds x y ≡ some g) × ((k : ℕ) → (k ∣ g) ↔ ((k ∣ x) × (k ∣ y)))
unfolding gcd_loop
gcd_loop-divides zero x y h = absurd (omega arith)
gcd_loop-divides (suc rounds) x y h = elim (Bool-cases (y == 0)) [
  | inl q ↦
      let z : y ≡ 0 = ground arith in (x, rw q refl, λ k. (λ d. (d, rw z (dvd-zero k)), λ p. p.0))
  | inr q ↦
      let falls : x % y < y = ground arith in
      let (g, ends, common) = gcd_loop-divides rounds y (x % y) (omega arith) in
      (
        g,
        rw q ends,
        λ k. (
          λ d. let (dy, dr) = (common k).0 d in ((dvd-mod_iff k dy).0 dr, dy),
          λ p. (common k).1 (p.1, (dvd-mod_iff k (p.1)).1 (p.0)),
        ),
      )
]

-- For any two `int32_t` values but `INT32_MIN`, `gcd_i32` ends, and a number divides its result
-- exactly if it divides both arguments.
pub gcd_i32-divides :
    (a b : ℕ)
    → a ≢ two31
    → b ≢ two31
    → (g : ℕ) × (gcd_i32 a b ≡ some g)
      × ((k : ℕ) → (k ∣ g) ↔ ((k ∣ magnitude a) × (k ∣ magnitude b)))
unfolding gcd_i32
gcd_i32-divides a b na nb =
    let (g, ends, common) =
      gcd_loop-divides (suc (magnitude b)) (magnitude a) (magnitude b) (omega arith) in
    (g, ground (arith, ends), common)

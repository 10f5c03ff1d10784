-- ===== src/Math/Numbers.antt =====
-- The number theory of src/mathlib.c. An `int32_t` is its bit pattern, a number below 2^32.
use tabla_rusa_os.Base.{
  ℕ, zero, suc, ◌-◌, ◌*◌, ◌/◌, ◌%◌, Bool, not, ◌==◌, ◌&&◌, ◌||◌, if◌then◌else◌, leb, Option, none,
  some, u32, add32,
}

abbrev pub two31 : ℕ
two31 = 0x8000_0000

abbrev pub is_negative : ℕ → Bool
is_negative x = leb two31 x

-- The distance of an `int32_t` value from 0.
abbrev pub magnitude : ℕ → ℕ
magnitude x = if is_negative x then u32 - x else x

-- `none` for `INT32_MIN`, whose negation leaves `int32_t`, which the language leaves undefined.
abbrev pub abs_i32 : ℕ → Option ℕ
abs_i32 x = if x == two31 then none else some (magnitude x)

-- The loop of `gcd_i32` for that many rounds.
unfoldable pub gcd_loop : ℕ → ℕ → ℕ → Option ℕ
gcd_loop zero x y = none
gcd_loop (suc rounds) x y = let rest = gcd_loop rounds y (x % y) in if y == 0 then some x else rest

-- The second value falls in every round, so that more rounds than its value are enough.
unfoldable pub gcd_i32 : ℕ → ℕ → Option ℕ
unfolding gcd_loop
gcd_i32 a b = elim (abs_i32 a) [
  | none ↦ none
  | some x ↦ elim (abs_i32 b) [ none ↦ none | some y ↦ gcd_loop (suc y) x y ]
]

-- The remainder has the sign of `a`; a negative one gets the modulus added.
unfoldable pub mod_i32 : ℕ → ℕ → ℕ
mod_i32 a m =
    let r = magnitude a % magnitude m in
    if m == 0 then 0 else if is_negative a && not (r == 0) then add32 (u32 - r) m else r

-- `(a * b) % m` of numbers that are not negative: `none` where the product leaves `int32_t`, or
-- the modulus is 0, which the language leaves undefined.
abbrev pub mul_mod : ℕ → ℕ → ℕ → Option ℕ
mul_mod a b m = if (m == 0) || leb two31 (a * b) then none else some (a * b % m)

-- The loop of `modpow_i32` for that many rounds.
unfoldable pub modpow_loop : ℕ → ℕ → ℕ → ℕ → ℕ → Option ℕ
modpow_loop zero result base exp m = none
modpow_loop (suc rounds) result base exp m =
    let rest : Option ℕ = elim (if exp % 2 == 1 then mul_mod result base m else some result) [
      | none ↦ none
      | some r ↦ elim (mul_mod base base m) [
        | none ↦ none
        | some b ↦ modpow_loop rounds r b (exp / 2) m
      ]
    ] in
    if exp == 0 then some result else rest

-- For a modulus that is not negative. The exponent is halved in every round, and a negative one
-- has no round.
unfoldable pub modpow_i32 : ℕ → ℕ → ℕ → Option ℕ
unfolding modpow_loop mod_i32
modpow_i32 base exp m =
    if is_negative exp then some 1 else modpow_loop (suc exp) 1 (mod_i32 base m) exp m

-- The product of an `int32_t` and a number that is not negative: `none` where it leaves `int32_t`.
abbrev pub signed_product : ℕ → ℕ → Option ℕ
signed_product a x =
    if leb two31 (magnitude a * x)
    then none
    else some (if is_negative a then (u32 - magnitude a * x) % u32 else a * x)

-- The loop of `mod_inv` from `x` on, for that many rounds.
unfoldable pub inverse_loop : ℕ → ℕ → ℕ → ℕ → Option ℕ
unfolding mod_i32
inverse_loop zero x a m = some 0
inverse_loop (suc rounds) x a m =
    let rest = inverse_loop rounds (suc x) a m in
    elim (signed_product a x) [ none ↦ none | some p ↦ if mod_i32 p m == 1 then some x else rest ]

-- A modulus that is negative has no round.
unfoldable pub mod_inv : ℕ → ℕ → Option ℕ
unfolding inverse_loop
mod_inv a m = if is_negative m then some 0 else inverse_loop (m - 1) 1 a m

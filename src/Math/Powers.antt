-- ===== src/Math/Powers.antt =====
-- `modpow_i32` of src/mathlib.c is the power modulo the modulus.
use native.Mathlib.Nat.{
  pow-zero, pow-suc, mul_assoc, mul_comm, mul-one, one-mul, add-mul, mod-add-div,
  add-mul-mod_self_left, mod-lt, mod-eq_of_lt, mul-le-mul, le_refl, le_of_lt, suc-mul,
}
use tabla_rusa_os.Base.{
  ℕ, zero, suc, ◌+◌, ◌-◌, ◌*◌, ◌/◌, ◌%◌, ◌^◌, ◌≡◌, ◌<◌, ◌≤◌, refl, sym, ap, ◌∙◌, inl, inr, some,
  false, ◌==◌, leb, Bool-cases, arith, u32, add32, not, ◌&&◌,
}
use tabla_rusa_os.Math.Numbers.{
  two31, is_negative, magnitude, mod_i32, mul_mod, modpow_loop, modpow_i32,
}

-- A factor can be reduced first.
mul-mod_left : (a b m : ℕ) → (a % m * b) % m ≡ (a * b) % m
mul-mod_left a b m =
    sym (add-mul-mod_self_left (a % m * b) m (a / m * b))
    ∙ ap (λ t. (a % m * b + t) % m) (sym (mul_assoc m (a / m) b))
    ∙ ap (λ t. t % m) (sym (add-mul (a % m) (m * (a / m)) b))
    ∙ ap (λ t. (t * b) % m) (mod-add-div a m)

mul-mod_right : (a b m : ℕ) → (a * (b % m)) % m ≡ (a * b) % m
mul-mod_right a b m =
    ap (λ t. t % m) (mul_comm a (b % m)) ∙ mul-mod_left b a m ∙ ap (λ t. t % m) (mul_comm b a)

pow-square : (b k : ℕ) → (b * b) ^ k ≡ b ^ (k + k)
pow-square b zero = pow-zero (b * b) ∙ sym (pow-zero b)
pow-square b (suc k) =
    let e : suc k + suc k ≡ suc (suc (k + k)) = omega arith in
    pow-suc (b * b) k
    ∙ ap (λ t. t * (b * b)) (pow-square b k)
    ∙ sym (mul_assoc (b ^ (k + k)) b b)
    ∙ ap (λ t. t * b) (sym (pow-suc b (k + k)))
    ∙ sym (pow-suc b (suc (k + k)))
    ∙ ap (λ t. b ^ t) (sym e)

pow-mod : (a k m : ℕ) → ((a % m) ^ k) % m ≡ (a ^ k) % m
pow-mod a zero m = ap (λ t. t % m) (pow-zero (a % m) ∙ sym (pow-zero a))
pow-mod a (suc k) m =
    ap (λ t. t % m) (pow-suc (a % m) k)
    ∙ sym (mul-mod_left ((a % m) ^ k) (a % m) m)
    ∙ ap (λ t. (t * (a % m)) % m) (pow-mod a k m)
    ∙ mul-mod_left (a ^ k) (a % m) m
    ∙ mul-mod_right (a ^ k) a m
    ∙ ap (λ t. t % m) (sym (pow-suc a k))

-- Two reduced factors have a product in range.
product-fits : (a b m : ℕ) → a < m → b < m → m * m ≤ two31 → a * b < two31
product-fits a b m ha hb h =
    let below : suc a * m ≤ m * m = mul-le-mul ha (le_refl m) in
    let rest : a * b ≤ a * m = mul-le-mul (le_refl a) (le_of_lt hb) in
    let e = suc-mul a m in omega arith

mul_mod-fits : (a b m : ℕ) → a < m → b < m → m * m ≤ two31 → mul_mod a b m ≡ some (a * b % m)
mul_mod-fits a b m ha hb h =
    let fits = product-fits a b m ha hb h in
    let positive : (m == 0) ≡ false = ground arith in
    let p : leb two31 (a * b) ≡ false = ground arith in rw (positive, p) refl

-- One round keeps the product of the result and the power.
even-step : (r b k m : ℕ) → (r * ((b * b % m) ^ k)) % m ≡ (r * b ^ (k + k)) % m
even-step r b k m =
    sym (mul-mod_right r ((b * b % m) ^ k) m)
    ∙ ap (λ t. (r * t) % m) (pow-mod (b * b) k m)
    ∙ mul-mod_right r ((b * b) ^ k) m
    ∙ ap (λ t. (r * t) % m) (pow-square b k)

odd-step : (r b k m : ℕ) → (r * b % m * ((b * b % m) ^ k)) % m ≡ (r * b ^ suc (k + k)) % m
odd-step r b k m =
    mul-mod_left (r * b) ((b * b % m) ^ k) m
    ∙ even-step (r * b) b k m
    ∙ ap (λ t. t % m)
        (mul_assoc r b (b ^ (k + k))
          ∙ ap (λ t. r * t) (mul_comm b (b ^ (k + k)) ∙ sym (pow-suc b (k + k))))

modpow_loop-power :
    (rounds r b e m : ℕ)
    → e < rounds
    → r < m
    → b < m
    → m * m ≤ two31
    → modpow_loop rounds r b e m ≡ some ((r * b ^ e) % m)
unfolding modpow_loop
modpow_loop-power zero r b e m he hr hb h = absurd (omega arith)
modpow_loop-power (suc rounds) r b e m he hr hb h = elim (Bool-cases (e == 0)) [
  | inl q ↦
      let z : e ≡ 0 = ground arith in
      let value : (r * b ^ 0) % m ≡ r =
        ap (λ t. (r * t) % m) (pow-zero b) ∙ ap (λ t. t % m) (mul-one r) ∙ mod-eq_of_lt hr in
      rw (z, value) refl
  | inr q ↦
      let k = e / 2 in
      let square = mul_mod-fits b b m hb hb h in
      let lt : b * b % m < m = mod-lt (b * b) (omega arith) in
      elim (Bool-cases (e % 2 == 1)) [
        | inl odd ↦
            let times = mul_mod-fits r b m hr hb h in
            let at : e ≡ suc (k + k) = ground arith in
            rw (q, odd, times, square)
              (modpow_loop-power rounds (r * b % m) (b * b % m) k m (ground arith)
                  (mod-lt (r * b) (omega arith)) lt h
                ∙ ap some (odd-step r b k m ∙ ap (λ t. (r * b ^ t) % m) (sym at)))
        | inr even ↦
            let at : e ≡ k + k = ground arith in
            rw (q, even, square)
              (modpow_loop-power rounds r (b * b % m) k m (ground arith) hr lt h
                ∙ ap some (even-step r b k m ∙ ap (λ t. (r * b ^ t) % m) (sym at)))
      ]
]

-- A negative remainder with the modulus added.
wrapped-lt : (r m : ℕ) → 0 < r → r < m → m < two31 → add32 (u32 - r) m < m
wrapped-lt r m p h l = omega arith

mod_i32-lt : (a m : ℕ) → 0 < m → m < two31 → mod_i32 a m < m
unfolding mod_i32
mod_i32-lt a m h l =
    let r = magnitude a % m in
    let rest : r < m = mod-lt (magnitude a) h in
    let positive : (m == 0) ≡ false = ground arith in
    let sign : is_negative m ≡ false = ground arith in
    elim (Bool-cases (is_negative a && not (r == 0))) [
      | inl q ↦ rw (positive, sign, q) (wrapped-lt r m (ground arith) rest l)
      | inr q ↦ rw (positive, sign, q) rest
    ]

-- For a modulus from 2 to 46340, a base of either sign and an exponent that is not negative,
-- `modpow_i32` ends without overflow, with the power of the reduced base modulo the modulus.
pub modpow_i32-power :
    (base exp m : ℕ)
    → exp < two31
    → 2 ≤ m
    → m * m ≤ two31
    → modpow_i32 base exp m ≡ some ((mod_i32 base m ^ exp) % m)
unfolding modpow_i32
modpow_i32-power base exp m he low h =
    let p : is_negative exp ≡ false = ground arith in
    let double : m * 2 ≤ m * m = mul-le-mul (le_refl m) low in
    let small : m < two31 = omega arith in
    rw p (
      modpow_loop-power (suc exp) 1 (mod_i32 base m) exp m (omega arith) (omega arith)
        (mod_i32-lt base m (omega arith) small) h
      ∙ ap (λ t. some (t % m)) (one-mul (mod_i32 base m ^ exp)))

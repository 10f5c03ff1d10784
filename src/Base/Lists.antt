-- ===== src/Base/Lists.antt =====
-- C arrays as lists measured and indexed by native numbers.
use Prim.Native.Nat.{ℕ, zero, suc, ◌+◌, ◌<◌, ◌≤◌, min}
use mathlib.Core.Path.{◌≡◌, refl, ap}
use mathlib.Core.Logic.{◌≢◌, ◌⊎◌, inl, inr}
use mathlib.Core.List.{List, [], ◌∷◌, ◌++◌}
use native.Mathlib.Omega.{arith}

module _ {ℓ} {A : Type ℓ} where
  abbrev pub length : List A → ℕ
  length [] = 0
  length (x ∷ xs) = suc (length xs)

  abbrev pub get_or : List A → ℕ → A → A
  get_or [] i d = d
  get_or (x ∷ xs) zero d = x
  get_or (x ∷ xs) (suc i) d = get_or xs i d

  -- A write out of bounds changes nothing; the invariants rule it out.
  abbrev pub set : List A → ℕ → A → List A
  set [] i v = []
  set (x ∷ xs) zero v = v ∷ xs
  set (x ∷ xs) (suc i) v = x ∷ set xs i v

  -- `xs[i] = f(xs[i])`
  abbrev pub modify : (A → A) → ℕ → List A → List A
  modify f i [] = []
  modify f zero (x ∷ xs) = f x ∷ xs
  modify f (suc i) (x ∷ xs) = x ∷ modify f i xs

  abbrev pub take : ℕ → List A → List A
  take zero xs = []
  take (suc n) [] = []
  take (suc n) (x ∷ xs) = x ∷ take n xs

  abbrev pub drop : ℕ → List A → List A
  drop zero xs = xs
  drop (suc n) [] = []
  drop (suc n) (x ∷ xs) = drop n xs

  abbrev pub replicate : ℕ → A → List A
  replicate zero a = []
  replicate (suc n) a = a ∷ replicate n a

  pub length-append : (xs ys : List A) → length (xs ++ ys) ≡ length xs + length ys
  length-append [] ys = omega arith
  length-append (x ∷ xs) ys = omega (arith, length-append xs ys)

  pub length-set : (xs : List A) (i : ℕ) (v : A) → length (set xs i v) ≡ length xs
  length-set [] i v = refl
  length-set (x ∷ xs) zero v = refl
  length-set (x ∷ xs) (suc i) v = ap suc (length-set xs i v)

  pub length-take : (n : ℕ) (xs : List A) → length (take n xs) ≡ min n (length xs)
  length-take zero xs = omega arith
  length-take (suc n) [] = omega arith
  length-take (suc n) (x ∷ xs) = omega (arith, length-take n xs)

  pub length-replicate : (n : ℕ) (a : A) → length (replicate n a) ≡ n
  length-replicate zero a = refl
  length-replicate (suc n) a = ap suc (length-replicate n a)

  pub take_all : (n : ℕ) (xs : List A) → length xs ≤ n → take n xs ≡ xs
  take_all zero [] h = refl
  take_all zero (x ∷ xs) h = absurd (omega arith)
  take_all (suc n) [] h = refl
  take_all (suc n) (x ∷ xs) h = ap (λ t. x ∷ t) (take_all n xs (omega arith))

  pub get_or-set_self :
      (xs : List A) (i : ℕ) (v d : A) → i < length xs → get_or (set xs i v) i d ≡ v
  get_or-set_self [] i v d h = absurd (omega arith)
  get_or-set_self (x ∷ xs) zero v d h = refl
  get_or-set_self (x ∷ xs) (suc i) v d h = get_or-set_self xs i v d (omega arith)

  pub get_or-set_ne :
      (xs : List A) (i j : ℕ) (v d : A) → i ≢ j → get_or (set xs i v) j d ≡ get_or xs j d
  get_or-set_ne [] i j v d h = refl
  get_or-set_ne (x ∷ xs) zero zero v d h = absurd (h refl)
  get_or-set_ne (x ∷ xs) zero (suc j) v d h = refl
  get_or-set_ne (x ∷ xs) (suc i) zero v d h = refl
  get_or-set_ne (x ∷ xs) (suc i) (suc j) v d h = get_or-set_ne xs i j v d (λ e. h (ap suc e))

  pub get_or-past : (xs : List A) (i : ℕ) (d : A) → length xs ≤ i → get_or xs i d ≡ d
  get_or-past [] i d h = refl
  get_or-past (x ∷ xs) zero d h = absurd (omega arith)
  get_or-past (x ∷ xs) (suc i) d h = get_or-past xs i d (omega arith)

  pub get_or-replicate : (n i : ℕ) (a : A) → get_or (replicate n a) i a ≡ a
  get_or-replicate zero i a = refl
  get_or-replicate (suc n) zero a = refl
  get_or-replicate (suc n) (suc i) a = get_or-replicate n i a

  pub length-modify : (f : A → A) (i : ℕ) (xs : List A) → length (modify f i xs) ≡ length xs
  length-modify f i [] = refl
  length-modify f zero (x ∷ xs) = refl
  length-modify f (suc i) (x ∷ xs) = ap suc (length-modify f i xs)

  pub get_or-modify_self :
      (f : A → A) (i : ℕ) (xs : List A) (d : A)
      → i < length xs
      → get_or (modify f i xs) i d ≡ f (get_or xs i d)
  get_or-modify_self f i [] d h = absurd (omega arith)
  get_or-modify_self f zero (x ∷ xs) d h = refl
  get_or-modify_self f (suc i) (x ∷ xs) d h = get_or-modify_self f i xs d (omega arith)

  pub get_or-modify_ne :
      (f : A → A) (i j : ℕ) (xs : List A) (d : A)
      → i ≢ j
      → get_or (modify f i xs) j d ≡ get_or xs j d
  get_or-modify_ne f i j [] d h = refl
  get_or-modify_ne f zero zero (x ∷ xs) d h = absurd (h refl)
  get_or-modify_ne f zero (suc j) (x ∷ xs) d h = refl
  get_or-modify_ne f (suc i) zero (x ∷ xs) d h = refl
  get_or-modify_ne f (suc i) (suc j) (x ∷ xs) d h = get_or-modify_ne f i j xs d (λ e. h (ap suc e))

  -- A change in place is a write of the changed value.
  pub modify-eq-set :
      (f : A → A) (i : ℕ) (xs : List A) (d : A) → modify f i xs ≡ set xs i (f (get_or xs i d))
  modify-eq-set f i [] d = refl
  modify-eq-set f zero (x ∷ xs) d = refl
  modify-eq-set f (suc i) (x ∷ xs) d = ap (λ t. x ∷ t) (modify-eq-set f i xs d)

  pub modify-modify :
      (f g : A → A) (i : ℕ) (xs : List A) → modify f i (modify g i xs) ≡ modify (λ x. f (g x)) i xs
  modify-modify f g i [] = refl
  modify-modify f g zero (x ∷ xs) = refl
  modify-modify f g (suc i) (x ∷ xs) = ap (λ t. x ∷ t) (modify-modify f g i xs)

  -- An entry after a change in place is as before, or it is the changed one.
  pub modify-cases :
      (f : A → A) (i j : ℕ) (xs : List A) (d : A)
      → (get_or (modify f i xs) j d ≡ get_or xs j d)
        ⊎ ((i ≡ j) × (get_or (modify f i xs) j d ≡ f (get_or xs i d)))
  modify-cases f i j [] d = inl refl
  modify-cases f zero zero (x ∷ xs) d = inr (refl, refl)
  modify-cases f zero (suc j) (x ∷ xs) d = inl refl
  modify-cases f (suc i) zero (x ∷ xs) d = inl refl
  modify-cases f (suc i) (suc j) (x ∷ xs) d = elim (modify-cases f i j xs d) [
    | inl e ↦ inl e
    | inr (e, g) ↦ inr (ap suc e, g)
  ]

  -- A change in place shows in no field that the change keeps.
  pub modify-field {ℓ'} :
      {B : Type ℓ'} (g : A → B) (f : A → A) (i j : ℕ) (xs : List A) (d : A)
      → ((x : A) → g (f x) ≡ g x)
      → g (get_or (modify f i xs) j d) ≡ g (get_or xs j d)
  modify-field g f i j [] d h = refl
  modify-field g f zero zero (x ∷ xs) d h = h x
  modify-field g f zero (suc j) (x ∷ xs) d h = refl
  modify-field g f (suc i) zero (x ∷ xs) d h = refl
  modify-field g f (suc i) (suc j) (x ∷ xs) d h = modify-field g f i j xs d h

-- ===== src/Base/Find.antt =====
-- The table scans `for(i = 0; i < MAX; i++) if(test(table[i])) return i;` and counts.
use Prim.Native.Nat.{ℕ, zero, suc, ◌<◌, ◌≤◌}
use mathlib.Core.Path.{◌≡◌, refl}
use mathlib.Core.Logic.{inl, inr}
use mathlib.Core.Bool.{Bool, true, false}
use mathlib.Core.Option.{Option, none, some}
use mathlib.Core.List.{List, [], ◌∷◌}
use native.Mathlib.Omega.{arith}
use tabla_rusa_os.Base.Tests.{if◌then◌else◌, Bool-cases}
use tabla_rusa_os.Base.Lists.{length, get_or, set, modify, modify-eq-set}

abbrev pub shift : Option ℕ → Option ℕ
shift none = none
shift (some i) = some (suc i)

module _ {ℓ} {A : Type ℓ} (p : A → Bool) where
  -- The index of the first entry that passes the test.
  unfoldable pub find_index : List A → Option ℕ
  find_index [] = none
  find_index (x ∷ xs) = let rest = find_index xs in if p x then some 0 else shift rest

  unfoldable pub count_if : List A → ℕ
  count_if [] = 0
  count_if (x ∷ xs) = if p x then suc (count_if xs) else count_if xs

  pub find_index-lt : (xs : List A) (i : ℕ) → find_index xs ≡ some i → i < length xs
  unfolding find_index
  find_index-lt [] i e = cc
  find_index-lt (x ∷ xs) zero e = omega arith
  find_index-lt (x ∷ xs) (suc i) e = ground (arith, find_index-lt xs i)

  pub find_index-holds :
      (xs : List A) (i : ℕ) (d : A) → find_index xs ≡ some i → p (get_or xs i d) ≡ true
  unfolding find_index
  find_index-holds [] i d e = cc
  find_index-holds (x ∷ xs) zero d e = ground arith
  find_index-holds (x ∷ xs) (suc i) d e = ground (arith, find_index-holds xs i d)

  pub find_index-none :
      (xs : List A) (i : ℕ) (d : A)
      → find_index xs ≡ none
      → i < length xs
      → p (get_or xs i d) ≡ false
  unfolding find_index
  find_index-none [] i d e h = absurd (omega arith)
  find_index-none (x ∷ xs) zero d e h = ground arith
  find_index-none (x ∷ xs) (suc i) d e h = ground (arith, find_index-none xs i d)

  -- No entry before the one found passes.
  pub find_index-first :
      (xs : List A) (i j : ℕ) (d : A) → find_index xs ≡ some i → j < i → p (get_or xs j d) ≡ false
  unfolding find_index
  find_index-first [] i j d e h = cc
  find_index-first (x ∷ xs) zero j d e h = absurd (omega arith)
  find_index-first (x ∷ xs) (suc i) zero d e h = ground arith
  find_index-first (x ∷ xs) (suc i) (suc j) d e h = ground (arith, find_index-first xs i j d)

  -- The first entry that passes is found: nothing before it passes.
  pub find_index-some :
      (xs : List A) (i : ℕ) (d : A)
      → i < length xs
      → p (get_or xs i d) ≡ true
      → ((j : ℕ) → j < i → p (get_or xs j d) ≡ false)
      → find_index xs ≡ some i
  unfolding find_index
  find_index-some [] i d h e f = absurd (omega arith)
  find_index-some (x ∷ xs) zero d h e f = ground arith
  find_index-some (x ∷ xs) (suc i) d h e f =
      ground (arith, f 0, find_index-some xs i d (omega arith) e (λ j k. f (suc j) (omega arith)))

  -- A hit that a table has, it finds.
  pub find_index-total :
      (xs : List A) (i : ℕ) (d : A)
      → i < length xs
      → p (get_or xs i d) ≡ true
      → (k : ℕ) × (find_index xs ≡ some k)
  unfolding find_index
  find_index-total [] i d h e = absurd (omega arith)
  find_index-total (x ∷ xs) zero d h e = (0, ground arith)
  find_index-total (x ∷ xs) (suc i) d h e =
      let (k, f) = find_index-total xs i d (omega arith) e in
      elim (Bool-cases (p x)) [ inl q ↦ (0, ground arith) | inr q ↦ (suc k, ground arith) ]

  -- A write of the only hit makes it the one found.
  pub find_index-set_new :
      (xs : List A) (i : ℕ) (v : A)
      → find_index xs ≡ none
      → i < length xs
      → p v ≡ true
      → find_index (set xs i v) ≡ some i
  unfolding find_index
  find_index-set_new [] i v e h q = absurd (omega arith)
  find_index-set_new (x ∷ xs) zero v e h q = rw q
  find_index-set_new (x ∷ xs) (suc i) v e h q = ground (arith, find_index-set_new xs i v)

  -- A write that the test answers alike before and after changes no search.
  pub find_index-set :
      (xs : List A) (i : ℕ) (v d : A)
      → p (get_or xs i d) ≡ p v
      → find_index (set xs i v) ≡ find_index xs
  unfolding find_index
  find_index-set [] i v d e = refl
  find_index-set (x ∷ xs) zero v d e = rw e
  find_index-set (x ∷ xs) (suc i) v d e = rw (find_index-set xs i v d e)

  pub count_if-le : (xs : List A) → count_if xs ≤ length xs
  unfolding count_if
  count_if-le [] = omega arith
  count_if-le (x ∷ xs) = ground (arith, count_if-le xs)

  pub count_if-set_gain :
      (xs : List A) (i : ℕ) (v d : A)
      → i < length xs
      → p (get_or xs i d) ≡ false
      → p v ≡ true
      → count_if (set xs i v) ≡ suc (count_if xs)
  unfolding count_if
  count_if-set_gain [] i v d h e f = absurd (omega arith)
  count_if-set_gain (x ∷ xs) zero v d h e f = ground arith
  count_if-set_gain (x ∷ xs) (suc i) v d h e f = ground (arith, count_if-set_gain xs i v d)

  pub count_if-set_same :
      (xs : List A) (i : ℕ) (v d : A)
      → p (get_or xs i d) ≡ p v
      → count_if (set xs i v) ≡ count_if xs
  unfolding count_if
  count_if-set_same [] i v d e = refl
  count_if-set_same (x ∷ xs) zero v d e = rw e
  count_if-set_same (x ∷ xs) (suc i) v d e = rw (count_if-set_same xs i v d e)

  pub find_index-modify_new :
      (f : A → A) (i : ℕ) (xs : List A) (d : A)
      → find_index xs ≡ none
      → i < length xs
      → p (f (get_or xs i d)) ≡ true
      → find_index (modify f i xs) ≡ some i
  find_index-modify_new f i xs d e h q =
      rw (modify-eq-set f i xs d) (find_index-set_new xs i (f (get_or xs i d)) e h q)

  pub find_index-modify :
      (f : A → A) (i : ℕ) (xs : List A) (d : A)
      → p (get_or xs i d) ≡ p (f (get_or xs i d))
      → find_index (modify f i xs) ≡ find_index xs
  find_index-modify f i xs d e =
      rw (modify-eq-set f i xs d) (find_index-set xs i (f (get_or xs i d)) d e)

  -- If no entry passes, the scan finds none.
  pub find_index-all_false :
      (xs : List A) (d : A)
      → ((i : ℕ) → i < length xs → p (get_or xs i d) ≡ false)
      → find_index xs ≡ none
  unfolding find_index
  find_index-all_false [] d h = refl
  find_index-all_false (x ∷ xs) d h =
      ground (arith, h 0, find_index-all_false xs d (λ i k. h (suc i) (omega arith)))

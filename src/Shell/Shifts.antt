-- ===== src/Shell/Shifts.antt =====
-- The cells of an array of src/shell.c after a loop that shifts, and the string it holds.
use tabla_rusa_os.Base.{
  ℕ, zero, suc, ◌+◌, ◌-◌, ◌≡◌, ◌≢◌, ◌<◌, ◌≤◌, ◌⊎◌, refl, ◌∙◌, inl, inr, List, [], ◌∷◌, ◌++◌, ◌==◌,
  ltb, Bool-cases, set, take, drop, length, get_or-set_self, get_or-set_ne, length-set, arith,
}
use tabla_rusa_os.Shell.Buffer.{cell, str_len, shift_right, shift_left}

pub str_len-nonzero : (xs : List ℕ) (j : ℕ) → j < str_len xs → cell xs j ≢ 0
unfolding str_len
str_len-nonzero [] j h = absurd (omega arith)
str_len-nonzero (x ∷ xs) zero h = elim (Bool-cases (x == 0)) [
  | inl q ↦ absurd (ground arith)
  | inr q ↦ λ e. ground arith
]
str_len-nonzero (x ∷ xs) (suc j) h = elim (Bool-cases (x == 0)) [
  | inl q ↦ absurd (ground arith)
  | inr q ↦ str_len-nonzero xs j (ground arith)
]

pub str_len-zero : (xs : List ℕ) → cell xs (str_len xs) ≡ 0
unfolding str_len
str_len-zero [] = refl
str_len-zero (x ∷ xs) = elim (Bool-cases (x == 0)) [
  | inl q ↦ rw q (ground arith)
  | inr q ↦ rw q (str_len-zero xs)
]

-- The length is the index of the first zero byte.
pub str_len_unique :
    (xs : List ℕ) (n : ℕ) → cell xs n ≡ 0 → ((j : ℕ) → j < n → cell xs j ≢ 0) → str_len xs ≡ n
unfolding str_len
str_len_unique [] zero e h = refl
str_len_unique [] (suc n) e h = absurd (h 0 (omega arith) refl)
str_len_unique (x ∷ xs) zero e h = ground arith
str_len_unique (x ∷ xs) (suc n) e h =
    ground (arith, h 0, str_len_unique xs n e (λ j k. h (suc j) (omega arith)))

pub cells-ext :
    (xs ys : List ℕ)
    → length xs ≡ length ys
    → ((j : ℕ) → j < length xs → cell xs j ≡ cell ys j)
    → xs ≡ ys
cells-ext [] [] e h = refl
cells-ext [] (y ∷ ys) e h = absurd (omega arith)
cells-ext (x ∷ xs) [] e h = absurd (omega arith)
cells-ext (x ∷ xs) (y ∷ ys) e h =
    let rest = cells-ext xs ys (omega arith) (λ j k. h (suc j) (omega arith)) in
    let first : x ≡ y = h 0 (omega arith) in rw (first, rest) refl

pub cell-take : (n j : ℕ) (xs : List ℕ) → j < n → cell (take n xs) j ≡ cell xs j
cell-take zero j xs h = absurd (omega arith)
cell-take (suc n) j [] h = refl
cell-take (suc n) zero (x ∷ xs) h = refl
cell-take (suc n) (suc j) (x ∷ xs) h = cell-take n j xs (omega arith)

pub cell-drop : (n j : ℕ) (xs : List ℕ) → cell (drop n xs) j ≡ cell xs (n + j)
cell-drop zero j xs = let e : 0 + j ≡ j = omega arith in rw e refl
cell-drop (suc n) j [] = refl
cell-drop (suc n) j (x ∷ xs) =
    let e : suc n + j ≡ suc (n + j) = omega arith in rw e (cell-drop n j xs)

pub cell-append_left : (xs ys : List ℕ) (j : ℕ) → j < length xs → cell (xs ++ ys) j ≡ cell xs j
cell-append_left [] ys j h = absurd (omega arith)
cell-append_left (x ∷ xs) ys zero h = refl
cell-append_left (x ∷ xs) ys (suc j) h = cell-append_left xs ys j (omega arith)

pub cell-append_right :
    (xs ys : List ℕ) (j : ℕ) → length xs ≤ j → cell (xs ++ ys) j ≡ cell ys (j - length xs)
cell-append_right [] ys j h = let e : j - 0 ≡ j = omega arith in rw e refl
cell-append_right (x ∷ xs) ys zero h = absurd (omega arith)
cell-append_right (x ∷ xs) ys (suc j) h =
    let e : suc j - suc (length xs) ≡ j - length xs = omega arith in
    rw e (cell-append_right xs ys j (omega arith))

pub length-shift_right : (r i : ℕ) (xs : List ℕ) → length (shift_right r i xs) ≡ length xs
unfolding shift_right
length-shift_right zero i xs = refl
length-shift_right (suc r) i xs = length-shift_right r (i - 1) _ ∙ length-set xs i (cell xs (i - 1))

pub length-shift_left : (r i : ℕ) (xs : List ℕ) → length (shift_left r i xs) ≡ length xs
unfolding shift_left
length-shift_left zero i xs = refl
length-shift_left (suc r) i xs = length-shift_left r (suc i) _ ∙ length-set xs i (cell xs (suc i))

pub shift_right-kept :
    (r i j : ℕ) (xs : List ℕ) → (j + r ≤ i) ⊎ (i < j) → cell (shift_right r i xs) j ≡ cell xs j
unfolding shift_right
shift_right-kept zero i j xs h = refl
shift_right-kept (suc r) i j xs h =
    shift_right-kept r (i - 1) j (set xs i (cell xs (i - 1)))
      (elim h [ inl a ↦ inl (omega arith) | inr a ↦ inr (omega arith) ])
    ∙ get_or-set_ne xs i j (cell xs (i - 1)) 0
        (elim h [ inl a ↦ λ e. omega arith | inr a ↦ λ e. omega arith ])

-- Every cell of the range has what its left neighbour had.
pub shift_right-moved :
    (r i j : ℕ) (xs : List ℕ)
    → i < length xs
    → r ≤ i
    → i < j + r
    → j ≤ i
    → cell (shift_right r i xs) j ≡ cell xs (j - 1)
unfolding shift_right
shift_right-moved zero i j xs l b h k = absurd (omega arith)
shift_right-moved (suc r) i j xs l b h k =
    let ys : List ℕ = set xs i (cell xs (i - 1)) in
    elim (Bool-cases (ltb j i)) [
      | inl q ↦
          shift_right-moved r (i - 1) j ys
            (let e = length-set xs i (cell xs (i - 1)) in omega arith) (omega arith) (ground arith)
            (ground arith)
          ∙ get_or-set_ne xs i (j - 1) (cell xs (i - 1)) 0 (λ e. ground arith)
      | inr q ↦
          let e : j ≡ i = ground arith in
          rw e (
            shift_right-kept r (i - 1) i ys (inr (omega arith))
            ∙ get_or-set_self xs i (cell xs (i - 1)) 0 l)
    ]

pub shift_left-kept :
    (r i j : ℕ) (xs : List ℕ) → (j < i) ⊎ (i + r ≤ j) → cell (shift_left r i xs) j ≡ cell xs j
unfolding shift_left
shift_left-kept zero i j xs h = refl
shift_left-kept (suc r) i j xs h =
    shift_left-kept r (suc i) j (set xs i (cell xs (suc i)))
      (elim h [ inl a ↦ inl (omega arith) | inr a ↦ inr (omega arith) ])
    ∙ get_or-set_ne xs i j (cell xs (suc i)) 0
        (elim h [ inl a ↦ λ e. omega arith | inr a ↦ λ e. omega arith ])

-- Every cell of the range has what its right neighbour had.
pub shift_left-moved :
    (r i j : ℕ) (xs : List ℕ)
    → i + r ≤ length xs
    → i ≤ j
    → j < i + r
    → cell (shift_left r i xs) j ≡ cell xs (suc j)
unfolding shift_left
shift_left-moved zero i j xs l h k = absurd (omega arith)
shift_left-moved (suc r) i j xs l h k =
    let ys : List ℕ = set xs i (cell xs (suc i)) in
    elim (Bool-cases (ltb i j)) [
      | inl q ↦
          shift_left-moved r (suc i) j ys (let e = length-set xs i (cell xs (suc i)) in omega arith)
            (ground arith) (omega arith)
          ∙ get_or-set_ne xs i (suc j) (cell xs (suc i)) 0 (λ e. ground arith)
      | inr q ↦
          let e : j ≡ i = ground arith in
          rw e (
            shift_left-kept r (suc i) i ys (inl (omega arith))
            ∙ get_or-set_self xs i (cell xs (suc i)) 0 (omega arith))
    ]

-- ===== src/Shell/Strings.antt =====
-- Inserting a character into the string of an array, as src/shell.c does, and taking one out.
use tabla_rusa_os.Base.{
  ℕ, zero, suc, ◌+◌, ◌-◌, ◌≡◌, ◌≢◌, ◌<◌, ◌≤◌, sym, ap, ◌∙◌, inl, inr, List, [], ◌∷◌, ◌++◌, Text,
  ◌==◌, ltb, Bool-cases, set, take, drop, length, get_or-set_self, get_or-set_ne, length-set,
  length-take, length-append, arith,
}
use tabla_rusa_os.Shell.Buffer.{cell, str_len, c_string, shift_right, shift_left}
use tabla_rusa_os.Shell.Line.{without}
use tabla_rusa_os.Shell.Shifts.{
  str_len_unique, cells-ext, cell-take, cell-drop, cell-append_left, cell-append_right,
  length-shift_right, length-shift_left, shift_right-kept, shift_right-moved, shift_left-kept,
  shift_left-moved,
}

pub length-drop : (n : ℕ) (xs : List ℕ) → length (drop n xs) ≡ length xs - n
length-drop zero xs = omega arith
length-drop (suc n) [] = omega arith
length-drop (suc n) (x ∷ xs) = omega (arith, length-drop n xs)

-- The cells are those of the text, none is 0, and a zero byte follows.
pub record Holds (xs : List ℕ) (t : Text) : Type 0 where
  pub room : length t < length xs
  pub cells : (j : ℕ) → j < length t → cell xs j ≡ cell t j
  pub nonzero : (j : ℕ) → j < length t → cell t j ≢ 0
  pub ends : cell xs (length t) ≡ 0

pub Holds-str_len : (xs : List ℕ) (t : Text) → Holds xs t → str_len xs ≡ length t
Holds-str_len xs t h =
    str_len_unique xs (length t) (h.ends) (λ j k e. h.nonzero j k (sym (h.cells j k) ∙ e))

pub Holds-c_string : (xs : List ℕ) (t : Text) → Holds xs t → c_string xs ≡ t
Holds-c_string xs t h =
    let n = Holds-str_len xs t h in
    let room = h.room in
    let size = length-take (length t) xs in
    rw n (
      cells-ext (take (length t) xs) t (omega arith)
        (λ j k. cell-take (length t) j xs (omega arith) ∙ h.cells j (omega arith)))

-- The text with a character put in.
abbrev inserted : ℕ → ℕ → Text → Text
inserted cur c t = take cur t ++ (c ∷ drop cur t)

pub length-inserted :
    (cur c : ℕ) (t : Text) → cur ≤ length t → length (inserted cur c t) ≡ suc (length t)
length-inserted cur c t h =
    let a = length-append (take cur t) (c ∷ drop cur t) in
    let b = length-take cur t in let d = length-drop cur t in omega arith

cell-inserted_before :
    (cur c j : ℕ) (t : Text) → cur ≤ length t → j < cur → cell (inserted cur c t) j ≡ cell t j
cell-inserted_before cur c j t h k =
    let b = length-take cur t in
    cell-append_left (take cur t) (c ∷ drop cur t) j (omega arith) ∙ cell-take cur j t k

cell-inserted_at : (cur c : ℕ) (t : Text) → cur ≤ length t → cell (inserted cur c t) cur ≡ c
cell-inserted_at cur c t h =
    let b = length-take cur t in
    let e : cur - length (take cur t) ≡ 0 = omega arith in
    cell-append_right (take cur t) (c ∷ drop cur t) cur (omega arith)
    ∙ ap (λ i. cell (c ∷ drop cur t) i) e

cell-inserted_after :
    (cur c j : ℕ) (t : Text) → cur ≤ length t → cur < j → cell (inserted cur c t) j ≡ cell t (j - 1)
cell-inserted_after cur c j t h k =
    let b = length-take cur t in
    let e : j - length (take cur t) ≡ suc (j - suc cur) = omega arith in
    let f : cur + (j - suc cur) ≡ j - 1 = omega arith in
    cell-append_right (take cur t) (c ∷ drop cur t) j (omega arith)
    ∙ ap (λ i. cell (c ∷ drop cur t) i) e
    ∙ cell-drop cur (j - suc cur) t
    ∙ ap (λ i. cell t i) f

-- What the loop of `shell_insert_char` and its assignments leave in the array.
pub insert-Holds :
    (cur c : ℕ) (xs : List ℕ) (t : Text)
    → Holds xs t
    → cur ≤ length t
    → suc (length t) < length xs
    → c ≢ 0
    → Holds
        (set
          (set (shift_right (suc (length t) - cur) (suc (length t)) xs) cur c)
          (suc (length t))
          0)
        (inserted cur c t)
insert-Holds cur c xs t h fits small nonzero =
    let n = length t in
    let a : List ℕ = shift_right (suc n - cur) (suc n) xs in
    let size = length-inserted cur c t fits in
    let la = length-shift_right (suc n - cur) (suc n) xs in
    let lb = length-set a cur c in
    let lc = length-set (set a cur c) (suc n) 0 in
    record {
      room = omega arith;
      cells = λ j k.
          get_or-set_ne (set a cur c) (suc n) j 0 0 (λ e. omega arith)
          ∙ (elim (Bool-cases (ltb j cur)) [
            | inl q ↦
                let l : j < cur = ground arith in
                get_or-set_ne a cur j c 0 (λ e. omega arith)
                ∙ shift_right-kept (suc n - cur) (suc n) j xs (inl (omega arith))
                ∙ h.cells j (omega arith)
                ∙ sym (cell-inserted_before cur c j t fits l)
            | inr q ↦ elim (Bool-cases (j == cur)) [
              | inl r ↦
                  let e : j ≡ cur = ground arith in
                  rw e
                    (get_or-set_self a cur c 0 (omega arith) ∙ sym (cell-inserted_at cur c t fits))
              | inr r ↦
                  let l : cur < j = ground arith in
                  get_or-set_ne a cur j c 0 (λ e. omega arith)
                  ∙ shift_right-moved (suc n - cur) (suc n) j xs (omega arith) (omega arith)
                      (omega arith) (omega arith)
                  ∙ h.cells (j - 1) (omega arith)
                  ∙ sym (cell-inserted_after cur c j t fits l)
            ]
          ]);
      nonzero = λ j k e. elim (Bool-cases (ltb j cur)) [
        | inl q ↦
            let l : j < cur = ground arith in
            h.nonzero j (omega arith) (sym (cell-inserted_before cur c j t fits l) ∙ e)
        | inr q ↦ elim (Bool-cases (j == cur)) [
          | inl r ↦
              let at : j ≡ cur = ground arith in
              nonzero (
                sym (cell-inserted_at cur c t fits)
                ∙ ap (λ i. cell (inserted cur c t) i) (sym at)
                ∙ e)
          | inr r ↦
              let l : cur < j = ground arith in
              h.nonzero (j - 1) (omega arith) (sym (cell-inserted_after cur c j t fits l) ∙ e)
        ]
      ];
      ends = rw size (get_or-set_self (set a cur c) (suc n) 0 0 (omega arith));
    }

pub length-without : (i : ℕ) (t : Text) → i < length t → length (without i t) ≡ length t - 1
length-without i t h =
    let a = length-append (take i t) (drop (suc i) t) in
    let b = length-take i t in let d = length-drop (suc i) t in omega arith

cell-without_before : (i j : ℕ) (t : Text) → i < length t → j < i → cell (without i t) j ≡ cell t j
cell-without_before i j t h k =
    let b = length-take i t in
    cell-append_left (take i t) (drop (suc i) t) j (omega arith) ∙ cell-take i j t k

cell-without_after :
    (i j : ℕ) (t : Text) → i < length t → i ≤ j → cell (without i t) j ≡ cell t (suc j)
cell-without_after i j t h k =
    let b = length-take i t in
    let e : j - length (take i t) ≡ j - i = omega arith in
    let f : suc i + (j - i) ≡ suc j = omega arith in
    cell-append_right (take i t) (drop (suc i) t) j (omega arith)
    ∙ ap (λ k. cell (drop (suc i) t) k) e
    ∙ cell-drop (suc i) (j - i) t
    ∙ ap (λ k. cell t k) f

-- What the loop of the key delete, and that of `shell_backspace`, leave in the array.
pub remove-Holds :
    (i : ℕ) (xs : List ℕ) (t : Text)
    → Holds xs t
    → i < length t
    → Holds (shift_left (length t - i) i xs) (without i t)
remove-Holds i xs t h lt =
    let n = length t in
    let a : List ℕ = shift_left (n - i) i xs in
    let size = length-without i t lt in
    let la = length-shift_left (n - i) i xs in
    let room = h.room in
    record {
      room = omega arith;
      cells = λ j k. elim (Bool-cases (ltb j i)) [
        | inl q ↦
            let l : j < i = ground arith in
            shift_left-kept (n - i) i j xs (inl l)
            ∙ h.cells j (omega arith)
            ∙ sym (cell-without_before i j t lt l)
        | inr q ↦
            let l : i ≤ j = ground arith in
            shift_left-moved (n - i) i j xs (omega arith) l (omega arith)
            ∙ h.cells (suc j) (omega arith)
            ∙ sym (cell-without_after i j t lt l)
      ];
      nonzero = λ j k e. elim (Bool-cases (ltb j i)) [
        | inl q ↦
            let l : j < i = ground arith in
            h.nonzero j (omega arith) (sym (cell-without_before i j t lt l) ∙ e)
        | inr q ↦
            let l : i ≤ j = ground arith in
            h.nonzero (suc j) (omega arith) (sym (cell-without_after i j t lt l) ∙ e)
      ];
      ends =
          let e : suc (n - 1) ≡ n = omega arith in
          rw size (
            shift_left-moved (n - i) i (n - 1) xs (omega arith) (omega arith) (omega arith)
            ∙ ap (λ k. cell xs k) e
            ∙ h.ends);
    }

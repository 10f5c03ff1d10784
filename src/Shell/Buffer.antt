-- ===== src/Shell/Buffer.antt =====
-- C strings in the character arrays of src/shell.c. An array is the list of its cells; what lies
-- behind the zero byte is kept.
use tabla_rusa_os.Base.{
  ℕ, zero, suc, ◌-◌, List, [], ◌∷◌, ◌++◌, Text, ◌==◌, if◌then◌else◌, get_or, set, take, drop,
  length, str_copy,
}

-- The cell of index `i`.
abbrev pub cell : List ℕ → ℕ → ℕ
cell xs i = get_or xs i 0

unfoldable pub str_len : List ℕ → ℕ
str_len [] = 0
str_len (c ∷ cs) = let rest = str_len cs in if c == 0 then 0 else suc rest

-- The string that the array holds.
abbrev pub c_string : List ℕ → Text
c_string xs = take (str_len xs) xs

-- `str_copy(dst, src, max)` for the array `dst`.
abbrev pub copy_into : Text → ℕ → List ℕ → List ℕ
copy_into src max dst = str_copy src max ++ (0 ∷ drop (suc (length (str_copy src max))) dst)

-- `for(i = last; i > ...; i--) xs[i] = xs[i - 1];` for that many rounds.
unfoldable pub shift_right : ℕ → ℕ → List ℕ → List ℕ
shift_right zero i xs = xs
shift_right (suc rounds) i xs = shift_right rounds (i - 1) (set xs i (cell xs (i - 1)))

-- `for(i = first; i < ...; i++) xs[i] = xs[i + 1];` for that many rounds.
unfoldable pub shift_left : ℕ → ℕ → List ℕ → List ℕ
shift_left zero i xs = xs
shift_left (suc rounds) i xs = shift_left rounds (suc i) (set xs i (cell xs (suc i)))

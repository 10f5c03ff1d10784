-- ===== src/Base/Strings.antt =====
-- NUL-terminated C strings: a text is the list of its bytes before the terminator. The string
-- helpers that each C file repeats for itself are stated here once.
use Prim.Native.Nat.{ℕ, ◌+◌, ◌-◌, ◌<◌, min}
use Prim.Native.Char.{code}
use Prim.Native.String.{String}
use mathlib.Core.Path.{◌≡◌, refl}
use mathlib.Core.Bool.{Bool, true, false, ◌&&◌}
use mathlib.Core.List.{List, [], ◌∷◌}
use native.Mathlib.Omega.{arith}
use tabla_rusa_os.Base.Tests.{if◌then◌else◌, leb, ◌==◌}
use tabla_rusa_os.Base.Lists.{length, take, take_all, length-take}

abbrev pub Text : Type 0
Text = List ℕ

-- The bytes of a literal.
abbrev pub codes : String → Text
codes String.[] = []
codes (String.◌∷◌ c s) = code c ∷ codes s

-- `s[0] == 0`
abbrev pub is_empty : Text → Bool
is_empty [] = true
is_empty (c ∷ cs) = false

-- Byte-wise equality.
unfoldable pub streq : Text → Text → Bool
streq [] [] = true
streq [] (d ∷ ds) = false
streq (c ∷ cs) [] = false
streq (c ∷ cs) (d ∷ ds) = (c == d) && streq cs ds

-- ASCII letters in lower case.
unfoldable pub lower_char : ℕ → ℕ
lower_char c = if leb b'A' c && leb c b'Z' then c + 32 else c

-- Equality up to the case of ASCII letters.
unfoldable pub str_eq : Text → Text → Bool
unfolding lower_char
str_eq [] [] = true
str_eq [] (d ∷ ds) = false
str_eq (c ∷ cs) [] = false
str_eq (c ∷ cs) (d ∷ ds) = (lower_char c == lower_char d) && str_eq cs ds

-- What a `char` array of `max` bytes holds after the copy of `src` into it.
unfoldable pub str_copy : Text → ℕ → Text
str_copy src max = take (max - 1) src

pub streq_refl : (s : Text) → streq s s ≡ true
unfolding streq
streq_refl [] = refl
streq_refl (c ∷ cs) = ground (arith, streq_refl cs)

pub eq_of_streq : (s t : Text) → streq s t ≡ true → s ≡ t
unfolding streq
eq_of_streq [] [] h = refl
eq_of_streq [] (d ∷ ds) h = cc
eq_of_streq (c ∷ cs) [] h = cc
eq_of_streq (c ∷ cs) (d ∷ ds) h = ground (arith, eq_of_streq cs ds)

pub str_eq_refl : (s : Text) → str_eq s s ≡ true
unfolding str_eq
str_eq_refl [] = refl
str_eq_refl (c ∷ cs) = ground (arith, str_eq_refl cs)

pub str_eq_sym : (s t : Text) → str_eq s t ≡ true → str_eq t s ≡ true
unfolding str_eq
str_eq_sym [] [] h = refl
str_eq_sym [] (d ∷ ds) h = cc
str_eq_sym (c ∷ cs) [] h = cc
str_eq_sym (c ∷ cs) (d ∷ ds) h = ground (arith, str_eq_sym cs ds)

pub str_eq_trans : (s t u : Text) → str_eq s t ≡ true → str_eq t u ≡ true → str_eq s u ≡ true
unfolding str_eq
str_eq_trans [] [] u h k = k
str_eq_trans [] (d ∷ ds) u h k = cc
str_eq_trans (c ∷ cs) [] u h k = cc
str_eq_trans (c ∷ cs) (d ∷ ds) [] h k = cc
str_eq_trans (c ∷ cs) (d ∷ ds) (e ∷ es) h k = ground (arith, str_eq_trans cs ds es)

-- Texts that agree answer every comparison alike.
pub str_eq_congr : (s t u : Text) → str_eq s t ≡ true → str_eq s u ≡ str_eq t u
str_eq_congr s t u h = ground (arith, str_eq_trans t s u (str_eq_sym s t h), str_eq_trans s t u h)

pub str_copy_fits : (s : Text) (max : ℕ) → length s < max → str_copy s max ≡ s
unfolding str_copy
str_copy_fits s max h = take_all (max - 1) s (omega arith)

pub length-str_copy : (s : Text) (max : ℕ) → length (str_copy s max) ≡ min (max - 1) (length s)
unfolding str_copy
length-str_copy s max = length-take (max - 1) s

pub length-str_eq : (s t : Text) → str_eq s t ≡ true → length s ≡ length t
unfolding str_eq
length-str_eq [] [] h = refl
length-str_eq [] (d ∷ ds) h = cc
length-str_eq (c ∷ cs) [] h = cc
length-str_eq (c ∷ cs) (d ∷ ds) h = ground (arith, length-str_eq cs ds)

-- ===== src/Fs/Parts.antt =====
-- `resolve` of src/fs.c against a description that has no loop over the bytes and no fuel: the path
-- is split at its slashes, and the parts are followed one after the other.
use tabla_rusa_os.Base.{
  ℕ, zero, suc, ◌+◌, ◌<◌, ◌≡◌, refl, sym, ap, ◌∙◌, Text, true, false, Option, none, some, List, [],
  ◌∷◌, inl, inr, ◌==◌, if◌then◌else◌, length, arith, Option-cases, Bool-cases, streq, str_copy,
  is_empty, take,
}
use tabla_rusa_os.Fs.Node.{Fs, find_child, name_max}
use tabla_rusa_os.Fs.Path.{
  slash, dot, dotdot, start, up, walk, resolve, skip_slashes, part_bytes, after_part, read_part,
}
use tabla_rusa_os.Fs.Walk.{part-empty, length-rest}

abbrev extend : ℕ → List Text → List Text
extend c [] = (c ∷ []) ∷ []
extend c (p ∷ ps) = (c ∷ p) ∷ ps

-- The texts between the slashes, the empty ones too.
unfoldable pub pieces : Text → List Text
pieces [] = [] ∷ []
pieces (c ∷ cs) = let rest = pieces cs in if c == slash then [] ∷ rest else extend c rest

-- The pieces that are not empty, each cut to the bytes of a name.
unfoldable pub names : List Text → List Text
names [] = []
names (p ∷ ps) = let rest = names ps in if is_empty p then rest else str_copy p name_max ∷ rest

abbrev pub parts : Text → List Text
parts path = names (pieces path)

-- Where one part leads from a node.
unfoldable pub enter : Fs → Text → ℕ → Option ℕ
enter fs part cur =
    if streq part dot
    then some cur
    else if streq part dotdot
    then some (up fs cur)
    else find_child fs cur part

-- Where the parts lead: `none` as soon as one leads nowhere.
unfoldable pub follow : Fs → List Text → ℕ → Option ℕ
follow fs [] cur = some cur
follow fs (p ∷ ps) cur = elim (enter fs p cur) [ none ↦ none | some next ↦ follow fs ps next ]

parts-skip : (path : Text) → parts (skip_slashes path) ≡ parts path
unfolding skip_slashes pieces names
parts-skip [] = refl
parts-skip (c ∷ cs) = elim (Bool-cases (c == slash)) [
  | inl q ↦ ground (arith, q, parts-skip cs)
  | inr q ↦ ground (arith, q)
]

-- The text before the first slash.
unfoldable before : Text → Text
before [] = []
before (c ∷ cs) = let rest = before cs in if c == slash then [] else c ∷ rest

-- The first piece, and the parts of what is behind it.
pieces-before :
    (path : Text)
    → (ps : List Text) × (pieces path ≡ before path ∷ ps) × (names ps ≡ parts (after_part path))
unfolding pieces before after_part names
pieces-before [] = ([], refl, refl)
pieces-before (c ∷ cs) =
    let (ps, split, behind) = pieces-before cs in
    elim (Bool-cases (c == slash)) [
      | inl q ↦ (pieces cs, rw q refl, rw q (rw q refl))
      | inr q ↦ (ps, rw (q, split) refl, rw q behind)
    ]

part_bytes-before :
    (i n : ℕ) (path : Text) → i + n + 1 ≡ name_max → part_bytes i path ≡ take n (before path)
unfolding part_bytes before
part_bytes-before i zero [] h = refl
part_bytes-before i (suc n) [] h = refl
part_bytes-before i zero (c ∷ cs) h = let full = part_bytes-before i 0 cs h in ground (arith, full)
part_bytes-before i (suc n) (c ∷ cs) h =
    let more = part_bytes-before (i + 1) n cs (omega arith) in ground (arith, more)

empty : (s : Text) → is_empty s ≡ true → s ≡ []
empty [] h = refl
empty (c ∷ cs) h = cc

not_empty : (n : ℕ) (s : Text) → is_empty (take n s) ≡ false → is_empty s ≡ false
not_empty zero [] h = h
not_empty (suc n) [] h = h
not_empty n (c ∷ cs) h = refl

parts-none : (path : Text) → is_empty (read_part path).0 ≡ true → parts path ≡ []
unfolding pieces names
parts-none path h =
    sym (parts-skip path) ∙ ap parts (empty (skip_slashes path) (sym (part-empty path) ∙ h))

-- The first part is the one that is read.
parts-read :
    (path : Text)
    → is_empty (read_part path).0 ≡ false
    → parts path ≡ (read_part path).0 ∷ parts (read_part path).1
unfolding read_part names str_copy
parts-read path h =
    let p = skip_slashes path in
    let (ps, split, behind) = pieces-before p in
    let cut : part_bytes 0 p ≡ take 31 (before p) = part_bytes-before 0 31 p refl in
    let filled = not_empty 31 (before p) (ap is_empty (sym cut) ∙ h) in
    sym (parts-skip path) ∙ rw (split, filled, behind, cut) refl

walk-follow :
    (fs : Fs) (fuel : ℕ) (path : Text) (cur : ℕ)
    → length path < fuel
    → walk fs fuel path cur ≡ follow fs (parts path) cur
unfolding walk follow enter
walk-follow fs zero path cur h = absurd (omega arith)
walk-follow fs (suc fuel) path cur h =
    let rest = (read_part path).1 in
    let shorter = length-rest path in
    elim (Bool-cases (is_empty (read_part path).0)) [
      | inl q ↦ rw (parts-none path q) (ground (arith, q))
      | inr q ↦ rw (parts-read path q) (elim (Option-cases (find_child fs cur (read_part path).0)) [
        | inl none_there ↦
            ground
              (arith, shorter, walk-follow fs fuel rest cur, walk-follow fs fuel rest (up fs cur))
        | inr (child, there) ↦ ground (
          arith,
          shorter,
          walk-follow fs fuel rest cur,
          walk-follow fs fuel rest (up fs cur),
          walk-follow fs fuel rest child,
        )
      ])
    ]

-- For every file system and path, `resolve` ends and leads where the texts between the slashes
-- lead, taken in order from the root for a path that begins with a slash and else from the
-- working directory: empty texts and "." stay, ".." goes to the parent and stays at the root, any
-- other text, cut to 31 bytes, goes to the child of that name, and without one the result is -1.
pub resolve-follow :
    (fs : Fs) (path : Text) → resolve fs path ≡ follow fs (parts path) (start fs path)
unfolding resolve pieces names follow
resolve-follow fs [] = refl
resolve-follow fs (c ∷ cs) =
    walk-follow fs (length (c ∷ cs) + 2) (c ∷ cs) (start fs (c ∷ cs)) (omega arith)

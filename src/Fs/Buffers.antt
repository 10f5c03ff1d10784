-- ===== src/Fs/Buffers.antt =====
-- The strings that src/fs.c hands out stay inside the caller's buffers.
use tabla_rusa_os.Base.{
  ℕ, ◌-◌, ◌<◌, ◌≡◌, Text, some, List, [], ◌∷◌, ◌++◌, if◌then◌else◌, length, arith, length-append,
  length-take, length-str_copy, take, is_empty,
}
use tabla_rusa_os.Fs.Node.{Fs, node}
use tabla_rusa_os.Fs.Path.{slash}
use tabla_rusa_os.Fs.Listing.{push_bytes, ancestors, pwd_max, spell, pwd, separator, join_path}

push_bytes-fits :
    (max : ℕ) (out src : Text) → length out < max → length (push_bytes max out src) < max
unfolding push_bytes
push_bytes-fits max out [] h = h
push_bytes-fits max out (c ∷ cs) h =
    ground (arith, push_bytes-fits max (out ++ (c ∷ [])) cs, length-append out (c ∷ []))

spell-fits :
    (fs : Fs) (out : Text) (is : List ℕ) → length out < pwd_max → length (spell fs out is) < pwd_max
unfolding spell
spell-fits fs out [] h = h
spell-fits fs out (i ∷ []) h = push_bytes-fits pwd_max out (node fs i).name h
spell-fits fs out (i ∷ j ∷ is) h =
    let named = push_bytes pwd_max out (node fs i).name in
    let fits = push_bytes-fits pwd_max out (node fs i).name h in
    spell-fits fs (push_bytes pwd_max named (slash ∷ [])) (j ∷ is)
      (push_bytes-fits pwd_max named (slash ∷ []) fits)

-- The name of the working directory and its terminator fit the inner buffer of 96 bytes and a
-- caller's buffer that is not empty, whatever the tree and the depth are.
pub pwd-fits :
    (fs : Fs) (max : ℕ) → 0 < max → (length (pwd fs max) < max) × (length (pwd fs max) < pwd_max)
unfolding pwd
pwd-fits fs max h =
    let chain = ancestors fs 16 fs.cwd [] in
    omega (
      arith,
      length-str_copy (spell fs (slash ∷ []) chain) max,
      spell-fits fs (slash ∷ []) chain (omega arith),
    )

-- A path that `fs_join_path` returns fits the caller's buffer with its terminator.
pub join_path-fits :
    (path name : Text) (max : ℕ) (out : Text)
    → join_path path name max ≡ some out
    → length out < max
unfolding join_path separator
join_path-fits path name max out e =
    let from = if is_empty path then slash ∷ [] else path in
    let cut = take (max - 1) from in
    ground (
      arith,
      length-take (max - 1) from,
      length-append cut (separator max cut),
      push_bytes-fits max (cut ++ separator max cut) name,
    )

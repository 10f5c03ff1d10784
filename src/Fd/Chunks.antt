-- ===== src/Fd/Chunks.antt =====
-- What consecutive reads through one descriptor of src/fd.c deliver.
use tabla_rusa_os.Base.{
  ℕ, zero, suc, ◌+◌, ◌-◌, ◌<◌, ◌≤◌, ◌≡◌, refl, ap, ◌∙◌, Text, true, false, ◌==◌, ◌&&◌, some, arith,
  Option-cases, inl, inr, [], ◌∷◌, ◌++◌, length, length-take, take, drop, modify,
  get_or-modify_self, find_index, find_index-lt, find_index-modify, ok,
}
use tabla_rusa_os.Fs.Node.{Fs}
use tabla_rusa_os.Fs.Ops.{read, can_read, permissions_of}
use tabla_rusa_os.Fs.Path.{resolve}
use tabla_rusa_os.Fd.Table.{
  Entry, FdTable, Tables, no_entry, no_table, table_at, entry_at, modify_entry, table_for_pid,
  fd_find_for_pid,
}
use tabla_rusa_os.Fd.Files.{current_pid, is_socket, position, fd_read_chunk}

found :
    (pid fd t e : ℕ) (ts : Tables)
    → fd_find_for_pid pid fd ts ≡ some (t, e)
    → (find_index (λ (u : FdTable). u.pid == pid) ts ≡ some t)
      × (find_index (λ (n : Entry). n.used && (n.local_id == fd)) (table_at ts t).entries ≡ some e)
unfolding fd_find_for_pid table_for_pid
found pid fd t e ts h = elim (Option-cases (find_index (λ (u : FdTable). u.pid == pid) ts)) [
  | inl q ↦ absurd (ground (arith, q))
  | inr (t', q) ↦
      let at_fd = λ (n : Entry). n.used && (n.local_id == fd) in
      elim (Option-cases (find_index at_fd (table_at ts t').entries)) [
        | inl r ↦ absurd (ground (arith, q, r))
        | inr (e', r) ↦ ground (arith, q, r)
      ]
]

-- A new offset in an entry does not change where the descriptor leads.
find-moved :
    (to pid fd t e : ℕ) (ts : Tables)
    → fd_find_for_pid pid fd ts ≡ some (t, e)
    → let ts' = modify_entry (λ (n : Entry). record n { offset = to }) t e ts in
      (fd_find_for_pid pid fd ts' ≡ some (t, e))
      × (entry_at ts' t e ≡ record (entry_at ts t e) { offset = to })
unfolding fd_find_for_pid table_for_pid
find-moved to pid fd t e ts h =
    let (q, r) = found pid fd t e ts h in
    let at_pid = λ (u : FdTable). u.pid == pid in
    let at_fd = λ (n : Entry). n.used && (n.local_id == fd) in
    let f = λ (n : Entry). record n { offset = to } in
    let g = λ (u : FdTable). record u { entries = modify f e u.entries } in
    let es = (table_at ts t).entries in
    let outer = get_or-modify_self g t ts no_table (find_index-lt at_pid ts t q) in
    let inner = get_or-modify_self f e es no_entry (find_index-lt at_fd es e r) in
    let q' = find_index-modify at_pid g t ts no_table refl ∙ q in
    let r' = find_index-modify at_fd f e es no_entry refl ∙ r in
    (ground (arith, q', r', outer), ground (arith, outer, inner))

can_read_of_read : (fs : Fs) (path text : Text) → read fs path ≡ ok text → can_read fs path ≡ true
unfolding read can_read permissions_of
can_read_of_read fs path text e = elim (Option-cases (resolve fs path)) [
  | inl q ↦ absurd (ground (arith, q))
  | inr (id, q) ↦ ground (arith, q)
]

take_nil : (n : ℕ) → take {A = ℕ} n [] ≡ []
take_nil zero = refl
take_nil (suc n) = refl

drop_nil : (n : ℕ) → drop {A = ℕ} n [] ≡ []
drop_nil zero = refl
drop_nil (suc n) = refl

take-take :
    (a b : ℕ) (text : Text)
    → take a text ++ take b (drop (length (take a text)) text) ≡ take (a + b) text
take-take zero b text = let e : zero + b ≡ b = omega arith in rw e refl
take-take (suc a) b [] = rw (take_nil b, take_nil (suc a + b)) refl
take-take (suc a) b (c ∷ cs) =
    let e : suc a + b ≡ suc (a + b) = omega arith in rw e (ap (λ rest. c ∷ rest) (take-take a b cs))

-- Taking `a` bytes and then `b` bytes from where the first ended is taking `a + b`.
take-drop :
    (a b at : ℕ) (text : Text)
    → take a (drop at text) ++ take b (drop (at + length (take a (drop at text))) text)
      ≡ take (a + b) (drop at text)
take-drop a b zero text =
    let e : zero + length (take a text) ≡ length (take a text) = omega arith in
    rw e (take-take a b text)
take-drop a b (suc at) [] =
    rw (take_nil a, drop_nil (suc at + length {A = ℕ} []), take_nil b, take_nil (a + b)) refl
take-drop a b (suc at) (c ∷ cs) =
    let e : suc at + length (take a (drop at cs)) ≡ suc (at + length (take a (drop at cs))) =
      omega arith in
    rw e (take-drop a b at cs)

chunk-within :
    (a at : ℕ) (text : Text) → at ≤ length text → at + length (take a (drop at text)) ≤ length text
chunk-within a zero text h = omega (arith, length-take a text)
chunk-within a (suc at) [] h = absurd (omega arith)
chunk-within a (suc at) (c ∷ cs) h = omega (arith, chunk-within a at cs (omega arith))

position-le : (n : Entry) (text : Text) → position n text ≤ length text
position-le n text = ground arith

read_chunk_step :
    (fd max t e : ℕ) (fs : Fs) (ts : Tables) (text : Text)
    → 0 < max
    → fd_find_for_pid current_pid fd ts ≡ some (t, e)
    → is_socket (entry_at ts t e) ≡ false
    → read fs (entry_at ts t e).path ≡ ok text
    → let at = position (entry_at ts t e) text in
      let chunk = take (max - 1) (drop at text) in
      fd_read_chunk fd max fs ts
      ≡ (ok chunk, modify_entry (λ (m : Entry). record m { offset = at + length chunk }) t e ts)
unfolding fd_read_chunk
read_chunk_step fd max t e fs ts text pos h plain got =
    ground (arith, h, plain, got, can_read_of_read fs (entry_at ts t e).path text got)

-- Two consecutive reads through the descriptor of a file, into buffers that are not empty, succeed
-- and deliver consecutive parts of the file: no byte is lost or comes twice. The file is readable.
pub read_chunk-read_chunk :
    (fd m k t e : ℕ) (fs : Fs) (ts : Tables) (text : Text)
    → 0 < m
    → 0 < k
    → fd_find_for_pid current_pid fd ts ≡ some (t, e)
    → is_socket (entry_at ts t e) ≡ false
    → read fs (entry_at ts t e).path ≡ ok text
    → let first = fd_read_chunk fd m fs ts in
      let second = fd_read_chunk fd k fs first.1 in
      (c d : Text) × (first.0 ≡ ok c)
      × (second.0 ≡ ok d)
      × (c ++ d ≡ take ((m - 1) + (k - 1)) (drop (position (entry_at ts t e) text) text))
read_chunk-read_chunk fd m k t e fs ts text pos pos' h plain got =
    let n = entry_at ts t e in
    let at = position n text in
    let c = take (m - 1) (drop at text) in
    let to = at + length c in
    let ts' = modify_entry (λ (x : Entry). record x { offset = to }) t e ts in
    let one = read_chunk_step fd m t e fs ts text pos h plain got in
    let (h', moved) = find-moved to current_pid fd t e ts h in
    let plain' : is_socket (entry_at ts' t e) ≡ false = rw moved plain in
    let got' : read fs (entry_at ts' t e).path ≡ ok text = rw moved got in
    let two = read_chunk_step fd k t e fs ts' text pos' h' plain' got' in
    let within = chunk-within (m - 1) at text (position-le n text) in
    let there : position (entry_at ts' t e) text ≡ to = rw moved (ground (arith, within)) in
    let d = take (k - 1) (drop to text) in
    let second : (fd_read_chunk fd k fs (fd_read_chunk fd m fs ts).1).0 ≡ ok d =
      rw one (rw two (rw there refl)) in
    (c, d, ap (λ r. r.0) one, second, take-drop (m - 1) (k - 1) at text)

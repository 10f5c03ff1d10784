-- ===== src/Process/Numbers.antt =====
-- Process numbers and names in src/process.c.
use tabla_rusa_os.Base.{
  ℕ, ◌+◌, ◌%◌, ◌≤◌, ◌<◌, ◌≡◌, ◌≢◌, ◌⊎◌, refl, Text, true, false, none, some, arith, Option-cases,
  Bool-cases, inl, inr, ok, err, length, length-str_copy, find_index-lt, is_empty, codes, str_copy,
  u32, length-str_eq, [], ◌∷◌, get_or-modify_self,
}
use tabla_rusa_os.Process.Table.{
  Proc, Sys, no_proc, proc_at, modify_proc, has_name, is_named, process_name_len, process_find,
  free_process_slot,
}
use tabla_rusa_os.Process.Lifecycle.{created, process_create, process_spawn, start_found}
use tabla_rusa_os.Process.Ending.{proc_at-modify, process_find-holds}

-- No two named rows share a number, every number was handed out, and every name fits its array.
pub record IsNumbered (s : Sys) : Type 0 where
  pub below : (i : ℕ) → has_name (proc_at s i) ≡ true → (proc_at s i).pid < s.next_pid
  pub apart :
      (i j : ℕ)
      → has_name (proc_at s i) ≡ true
      → has_name (proc_at s j) ≡ true
      → (proc_at s i).pid ≡ (proc_at s j).pid
      → i ≡ j
  pub short : (i : ℕ) (n : Text) → (proc_at s i).name ≡ some n → length n < process_name_len

free_slot-lt : (s : Sys) (i : ℕ) → free_process_slot s ≡ some i → i < length s.procs
unfolding free_process_slot
free_slot-lt s i e = find_index-lt (λ (p : Proc). _) s.procs i e

-- `process_create`, on every branch, keeps the table in order, as long as the counter does not
-- wrap: no two named rows share a number, every number is below the counter, and every name fits
-- its array.
pub create-IsNumbered :
    (name kind workload : Text) (priority : ℕ) (s : Sys)
    → s.next_pid + 1 < u32
    → IsNumbered s
    → IsNumbered (process_create name kind workload priority s).1
unfolding process_create
create-IsNumbered name kind workload priority s w num = elim (Bool-cases (is_empty name)) [
  | inl e ↦ rw (e, process_create) num
  | inr e ↦ elim (Option-cases (process_find name s)) [
    | inr (i, q) ↦ rw (e, process_create, q) num
    | inl q ↦ elim (Option-cases (free_process_slot s)) [
      | inl a ↦ rw (e, process_create, q, a) num
      | inr (i, a) ↦ rw (e, process_create, q, a) (placed i (free_slot-lt s i a))
    ]
  ]
]
  where
    row : Proc
    row = created name kind workload priority s.next_pid s.current_pid

    at_row :
        (i j : ℕ)
        → i < length s.procs
        → ((i ≡ j) × (proc_at (modify_proc (λ (p : Proc). row) i s) j ≡ row))
          ⊎ ((i ≢ j) × (proc_at (modify_proc (λ (p : Proc). row) i s) j ≡ proc_at s j))
    at_row i j h = proc_at-modify (λ (p : Proc). row) i j s h

    placed :
        (i : ℕ)
        → i < length s.procs
        → IsNumbered
            (record (modify_proc (λ (p : Proc). row) i s) { next_pid = (s.next_pid + 1) % u32 })
    placed i h = record {
      below = λ j u. ground (arith, at_row i j h, num.below j);
      apart = λ j k u v e.
          ground (arith, at_row i j h, at_row i k h, num.below j, num.below k, num.apart j k);
      short = λ j n e.
          ground (arith, at_row i j h, num.short j n, length-str_copy name process_name_len);
    }

-- A name of 24 bytes or more is never found.
find-long :
    (name : Text) (s : Sys)
    → IsNumbered s
    → process_name_len ≤ length name
    → process_find name s ≡ none
find-long name s num h = elim (Option-cases (process_find name s)) [
  | inl q ↦ q
  | inr (i, q) ↦ absurd (clash i (process_find-holds name s i q).1)
]
  where
    clash : (i : ℕ) → is_named name (proc_at s i) ≢ true
    clash i e = elim (Option-cases (proc_at s i).name) [
      | inl z ↦ ground (arith, z)
      | inr (n, z) ↦ ground (arith, z, num.short i n z, length-str_eq n name)
    ]

nonempty_of_long : (name : Text) → process_name_len ≤ length name → is_empty name ≡ false
nonempty_of_long [] h = absurd (omega arith)
nonempty_of_long (c ∷ cs) h = refl

create-named :
    (name kind workload : Text) (priority : ℕ) (s : Sys) (i : ℕ)
    → is_empty name ≡ false
    → process_find name s ≡ none
    → free_process_slot s ≡ some i
    → s.next_pid + 1 < 0x8000_0000
    → let made = process_create name kind workload priority s in
      (made.0 ≡ ok s.next_pid) × ((proc_at made.1 i).name ≡ some (str_copy name process_name_len))
unfolding process_create
create-named name kind workload priority s i e q free w =
    let row = created name kind workload priority s.next_pid s.current_pid in
    ground (arith, get_or-modify_self (λ (p : Proc). row) i s.procs no_proc (free_slot-lt s i free))

start_found-none :
    (name : Text) (s : Sys) → process_find name s ≡ none → start_found name s ≡ (err 1, s)
unfolding start_found
start_found-none name s q = ground (arith, q)

-- In a table in order, with a free slot and a counter below 2^31 - 1, `process_spawn` of a name
-- of 24 bytes or more fails although `process_create` has made the process: the table then holds
-- a process under the cut name.
pub spawn-long :
    (name : Text) (s : Sys) (i : ℕ)
    → IsNumbered s
    → process_name_len ≤ length name
    → s.next_pid + 1 < 0x8000_0000
    → free_process_slot s ≡ some i
    → ((process_spawn name s).0 ≡ err 1)
      × ((proc_at (process_spawn name s).1 i).name ≡ some (str_copy name process_name_len))
spawn-long name s i num h w free =
    let made = process_create name (codes "user") (codes "interactive") 40 s in
    let before = find-long name s num h in
    let (gave, named) =
      create-named name (codes "user") (codes "interactive") 40 s i (nonempty_of_long name h) before
        free w in
    let num' = create-IsNumbered name (codes "user") (codes "interactive") 40 s (omega arith) num in
    let after = start_found-none name made.1 (find-long name made.1 num' h) in
    let spawned : process_spawn name s ≡ (err 1, made.1) =
      unfold process_spawn in rw (before, process_spawn, gave) after in
    rw spawned (refl, named)

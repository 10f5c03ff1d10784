-- ===== src/Fd/Table.antt =====
-- The descriptor tables of src/fd.c and the operations that touch nothing else.
use tabla_rusa_os.Base.{
  ℕ, zero, suc, ◌+◌, Text, Bool, true, false, not, Option, none, some, List, [], ◌∷◌, ◌==◌, ◌&&◌,
  if◌then◌else◌, map, get_or, modify, find_index, count_if, str_copy, codes, Result, ok, err, is_ok,
}

-- `struct fd_entry`
pub record Entry : Type 0 where
  pub used : Bool
  pub local_id : ℕ
  pub owner_pid : ℕ
  pub type : Text
  pub path : Text
  pub mode : Text
  pub offset : ℕ

-- `struct fd_table`
pub record FdTable : Type 0 where
  pub pid : ℕ
  pub entries : List Entry

abbrev pub Tables : Type 0
Tables = List FdTable

abbrev pub proc_max : ℕ
proc_max = 10

abbrev pub per_proc_max : ℕ
per_proc_max = 6

abbrev pub path_max : ℕ
path_max = 64

abbrev pub mode_max : ℕ
mode_max = 4

abbrev pub no_entry : Entry
no_entry = record {
  used = false;
  local_id = 0;
  owner_pid = 0;
  type = [];
  path = [];
  mode = [];
  offset = 0;
}

abbrev pub no_table : FdTable
no_table = record { pid = 0; entries = [] }

abbrev pub table_at : Tables → ℕ → FdTable
table_at ts t = get_or ts t no_table

abbrev pub entry_at : Tables → ℕ → ℕ → Entry
entry_at ts t e = get_or (table_at ts t).entries e no_entry

abbrev pub modify_entry : (Entry → Entry) → ℕ → ℕ → Tables → Tables
modify_entry f t e ts =
    modify (λ (tab : FdTable). record tab { entries = modify f e tab.entries }) t ts

unfoldable pub table_for_pid : ℕ → Tables → Option ℕ
table_for_pid pid ts = find_index (λ (t : FdTable). t.pid == pid) ts

-- A table and an entry of it, as a pointer to the entry.
unfoldable pub fd_find_for_pid : ℕ → ℕ → Tables → Option (ℕ × ℕ)
fd_find_for_pid pid fd ts = elim (table_for_pid pid ts) [
  | none ↦ none
  | some t ↦
      elim (find_index (λ (e : Entry). e.used && (e.local_id == fd)) (table_at ts t).entries) [
        | none ↦ none
        | some e ↦ some (t, e)
      ]
]

-- What `alloc_for_pid` sets in the entry that it takes.
abbrev pub taken : ℕ → ℕ → Entry → Entry
taken pid i e = record e { used = true; local_id = i; owner_pid = pid; offset = 0 }

unfoldable pub alloc_for_pid : ℕ → Tables → Option (ℕ × ℕ) × Tables
alloc_for_pid pid ts = elim (table_for_pid pid ts) [
  | none ↦ (none, ts)
  | some t ↦ elim (find_index (λ (e : Entry). not e.used) (table_at ts t).entries) [
    | none ↦ (none, ts)
    | some i ↦ (some (t, i), modify_entry (taken pid i) t i ts)
  ]
]

-- The loops of `fd_init`; the other fields of an entry keep their values.
unfoldable pub init_entries : ℕ → ℕ → List Entry → List Entry
init_entries p i [] = []
init_entries p i (e ∷ es) =
    record e { used = false; local_id = i; owner_pid = p } ∷ init_entries p (i + 1) es

unfoldable pub init_tables : ℕ → Tables → Tables
unfolding init_entries
init_tables p [] = []
init_tables p (t ∷ ts) =
    record { pid = p; entries = init_entries p 0 t.entries } ∷ init_tables (p + 1) ts

unfoldable pub fd_open_socket_for_pid : ℕ → Text → Tables → Result ℕ × Tables
fd_open_socket_for_pid pid label ts = elim (alloc_for_pid pid ts).0 [
  | none ↦ (err 1, (alloc_for_pid pid ts).1)
  | some (t, e) ↦ (
    ok e,
    modify_entry
        (λ (n : Entry). record n {
          type = codes "socket";
          offset = 0;
          path = str_copy label path_max;
          mode = str_copy (codes "rw") mode_max;
        })
        t e (alloc_for_pid pid ts).1,
  )
]

-- `fd_close` for the process `pid`; the C function takes the current one.
unfoldable pub fd_close : ℕ → ℕ → Tables → Result (Unit {0}) × Tables
fd_close pid fd ts = elim (fd_find_for_pid pid fd ts) [
  | none ↦ (err 1, ts)
  | some (t, e) ↦ (ok tt, modify_entry (λ (n : Entry). record n { used = false }) t e ts)
]

unfoldable pub fd_tell : ℕ → ℕ → Tables → ℕ
fd_tell pid fd ts = elim (fd_find_for_pid pid fd ts) [
  | none ↦ 0
  | some (t, e) ↦ (entry_at ts t e).offset
]

-- The copy of `src` into the entry taken for it.
abbrev pub dup_of : Entry → Entry → Entry
dup_of src n = record n {
  type = src.type;
  offset = src.offset;
  path = str_copy src.path path_max;
  mode = str_copy src.mode mode_max;
}

unfoldable pub fd_dup_to_pid : ℕ → ℕ → ℕ → Tables → Result ℕ × Tables
fd_dup_to_pid from fd to ts = elim (fd_find_for_pid from fd ts) [
  | none ↦ (err 1, ts)
  | some (t, e) ↦ elim (alloc_for_pid to ts).0 [
    | none ↦ (err 2, (alloc_for_pid to ts).1)
    | some (t', e') ↦ (ok e', modify_entry (dup_of (entry_at ts t e)) t' e' (alloc_for_pid to ts).1)
  ]
]

-- The loop of `fd_inherit` over the `n` entries from `i` on. It reads the parent's table anew in
-- each round.
unfoldable pub inherit_loop : ℕ → ℕ → ℕ → ℕ → ℕ → ℕ → Tables → ℕ × Tables
inherit_loop zero i t parent child copied ts = (copied, ts)
inherit_loop (suc n) i t parent child copied ts =
    let e = entry_at ts t i in
    let dup = fd_dup_to_pid parent e.local_id child ts in
    elim e.used [
      | false ↦ inherit_loop n (i + 1) t parent child copied ts
      | true ↦
          inherit_loop n (i + 1) t parent child (if is_ok dup.0 then copied + 1 else copied) dup.1
    ]

unfoldable pub fd_inherit : ℕ → ℕ → Tables → Result ℕ × Tables
unfolding inherit_loop
fd_inherit parent child ts = elim (table_for_pid parent ts) [
  | none ↦ (err 1, ts)
  | some t ↦ let (copied, ts') = inherit_loop per_proc_max 0 t parent child 0 ts in (ok copied, ts')
]

unfoldable pub fd_close_process : ℕ → Tables → Result ℕ × Tables
fd_close_process pid ts = elim (table_for_pid pid ts) [
  | none ↦ (err 1, ts)
  | some t ↦ (
    ok (count_if (λ (e : Entry). e.used) (table_at ts t).entries),
    modify
        (λ (tab : FdTable). record tab {
          entries = map (λ (e : Entry). record e { used = false }) tab.entries;
        })
        t ts,
  )
]

unfoldable pub fd_count_for_pid : ℕ → Tables → ℕ
fd_count_for_pid pid ts = elim (table_for_pid pid ts) [
  | none ↦ 0
  | some t ↦ count_if (λ (e : Entry). e.used) (table_at ts t).entries
]

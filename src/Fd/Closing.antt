-- ===== src/Fd/Closing.antt =====
-- What closing and counting say of each other in src/fd.c.
use tabla_rusa_os.Base.{
  ℕ, ◌≡◌, refl, false, List, [], ◌∷◌, ◌==◌, map, find_index, count_if, arith, Option-cases, inl,
  inr, find_index-lt, find_index-modify, get_or-modify_self,
}
use tabla_rusa_os.Fd.Table.{
  Entry, FdTable, Tables, table_at, no_table, table_for_pid, fd_close_process, fd_count_for_pid,
}

all_closed :
    (es : List Entry)
    → count_if (λ (e : Entry). e.used) (map (λ (e : Entry). record e { used = false }) es) ≡ 0
unfolding count_if
all_closed [] = refl
all_closed (e ∷ es) = all_closed es

-- After `fd_close_process` the process holds no open descriptor.
pub fd_count-close_process :
    (pid : ℕ) (ts : Tables) → fd_count_for_pid pid (fd_close_process pid ts).1 ≡ 0
unfolding fd_count_for_pid fd_close_process table_for_pid
fd_count-close_process pid ts =
    elim (Option-cases (find_index (λ (t : FdTable). t.pid == pid) ts)) [
      | inl q ↦ ground (arith, q)
      | inr (t, q) ↦
          let test = λ (u : FdTable). u.pid == pid in
          let shut = λ (tab : FdTable). record tab {
            entries = map (λ (e : Entry). record e { used = false }) tab.entries;
          } in
          let same = find_index-modify test shut t ts no_table refl in
          let self = get_or-modify_self shut t ts no_table (find_index-lt test ts t q) in
          ground (arith, q, same, self, all_closed (table_at ts t).entries)
    ]

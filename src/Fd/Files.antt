-- ===== src/Fd/Files.antt =====
-- The operations of src/fd.c that read and position files. `fd_open`, `fd_read_chunk` and `fd_seek`
-- act for process 1, as `current_pid` of the source says.
use tabla_rusa_os.Base.{
  ℕ, ◌+◌, ◌-◌, ◌∷◌, [], Text, Bool, false, not, none, some, ◌==◌, ◌&&◌, ◌||◌, if◌then◌else◌, ltb,
  length, take, drop, str_eq, str_copy, codes, Result, ok, err, is_ok,
}
use tabla_rusa_os.Fs.Node.{Fs}
use tabla_rusa_os.Fs.Ops.{read, stat, touch, can_read, can_write}
use tabla_rusa_os.Vfs.{vfs_can_write}
use tabla_rusa_os.Security.Table.{Sec, security_can_write}
use tabla_rusa_os.Fd.Table.{
  Entry, Tables, entry_at, modify_entry, fd_find_for_pid, alloc_for_pid, path_max, mode_max,
}

abbrev pub current_pid : ℕ
current_pid = 1

abbrev pub is_socket : Entry → Bool
is_socket n = str_eq n.type (codes "socket")

abbrev pub fd_can_write_mode : Text → Bool
fd_can_write_mode [] = false
fd_can_write_mode (c ∷ []) = (c == b'w') || (c == b'a')
fd_can_write_mode (c ∷ d ∷ cs) = (c == b'w') || ((c == b'a') || ((c == b'r') && (d == b'w')))

-- What `fd_open_for_pid` sets in the entry that was taken.
abbrev pub as_file : Text → Text → Entry → Entry
as_file path mode n = record n {
  type = codes "file";
  offset = 0;
  path = str_copy path path_max;
  mode = str_copy mode mode_max;
}

-- The end of `fd_open_for_pid`.
unfoldable pub open_entry : ℕ → Text → Text → Sec → Tables → Result ℕ × (Sec × Tables)
open_entry pid path mode sec ts =
    let made = alloc_for_pid pid ts in
    elim made.0 [
      | none ↦ (err 4, (sec, made.1))
      | some (t, e) ↦ (ok e, (sec, modify_entry (as_file path mode) t e made.1))
    ]

-- `fd_open_for_pid` for a mode that writes, behind the check of src/vfs.c.
unfoldable pub open_writable : ℕ → Text → Text → Sec → Tables → Result ℕ × (Sec × Tables)
open_writable pid path mode sec ts =
    let asked = security_can_write path sec in
    let touched = touch path asked.1.fs in
    let sec' = record (asked.1) { fs = touched.1 } in
    if not asked.0
    then (err 3, (asked.1, ts))
    else if is_ok (stat asked.1.fs path) && not (can_write asked.1.fs path)
    then (err 5, (asked.1, ts))
    else if is_ok touched.0
    then open_entry pid path mode sec' ts
    else (err 1, (sec', ts))

unfoldable pub fd_open_for_pid : ℕ → Text → Text → Sec → Tables → Result ℕ × (Sec × Tables)
unfolding open_writable
fd_open_for_pid pid path mode sec ts =
    if fd_can_write_mode mode
    then if not (vfs_can_write path) then (err 2, (sec, ts)) else open_writable pid path mode sec ts
    else if not (can_read sec.fs path)
    then (err 5, (sec, ts))
    else if is_ok (read sec.fs path)
    then open_entry pid path mode sec ts
    else (err 1, (sec, ts))

-- `entry->offset` where it is read: not past the end.
abbrev pub position : Entry → Text → ℕ
position n text = if ltb (length text) n.offset then length text else n.offset

-- The bytes go through `out`, a buffer of `max` bytes; the number returned is their length.
unfoldable pub fd_read_chunk : ℕ → ℕ → Fs → Tables → Result Text × Tables
fd_read_chunk fd max fs ts = elim (fd_find_for_pid current_pid fd ts) [
  | none ↦ (err 1, ts)
  | some (t, e) ↦
      let n = entry_at ts t e in
      if max == 0
      then (err 1, ts)
      else if is_socket n
      then (err 2, ts)
      else if not (can_read fs n.path)
      then (err 4, ts)
      else elim (read fs n.path) [
        | err k ↦ (err 3, ts)
        | ok text ↦
            let at = position n text in
            let chunk = take (max - 1) (drop at text) in
            (ok chunk, modify_entry (λ (m : Entry). record m { offset = at + length chunk }) t e ts)
      ]
]

unfoldable pub fd_seek : ℕ → ℕ → Fs → Tables → Result (Unit {0}) × Tables
fd_seek fd offset fs ts = elim (fd_find_for_pid current_pid fd ts) [
  | none ↦ (err 1, ts)
  | some (t, e) ↦
      if is_socket (entry_at ts t e) then (err 1, ts) else elim (read fs (entry_at ts t e).path) [
        | err k ↦ (err 2, ts)
        | ok text ↦ (
          ok tt,
          modify_entry
              (λ (m : Entry). record m {
                offset = if ltb (length text) offset then length text else offset;
              })
              t e ts,
        )
      ]
]

-- ===== src/Tests/Process.antt =====
-- Tests and witnesses for the process table of src/process.c and the descriptors of src/fd.c.
use tabla_rusa_os.Base.{
  ℕ, zero, suc, ◌<◌, ◌≤◌, ◌≡◌, refl, Text, true, false, some, [], ◌∷◌, codes, replicate, ok, err,
  arith, length, str_copy, str_eq, find_index, get_or, get_or-replicate,
}
use tabla_rusa_os.Fd.Table.{Tables, no_entry, init_tables, fd_count_for_pid, proc_max, per_proc_max}
use tabla_rusa_os.Process.Table.{
  running, terminated, Sys, no_proc, row, boot_procs, proc_at, process_init, process_max,
  process_name_len, has_name, ipc_max, pipe_max, handle_max, process_find, process_find_pid,
  free_process_slot, is_terminated,
}
use tabla_rusa_os.Process.Lifecycle.{
  process_end, process_kill, process_yield, yield_to, can_run, process_create, process_spawn,
}
use tabla_rusa_os.Process.Channels.{
  no_message, no_pipe, no_handle, pipe_create, pipe_find, pipe_write, pipe_read, ipc_send, ipc_recv,
  process_handle_open,
}
use tabla_rusa_os.Process.Ending.{process_end-protected, process_kill-releases}
use tabla_rusa_os.Process.Yielding.{yield-selects, yield-starves}
use tabla_rusa_os.Process.Numbers.{IsNumbered, create-IsNumbered, spawn-long}
use tabla_rusa_os.Process.Delivery.{pipe_write-read, ipc_send-recv}

abbrev tables : Tables
tables = replicate proc_max (record { pid = 0; entries = replicate per_proc_max no_entry })

abbrev powered : Sys
powered = record {
  procs = boot_procs;
  messages = replicate ipc_max no_message;
  pipes = replicate pipe_max no_pipe;
  handles = replicate handle_max no_handle;
  current_pid = 1;
  next_pid = 6;
  next_pipe_id = 1;
  next_handle_id = 1;
  fds = init_tables 0 tables;
}

unfoldable boot_sys : Sys
unfolding process_init init_tables process_find process_find_pid free_process_slot str_eq find_index
    process_kill process_end pipe_create pipe_find pipe_write ipc_send process_handle_open
boot_sys = process_init powered

process_end-protected_example :
    proc_at (process_end terminated (codes "kernel") boot_sys).1 0 ≡ proc_at boot_sys 0
unfolding boot_sys
process_end-protected_example = process_end-protected terminated (codes "kernel") boot_sys 0 refl

process_kill-releases_example :
    (i : ℕ) × (process_find (codes "logger") boot_sys ≡ some i)
    × (is_terminated (proc_at (process_kill (codes "logger") boot_sys).1 i) ≡ true)
    × (fd_count_for_pid (proc_at boot_sys i).pid (process_kill (codes "logger") boot_sys).1.fds ≡ 0)
unfolding boot_sys
process_kill-releases_example = process_kill-releases (codes "logger") boot_sys refl

yield-selects_example :
    (j : ℕ) × (can_run (proc_at boot_sys j) ≡ true)
    × ((proc_at boot_sys j).pid < process_max)
    × (process_yield boot_sys ≡ yield_to j boot_sys)
unfolding boot_sys
yield-selects_example = yield-selects boot_sys 0 refl (omega arith) (omega arith)

-- A table in which only the process of number 12 can run.
abbrev late : Sys
late = record powered {
  procs = row (codes "worker") 12 1 true running (codes "user") 40 64 false (codes "io") ∷ [];
}

late_only : (i : ℕ) → can_run (proc_at late i) ≡ true → process_max ≤ (proc_at late i).pid
late_only zero h = omega arith
late_only (suc i) h = cc

yield-starves_example : process_yield late ≡ late
yield-starves_example = yield-starves late late_only

-- A table of one process and one free slot.
abbrev small : Sys
small = record powered {
  procs =
      row (codes "kernel") 0 0 true running (codes "kernel") 100 512 true (codes "system")
      ∷ no_proc
      ∷ [];
}

small_below : (i : ℕ) → has_name (proc_at small i) ≡ true → (proc_at small i).pid < 6
small_below zero h = omega arith
small_below (suc zero) h = cc
small_below (suc (suc i)) h = cc

small_zero : (i : ℕ) → has_name (proc_at small i) ≡ true → i ≡ 0
small_zero zero h = refl
small_zero (suc zero) h = cc
small_zero (suc (suc i)) h = cc

small_short : (i : ℕ) (n : Text) → (proc_at small i).name ≡ some n → length n < process_name_len
small_short zero n e = ground (arith, e)
small_short (suc zero) n e = cc
small_short (suc (suc i)) n e = cc

small-IsNumbered : IsNumbered small
small-IsNumbered = record {
  below = small_below;
  apart = λ i j h k e. ground (arith, small_zero i h, small_zero j k);
  short = small_short;
}

create-IsNumbered_example :
    IsNumbered (process_create (codes "worker") (codes "user") (codes "io") 30 small).1
create-IsNumbered_example =
    create-IsNumbered (codes "worker") (codes "user") (codes "io") 30 small (omega arith)
      small-IsNumbered

abbrev long_name : Text
long_name = codes "a-process-with-a-long-name"

spawn-long_example :
    ((process_spawn long_name small).0 ≡ err 1)
    × ((proc_at (process_spawn long_name small).1 1).name
        ≡ some (str_copy long_name process_name_len))
unfolding free_process_slot find_index
spawn-long_example = spawn-long long_name small 1 small-IsNumbered (omega arith) (omega arith) refl

unfoldable piped : Sys
unfolding boot_sys pipe_create
piped = (pipe_create 1 boot_sys).1

pipe_write-read_example :
    let written = (pipe_write 1 (codes "hello") piped).1 in
    let got = pipe_read 1 4 written in
    (got.0 ≡ ok (codes "hel")) × ((pipe_read 1 4 got.1).0 ≡ err 2)
unfolding piped pipe_write pipe_find str_copy
pipe_write-read_example = pipe_write-read 1 (codes "hello") 4 piped (omega arith) refl

ipc_send-recv_example :
    let got = ipc_recv 3 (ipc_send 1 3 (codes "hello") boot_sys).1 in
    (got.0 ≡ ok (record { from_pid = 1; to_pid = 3; payload = codes "hello"; used = true }))
    × ((ipc_recv 3 got.1).0 ≡ err 2)
unfolding boot_sys str_copy
ipc_send-recv_example = ipc_send-recv 1 3 (codes "hello") boot_sys refl refl

no_open_handles :
    (i : ℕ)
    → (get_or (replicate handle_max no_handle) i no_handle).used ≡ true
    → (get_or (replicate handle_max no_handle) i no_handle).id < 1
no_open_handles i h = rw (get_or-replicate handle_max i no_handle) (omega arith)

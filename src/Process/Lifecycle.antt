-- ===== src/Process/Lifecycle.antt =====
-- The operations of src/process.c on the process table. Texts that the callers pass are not null.
use tabla_rusa_os.Base.{
  ℕ, zero, suc, ◌+◌, ◌%◌, Text, Bool, true, false, not, Option, none, some, ◌==◌, ◌&&◌, ◌||◌,
  if◌then◌else◌, find_index, str_copy, codes, is_empty, Result, ok, err, add32, as_int,
}
use tabla_rusa_os.Fd.Table.{fd_close_process, fd_inherit}
use tabla_rusa_os.Process.Table.{
  State, new, ready, running, sleeping, blocked, terminated, Proc, Sys, proc_at, modify_proc,
  is_named, has_name, process_find, process_find_pid, free_process_slot, process_max,
  process_name_len, kind_len, workload_len,
}

-- An update of the live process of that name, if there is one.
abbrev pub on_found : (Proc → Proc) → Text → Sys → Sys
on_found f name s = elim (process_find name s) [ none ↦ s | some i ↦ modify_proc f i s ]

-- The same with the return values 0 and -1.
abbrev pub try_found : (Proc → Proc) → Text → Sys → Result (Unit {0}) × Sys
try_found f name s = elim (process_find name s) [
  | none ↦ (err 1, s)
  | some i ↦ (ok tt, modify_proc f i s)
]

abbrev pub is_running : State → Bool
is_running st = elim st [ running ↦ true | _ ↦ false ]

unfoldable pub process_set_running : Text → Bool → Sys → Sys
process_set_running name runs s =
    on_found
      (λ (p : Proc). record p {
        runs = runs;
        state = if runs then running else if is_running p.state then ready else p.state;
      })
      name s

unfoldable pub process_set_compute : Text → Text → ℕ → ℕ → Sys → Sys
process_set_compute name workload priority cpu_hint s =
    on_found
      (λ (p : Proc). record p { workload = workload; priority = priority; cpu_hint = cpu_hint })
      name s

unfoldable pub process_tick : Text → ℕ → Sys → Sys
process_tick name ticks s = on_found (λ (p : Proc). record p { ticks = add32 p.ticks ticks }) name s

abbrev pub switched : ℕ → Proc → Proc
switched tick p = record p {
  switches = add32 p.switches 1;
  last_run_tick = tick;
  runs = true;
  state = running;
}

unfoldable pub process_context_switch : Text → ℕ → Sys → Sys
process_context_switch name tick s = elim (process_find name s) [
  | none ↦ s
  | some i ↦ record (modify_proc (switched tick) i s) { current_pid = (proc_at s i).pid }
]

-- Kernel and shell are neither stopped nor killed.
abbrev pub is_protected : Proc → Bool
is_protected p = is_named (codes "kernel") p || is_named (codes "shell") p

-- `process_stop` and `process_kill`, which leave the process in different states.
unfoldable pub process_end : State → Text → Sys → Result (Unit {0}) × Sys
process_end st name s = elim (process_find name s) [
  | none ↦ (err 1, s)
  | some i ↦ if is_protected (proc_at s i) then (err 1, s) else (
    ok tt,
    modify_proc (λ (p : Proc). record p { runs = false; state = st }) i
        (record s { fds = (fd_close_process (proc_at s i).pid s.fds).1 }),
  )
]

unfoldable pub process_stop : Text → Sys → Result (Unit {0}) × Sys
unfolding process_end
process_stop name s = process_end ready name s

unfoldable pub process_kill : Text → Sys → Result (Unit {0}) × Sys
unfolding process_end
process_kill name s = process_end terminated name s

-- The row that `process_create` writes.
abbrev pub created : Text → Text → Text → ℕ → ℕ → ℕ → Proc
created name kind workload priority pid parent = record {
  name = some (str_copy name process_name_len);
  pid = pid;
  parent_pid = parent;
  runs = false;
  state = new;
  kind = str_copy (if is_empty kind then codes "user" else kind) kind_len;
  priority = if priority == 0 then 40 else priority;
  cpu_hint = 0;
  memory_kib = 64;
  handle_count = 0;
  background = false;
  workload = str_copy (if is_empty workload then codes "interactive" else workload) workload_len;
  ticks = 0;
  switches = 0;
  last_run_tick = 0;
}

unfoldable pub process_create : Text → Text → Text → ℕ → Sys → Result ℕ × Sys
process_create name kind workload priority s =
    if is_empty name then (err 1, s) else elim (process_find name s) [
      | some i ↦ (err 1, s)
      | none ↦ elim (free_process_slot s) [
        | none ↦ (err 2, s)
        | some i ↦ (
          as_int s.next_pid,
          record (modify_proc
              (λ (p : Proc). created name kind workload priority s.next_pid s.current_pid) i s) {
                next_pid = add32 s.next_pid 1;
              },
        )
      ]
    ]

-- The second half of `process_spawn`, for a process that is found.
unfoldable pub start_found : Text → Sys → Result (Unit {0}) × Sys
start_found name s = elim (process_find name s) [
  | none ↦ (err 1, s)
  | some i ↦ (
    ok tt,
    modify_proc (λ (p : Proc). record p { runs = true; state = ready }) i
        (record s { fds = (fd_inherit 1 (proc_at s i).pid s.fds).1 }),
  )
]

unfoldable pub process_spawn : Text → Sys → Result (Unit {0}) × Sys
unfolding start_found
process_spawn name s = elim (process_find name s) [
  | some i ↦ start_found name s
  | none ↦
      let made = process_create name (codes "user") (codes "interactive") 40 s in
      elim made.0 [ err k ↦ (err k, made.1) | ok pid ↦ start_found name made.1 ]
]

unfoldable pub process_sleep : Text → Sys → Result (Unit {0}) × Sys
process_sleep name s = elim (process_find name s) [
  | none ↦ (err 1, s)
  | some i ↦
      if is_named (codes "kernel") (proc_at s i)
      then (err 1, s)
      else (ok tt, modify_proc (λ (p : Proc). record p { runs = false; state = sleeping }) i s)
]

unfoldable pub process_wake : Text → Sys → Result (Unit {0}) × Sys
process_wake name s = try_found (λ (p : Proc). record p { runs = true; state = ready }) name s

unfoldable pub process_set_priority : Text → ℕ → Sys → Result (Unit {0}) × Sys
process_set_priority name priority s =
    try_found (λ (p : Proc). record p { priority = priority }) name s

unfoldable pub process_set_memory : Text → ℕ → Sys → Result (Unit {0}) × Sys
process_set_memory name memory s = try_found (λ (p : Proc). record p { memory_kib = memory }) name s

unfoldable pub process_set_background : Text → Bool → Sys → Result (Unit {0}) × Sys
process_set_background name background s =
    try_found (λ (p : Proc). record p { background = background }) name s

-- The states in which `process_yield` passes a process over.
abbrev pub is_parked : State → Bool
is_parked st = elim st [ sleeping ↦ true | blocked ↦ true | terminated ↦ true | _ ↦ false ]

abbrev pub can_run : Proc → Bool
can_run p = has_name p && (p.runs && not (is_parked p.state))

-- The inner loop of `process_yield`: a runnable process of that number.
unfoldable pub runnable_pid : ℕ → Sys → Option ℕ
runnable_pid pid s = find_index (λ (p : Proc). can_run p && (p.pid == pid)) s.procs

abbrev pub yield_to : ℕ → Sys → Sys
yield_to i s = record (modify_proc (λ (p : Proc). record p { switches = add32 p.switches 1 }) i s) {
  current_pid = (proc_at s i).pid;
}

-- The outer loop, `n` rounds from `step` on.
unfoldable pub yield_loop : ℕ → ℕ → ℕ → Sys → Sys
yield_loop zero step start s = s
yield_loop (suc n) step start s =
    let next = ((start + 1 + step) % 0x1_0000_0000) % process_max in
    elim (runnable_pid next s) [ none ↦ yield_loop n (step + 1) start s | some i ↦ yield_to i s ]

unfoldable pub process_yield : Sys → Sys
unfolding yield_loop
process_yield s = yield_loop process_max 0 s.current_pid s

unfoldable pub process_get_current : Sys → Option ℕ
process_get_current s = elim (process_find_pid s.current_pid s) [
  | some i ↦ some i
  | none ↦ process_find (codes "shell") s
]

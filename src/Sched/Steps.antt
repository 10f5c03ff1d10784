-- ===== src/Sched/Steps.antt =====
-- The operations of src/sched.c. The code behind `external_entry` is a parameter: what a call of
-- the function at an address does.
use tabla_rusa_os.Base.{
  ℕ, zero, suc, ◌+◌, ◌%◌, Text, true, false, not, none, some, [], ◌==◌, ◌&&◌, if◌then◌else◌, ltb,
  leb, codes, add32, str_copy, is_empty, Result, ok, err,
}
use tabla_rusa_os.Fs.Ops.{append_line}
use tabla_rusa_os.Process.Table.{Sys}
use tabla_rusa_os.Process.Lifecycle.{
  process_set_running, process_context_switch, process_tick, process_spawn, process_set_background,
  process_set_priority,
}
use tabla_rusa_os.Jobs.Table.{jobs_account}
use tabla_rusa_os.Sched.Table.{
  ready, running, sleeping, blocked, Entry, shell, logger, network, gui, compute, idle, Task, World,
  task_at, modify_task, is_ready, is_running, is_sleeping, find_task, free_task_slot, task_setup,
  task_max, name_len,
}

-- A call with `tasks[i].name`; the functions called do nothing for a null name.
abbrev pub with_name : Task → (Text → Sys → Sys) → World → World
with_name t f w = elim t.name [ none ↦ w | some n ↦ record w { sys = f n w.sys } ]

abbrev pub account : Text → ℕ → World → World
account name ticks w = record w { jobs = jobs_account name ticks w.jobs }

abbrev pub advance : ℕ → ℕ → World → World
advance n id w =
    modify_task (λ (t : Task). record t { ctx = record (t.ctx) { pc = add32 t.ctx.pc n } }) id w

-- The functions `task_shell` to `task_idle`.
unfoldable pub run_entry : Entry → ℕ → World → World
run_entry shell id w = account (codes "interactive") 1 (advance 1 id w)
run_entry logger id w = account (codes "io") 1 (advance 1 id w)
run_entry network id w = account (codes "network") 1 (advance 1 id w)
run_entry gui id w = account (codes "gui") 1 (advance 1 id w)
run_entry compute id w = account (codes "scientific") (task_at w id).quantum (advance 2 id w)
run_entry idle id w = account (codes "idle") 1 (advance 1 id w)

-- One round of `wake_due_tasks`.
unfoldable pub wake_due : ℕ → World → World
wake_due i w =
    let t = task_at w i in
    if is_sleeping t && (not (t.wake_tick == 0) && leb t.wake_tick w.ticks)
    then with_name t (λ n s. process_set_running n true s)
        (modify_task (λ (u : Task). record u { wake_tick = 0; state = ready }) i w)
    else w

-- The rounds from `i` on.
unfoldable pub wake_loop : ℕ → ℕ → World → World
wake_loop zero i w = w
wake_loop (suc n) i w = wake_loop n (i + 1) (wake_due i w)

unfoldable pub wake_due_tasks : World → World
unfolding wake_loop
wake_due_tasks w = wake_loop task_max 0 w

-- The first lines of `run_task`, up to `total_switches++`.
unfoldable pub begin_run : ℕ → World → World
begin_run id w =
    record (modify_task
      (λ (t : Task). record t {
        state = running;
        runs = add32 t.runs 1;
        ticks = add32 t.ticks t.quantum;
        ctx = record (t.ctx) { budget = t.quantum };
      })
      id w) { total_switches = add32 w.total_switches 1 }

-- The last lines of `run_task`.
unfoldable pub end_run : ℕ → World → World
end_run id w =
    if is_running (task_at w id)
    then modify_task (λ (t : Task). record t { state = ready }) id w
    else w

-- The bookkeeping of `run_task` between them.
unfoldable pub book_run : ℕ → World → World
book_run id w =
    let t = task_at w id in
    account (codes "scheduler") t.quantum
      (with_name t (λ n s. process_tick n t.quantum (process_context_switch n w.ticks s)) w)

module _ (external : ℕ → Text → ℕ → World → World) where
  -- The call through `external_entry`.
  unfoldable pub call_external : ℕ → World → World
  call_external id w =
      let t = task_at w id in
      elim t.external_entry [
        | none ↦ w
        | some f ↦ external f (elim t.name [ none ↦ [] | some n ↦ n ]) t.quantum w
      ]

  unfoldable pub call_entry : ℕ → World → World
  call_entry id w = elim (task_at w id).entry [ none ↦ w | some e ↦ run_entry e id w ]

  unfoldable pub run_task : ℕ → World → World
  run_task id w = end_run id (call_external id (call_entry id (book_run id (begin_run id w))))

  -- The loop of `sched_yield` with `n` tries left. `current_task` moves on in every round.
  unfoldable pub yield_loop : ℕ → World → World
  yield_loop zero w = w
  yield_loop (suc n) w =
      let next = (w.current_task + 1) % task_max in
      let w' = record w { current_task = next } in
      elim (is_ready (task_at w' next)) [ true ↦ run_task next w' | false ↦ yield_loop n w' ]

  unfoldable pub sched_yield : World → World
  sched_yield w = yield_loop task_max (wake_due_tasks w)

  unfoldable pub sched_on_timer : World → World
  sched_on_timer w =
      let w' = wake_due_tasks (record w { divisor = add32 w.divisor 1 }) in
      if ltb w'.divisor 10 then w' else sched_yield (record w' { divisor = 0 })

  -- `timer_handler` of src/timer.c.
  unfoldable pub timer_handler : World → World
  timer_handler w = sched_on_timer (record w { ticks = add32 w.ticks 1 })

-- The last loop of `sched_init`, from slot `i` on. `task_names` is overwritten before it is read.
unfoldable pub clear_tasks : ℕ → ℕ → World → World
clear_tasks zero i w = w
clear_tasks (suc n) i w = clear_tasks n (i + 1) (
    modify_task
      (λ (t : Task). record t { name = none; state = blocked; entry = none; external_entry = none })
      i w)

unfoldable pub set_up_tasks : World → World
set_up_tasks w = task_setup 5 (codes "idle") ready 1 (some idle) (
    task_setup 4 (codes "compute") ready 8 (some compute) (
      task_setup 3 (codes "gui") sleeping 3 (some gui) (
        task_setup 2 (codes "network") sleeping 2 (some network) (
          task_setup 1 (codes "logger") ready 2 (some logger)
            (task_setup 0 (codes "shell") ready 4 (some shell) w)))))

unfoldable pub sched_init : World → World
unfolding set_up_tasks clear_tasks
sched_init w =
    let w' = record (clear_tasks 4 6 (set_up_tasks w)) { current_task = 0; total_switches = 0 } in
    record w' {
      fs =
          (append_line (codes "/var/log/system.log")
            (codes "sched: timer-driven task contexts online") w'.fs).1;
    }

-- A registration under a name that a task has, or in a free slot. The function is not null.
unfoldable pub sched_register_task : Text → ℕ → ℕ → World → Result (Unit {0}) × World
sched_register_task name quantum f w =
    let q = if quantum == 0 then 1 else quantum in
    if is_empty name then (err 1, w) else elim (find_task name w) [
      | some i ↦
          let w' =
            modify_task
              (λ (t : Task). record t { quantum = q; external_entry = some f; state = ready }) i
              w in
          (ok tt, record w' { sys = (process_spawn name w'.sys).1 })
      | none ↦ elim (free_task_slot w) [
        | none ↦ (err 2, w)
        | some id ↦
            let w' =
              modify_task (λ (t : Task). record t { external_entry = some f }) id
                (task_setup id (str_copy name name_len) ready q none w) in
            let sys' = (process_spawn name w'.sys).1 in
            (ok tt, record w' { sys = (process_set_background name true sys').1 })
      ]
    ]

-- A change of the task of that name and of the process of that name; 0 or -1.
abbrev pub on_task : (Task → Task) → (Sys → Sys) → Text → World → Result (Unit {0}) × World
on_task f g name w = elim (find_task name w) [
  | none ↦ (err 1, w)
  | some i ↦ let w' = modify_task f i w in (ok tt, record w' { sys = g w'.sys })
]

unfoldable pub sched_task_ready : Text → World → Result (Unit {0}) × World
sched_task_ready name w =
    on_task (λ (t : Task). record t { state = ready }) (process_set_running name true) name w

-- `sched wake NAME`
unfoldable pub sched_wake : Text → World → Result (Unit {0}) × World
sched_wake name w =
    on_task (λ (t : Task). record t { state = ready; wake_tick = 0 })
      (process_set_running name true) name w

-- `sched sleep NAME TICKS`
unfoldable pub sched_sleep : Text → ℕ → World → Result (Unit {0}) × World
sched_sleep name ticks w =
    on_task
      (λ (t : Task). record t {
        state = sleeping;
        wake_tick = if ticks == 0 then 0 else add32 w.ticks ticks;
      })
      (process_set_running name false) name w

-- `sched block NAME`
unfoldable pub sched_block : Text → World → Result (Unit {0}) × World
sched_block name w =
    on_task (λ (t : Task). record t { state = blocked }) (process_set_running name false) name w

-- `sched quantum NAME N`
unfoldable pub sched_quantum : Text → ℕ → World → Result (Unit {0}) × World
sched_quantum name q w =
    on_task (λ (t : Task). record t { quantum = if q == 0 then 1 else q }) (λ s. s) name w

-- The process gets the priority as it is passed.
unfoldable pub scheduler_set_priority : Text → ℕ → World → Result (Unit {0}) × World
scheduler_set_priority name priority w =
    on_task (λ (t : Task). record t { quantum = if priority == 0 then 1 else priority })
      (λ s. (process_set_priority name priority s).1) name w

unfoldable pub sched_task_runs : Text → World → ℕ
sched_task_runs name w = elim (find_task name w) [ none ↦ 0 | some i ↦ (task_at w i).runs ]

-- ===== src/Sched/Choice.antt =====
-- Which task `sched_yield` of src/sched.c runs, and what a run does to its row.
use tabla_rusa_os.Base.{
  ℕ, zero, suc, ◌+◌, ◌-◌, ◌%◌, ◌≤◌, ◌<◌, ◌≡◌, ◌≢◌, Text, true, false, none, arith, Bool-cases, inl,
  inr, Option-cases, length, length-modify, get_or-modify_self, add32, subst,
}
use tabla_rusa_os.Sched.Table.{
  ready, running, Entry, Task, World, task_at, is_ready, task_max, no_task,
}
use tabla_rusa_os.Sched.Steps.{
  wake_due_tasks, yield_loop, run_task, sched_yield, begin_run, book_run, call_entry, call_external,
  end_run, run_entry,
}
use tabla_rusa_os.Sched.Waking.{wake_loop-keeps}

-- How many tasks the round robin passes over on its way from `from` to `to`.
abbrev pub distance : ℕ → ℕ → ℕ
distance from to = (to + 19 - from % 10) % 10

-- What the bookkeeping and the built-in functions leave alone in a task's row.
abbrev SameRun : ℕ → World → World → Type 0
SameRun id w w' =
    ((task_at w' id).runs ≡ (task_at w id).runs)
    × ((task_at w' id).ticks ≡ (task_at w id).ticks)
    × ((task_at w' id).state ≡ (task_at w id).state)
    × ((task_at w' id).external_entry ≡ (task_at w id).external_entry)
    × (w'.total_switches ≡ w.total_switches)
    × (length w'.tasks ≡ length w.tasks)

book_run-SameRun : (id : ℕ) (w : World) → SameRun id w (book_run id w)
unfolding book_run
book_run-SameRun id w = ground arith

abbrev stepped : ℕ → Task → Task
stepped n t = record t { ctx = record (t.ctx) { pc = add32 t.ctx.pc n } }

run_entry-SameRun :
    (e : Entry) (id : ℕ) (w : World) → id < length w.tasks → SameRun id w (run_entry e id w)
unfolding run_entry
run_entry-SameRun e id w h = ground (
  arith,
  get_or-modify_self (stepped 1) id w.tasks no_task h,
  get_or-modify_self (stepped 2) id w.tasks no_task h,
  length-modify (stepped 1) id w.tasks,
  length-modify (stepped 2) id w.tasks,
)

begin_run-task :
    (id : ℕ) (w : World)
    → id < length w.tasks
    → let t = task_at w id in
      let t' = task_at (begin_run id w) id in
      (t'.runs ≡ add32 t.runs 1)
      × (t'.ticks ≡ add32 t.ticks t.quantum)
      × (t'.state ≡ running)
      × (t'.external_entry ≡ t.external_entry)
      × ((begin_run id w).total_switches ≡ add32 w.total_switches 1)
      × (length (begin_run id w).tasks ≡ length w.tasks)
unfolding begin_run
begin_run-task id w h =
    ground (arith, get_or-modify_self begun id w.tasks no_task h, length-modify begun id w.tasks)
  where
    begun : Task → Task
    begun t = record t {
      state = running;
      runs = add32 t.runs 1;
      ticks = add32 t.ticks t.quantum;
      ctx = record (t.ctx) { budget = t.quantum };
    }

end_run-task :
    (id : ℕ) (w : World)
    → id < length w.tasks
    → (task_at w id).state ≡ running
    → ((task_at (end_run id w) id).runs ≡ (task_at w id).runs)
      × ((task_at (end_run id w) id).ticks ≡ (task_at w id).ticks)
      × ((task_at (end_run id w) id).state ≡ ready)
      × ((end_run id w).total_switches ≡ w.total_switches)
unfolding end_run
end_run-task id w h r =
    ground
      (arith, get_or-modify_self (λ (t : Task). record t { state = ready }) id w.tasks no_task h)

module _ (external : ℕ → Text → ℕ → World → World) where
  loop-nearest :
      (n : ℕ) (w : World) (i : ℕ)
      → i < task_max
      → is_ready (task_at w i) ≡ true
      → distance w.current_task i < n
      → (j : ℕ) × (j < task_max)
        × (is_ready (task_at w j) ≡ true)
        × (distance w.current_task j ≤ distance w.current_task i)
        × (yield_loop external n w ≡ run_task external j (record w { current_task = j }))
  unfolding yield_loop
  loop-nearest zero w i h r d = absurd (omega arith)
  loop-nearest (suc n) w i h r d =
      let next = (w.current_task + 1) % task_max in
      elim (Bool-cases (is_ready (task_at w next))) [
        | inl q ↦ (next, omega arith, q, omega arith, ground arith)
        | inr q ↦
            let ne : i ≢ next = λ e. cc (subst (λ k. is_ready (task_at w k) ≡ true) e r) in
            let (j, a, b, c, e) =
              loop-nearest n (record w { current_task = next }) i h r (omega arith) in
            (j, a, b, omega arith, ground arith)
      ]

  -- If a task is ready once the due ones are woken, `sched_yield` runs a ready task, and one that
  -- the round robin reaches no later than that task: nobody is overtaken by a task further on.
  pub yield-nearest :
      (w : World) (i : ℕ)
      → i < task_max
      → is_ready (task_at (wake_due_tasks w) i) ≡ true
      → let w' = wake_due_tasks w in
        (j : ℕ) × (j < task_max)
        × (is_ready (task_at w' j) ≡ true)
        × (distance w.current_task j ≤ distance w.current_task i)
        × (sched_yield external w ≡ run_task external j (record w' { current_task = j }))
  unfolding sched_yield wake_due_tasks
  yield-nearest w i h r =
      let kept = wake_loop-keeps task_max 0 w in
      let (j, a, b, c, e) = loop-nearest task_max (wake_due_tasks w) i h r (omega arith) in
      (j, a, b, omega (arith, kept), e)

  loop-idle :
      (n : ℕ) (w : World)
      → ((i : ℕ) → i < task_max → is_ready (task_at w i) ≡ false)
      → w.current_task < task_max
      → yield_loop external n w ≡ record w { current_task = (w.current_task + n) % task_max }
  unfolding yield_loop
  loop-idle zero w none_ready h =
      let e : w.current_task ≡ (w.current_task + 0) % task_max = omega arith in
      λ i. record w { current_task = e i }
  loop-idle (suc n) w none_ready h =
      let next = (w.current_task + 1) % task_max in
      ground (arith, none_ready next, loop-idle n (record w { current_task = next }) none_ready)

  -- With no task ready once the due ones are woken, `sched_yield` comes round to the task where it
  -- was, and runs nothing.
  pub yield-idle :
      (w : World)
      → w.current_task < task_max
      → ((i : ℕ) → i < task_max → is_ready (task_at (wake_due_tasks w) i) ≡ false)
      → sched_yield external w ≡ wake_due_tasks w
  unfolding sched_yield wake_due_tasks
  yield-idle w h none_ready =
      let kept = wake_loop-keeps task_max 0 w in
      ground (arith, kept, loop-idle task_max (wake_due_tasks w) none_ready)

  call_entry-SameRun :
      (id : ℕ) (w : World) → id < length w.tasks → SameRun id w (call_entry external id w)
  unfolding call_entry
  call_entry-SameRun id w h = elim (Option-cases (task_at w id).entry) [
    | inl q ↦ ground (arith, q)
    | inr (e, q) ↦ ground (arith, q, run_entry-SameRun e id w h)
  ]

  call_external-none :
      (id : ℕ) (w : World) → (task_at w id).external_entry ≡ none → call_external external id w ≡ w
  unfolding call_external
  call_external-none id w q = ground (arith, q)

  -- A run of a task that has registered no outside function counts one run and one switch, adds
  -- the quantum to the task's ticks, and leaves the task ready.
  pub run_task-counts :
      (id : ℕ) (w : World)
      → id < length w.tasks
      → (task_at w id).external_entry ≡ none
      → let t = task_at w id in
        let w' = run_task external id w in
        ((task_at w' id).runs ≡ add32 t.runs 1)
        × ((task_at w' id).ticks ≡ add32 t.ticks t.quantum)
        × ((task_at w' id).state ≡ ready)
        × (w'.total_switches ≡ add32 w.total_switches 1)
  unfolding run_task
  run_task-counts id w h free =
      let w1 = begin_run id w in
      let w2 = book_run id w1 in
      let w3 = call_entry external id w2 in
      let w4 = call_external external id w3 in
      let begun = begin_run-task id w h in
      let booked = book_run-SameRun id w1 in
      let called = call_entry-SameRun id w2 (omega (arith, begun, booked)) in
      let called' = call_external-none id w3 (ground (arith, begun, booked, called)) in
      ground (arith, begun, booked, called, called', end_run-task id w4)

-- ===== src/Tests/Sched.antt =====
-- Witnesses for the scheduler of src/sched.c.
use tabla_rusa_os.Base.{
  ℕ, zero, suc, ◌<◌, ◌≤◌, ◌≡◌, refl, Text, true, false, [], arith, replicate, add32, get_or,
}
use tabla_rusa_os.Fs.Node.{blank, max_nodes}
use tabla_rusa_os.Process.Table.{boot_procs}
use tabla_rusa_os.Jobs.Table.{boot_jobs}
use tabla_rusa_os.Sched.Table.{
  Task, ready, blocked, World, no_task, task_at, task_max, task_setup, is_ready,
}
use tabla_rusa_os.Sched.Steps.{
  wake_due_tasks, wake_loop, wake_due, set_up_tasks, clear_tasks, sched_yield, run_task,
}
use tabla_rusa_os.Sched.Waking.{woken, wake_due_tasks-woken}
use tabla_rusa_os.Sched.Choice.{distance, yield-nearest, run_task-counts}

-- No code but the scheduler's own registers here.
abbrev external : ℕ → Text → ℕ → World → World
external f name quantum w = w

abbrev bare : World
bare = record {
  tasks = replicate task_max no_task;
  current_task = 3;
  total_switches = 0;
  divisor = 0;
  ticks = 7;
  stacks = 0x20_0000;
  sys = record {
    procs = boot_procs;
    messages = [];
    pipes = [];
    handles = [];
    current_pid = 1;
    next_pid = 6;
    next_pipe_id = 1;
    next_handle_id = 1;
    fds = [];
  };
  jobs = boot_jobs;
  fs = record { nodes = replicate max_nodes blank; cwd = 0 };
}

unfoldable boot_world : World
unfolding set_up_tasks clear_tasks task_setup wake_due_tasks wake_loop wake_due
boot_world = clear_tasks 4 6 (set_up_tasks bare)

wake_due_tasks-woken_example :
    task_at (wake_due_tasks boot_world) 2 ≡ woken boot_world (task_at boot_world 2)
unfolding boot_world
wake_due_tasks-woken_example = wake_due_tasks-woken 2 boot_world refl (omega arith)

yield-nearest_example :
    let w' = wake_due_tasks boot_world in
    (j : ℕ) × (j < task_max)
    × (is_ready (task_at w' j) ≡ true)
    × (distance 3 j ≤ distance 3 4)
    × (sched_yield external boot_world ≡ run_task external j (record w' { current_task = j }))
unfolding boot_world
yield-nearest_example = yield-nearest external boot_world 4 (omega arith) refl

-- All tasks blocked.
abbrev asleep : Task
asleep = record no_task { state = blocked }

abbrev stopped : World
stopped = record bare { tasks = replicate task_max asleep }

none_ready : (n i : ℕ) → i < n → is_ready (get_or (replicate n asleep) i no_task) ≡ false
none_ready zero i h = absurd (omega arith)
none_ready (suc n) zero h = refl
none_ready (suc n) (suc i) h = none_ready n i (omega arith)

run_task-counts_example :
    let t = task_at boot_world 4 in
    let w' = run_task external 4 boot_world in
    ((task_at w' 4).runs ≡ add32 t.runs 1)
    × ((task_at w' 4).ticks ≡ add32 t.ticks t.quantum)
    × ((task_at w' 4).state ≡ ready)
    × (w'.total_switches ≡ add32 boot_world.total_switches 1)
unfolding boot_world
run_task-counts_example = run_task-counts external 4 boot_world (omega arith) refl

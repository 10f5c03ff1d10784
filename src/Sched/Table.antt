-- ===== src/Sched/Table.antt =====
-- The task table of src/sched.c and the state that its operations reach.
use tabla_rusa_os.Base.{
  ℕ, ◌+◌, ◌*◌, ◌-◌, ◌%◌, Text, Bool, true, false, Option, none, some, List, get_or, modify,
  find_index, str_eq, u32,
}
use tabla_rusa_os.Fs.Node.{Fs}
use tabla_rusa_os.Process.Table.{Sys}
use tabla_rusa_os.Jobs.Table.{Job}

-- `enum sched_state`
pub data State : Type 0 where
  ready running sleeping blocked : State

-- `struct sched_context`
pub record Context : Type 0 where
  pub pc : ℕ
  pub sp : ℕ
  pub stack_base : ℕ
  pub stack_limit : ℕ
  pub budget : ℕ

-- The functions that the field `entry` can point to.
pub data Entry : Type 0 where
  shell logger network gui compute idle : Entry

-- `struct sched_task`. `external_entry` is a pointer to code that registers with the scheduler.
pub record Task : Type 0 where
  pub name : Option Text
  pub state : State
  pub quantum : ℕ
  pub runs : ℕ
  pub ticks : ℕ
  pub wake_tick : ℕ
  pub ctx : Context
  pub entry : Option Entry
  pub external_entry : Option ℕ

-- The static variables of src/sched.c, with the `divisor` of `sched_on_timer`, the ticks of
-- src/timer.c, the address of `stacks`, and the components that the operations call.
pub record World : Type 0 where
  pub tasks : List Task
  pub current_task : ℕ
  pub total_switches : ℕ
  pub divisor : ℕ
  pub ticks : ℕ
  pub stacks : ℕ
  pub sys : Sys
  pub jobs : List Job
  pub fs : Fs

abbrev pub task_max : ℕ
task_max = 10

abbrev pub stack_words : ℕ
stack_words = 64

abbrev pub name_len : ℕ
name_len = 24

abbrev pub no_task : Task
no_task = record {
  name = none;
  state = ready;
  quantum = 0;
  runs = 0;
  ticks = 0;
  wake_tick = 0;
  ctx = record { pc = 0; sp = 0; stack_base = 0; stack_limit = 0; budget = 0 };
  entry = none;
  external_entry = none;
}

abbrev pub task_at : World → ℕ → Task
task_at w i = get_or w.tasks i no_task

abbrev pub modify_task : (Task → Task) → ℕ → World → World
modify_task f i w = record w { tasks = modify f i w.tasks }

abbrev pub is_ready : Task → Bool
is_ready t = elim t.state [ ready ↦ true | _ ↦ false ]

abbrev pub is_running : Task → Bool
is_running t = elim t.state [ running ↦ true | _ ↦ false ]

abbrev pub is_sleeping : Task → Bool
is_sleeping t = elim t.state [ sleeping ↦ true | _ ↦ false ]

abbrev pub is_task : Text → Task → Bool
is_task name t = elim t.name [ none ↦ false | some n ↦ str_eq n name ]

abbrev pub is_unnamed : Task → Bool
is_unnamed t = elim t.name [ none ↦ true | some n ↦ false ]

unfoldable pub find_task : Text → World → Option ℕ
find_task name w = find_index (is_task name) w.tasks

unfoldable pub free_task_slot : World → Option ℕ
free_task_slot w = find_index is_unnamed w.tasks

-- `task_setup`: the addresses are those of the last and the first word of the task's stack.
unfoldable pub task_setup : ℕ → Text → State → ℕ → Option Entry → World → World
task_setup id name state quantum entry w =
    let base = (w.stacks + 4 * (stack_words * id + (stack_words - 1))) % u32 in
    modify_task
      (λ (t : Task). record {
        name = some name;
        state = state;
        quantum = quantum;
        runs = 0;
        ticks = 0;
        wake_tick = 0;
        ctx = record {
          pc = 0;
          sp = base;
          stack_base = base;
          stack_limit = (w.stacks + 4 * (stack_words * id)) % u32;
          budget = quantum;
        };
        entry = entry;
        external_entry = none;
      })
      id w

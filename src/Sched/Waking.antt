-- ===== src/Sched/Waking.antt =====
-- Which tasks `wake_due_tasks` of src/sched.c wakes.
use native.Mathlib.Decide.{ℕ_discrete}
use tabla_rusa_os.Base.{
  ℕ, zero, suc, ◌+◌, ◌≤◌, ◌<◌, ◌≡◌, refl, Bool, not, ◌&&◌, ◌==◌, leb, arith, if◌then◌else◌, length,
  length-modify, get_or-modify_self, get_or-modify_ne, subst,
}
use tabla_rusa_os.Sched.Table.{ready, Task, World, task_at, is_sleeping, task_max, no_task}
use tabla_rusa_os.Sched.Steps.{wake_due, wake_loop, wake_due_tasks}

-- The test of `wake_due_tasks`: asleep, with a wake-up time that has come.
abbrev pub is_due : World → Task → Bool
is_due w t = is_sleeping t && (not (t.wake_tick == 0) && leb t.wake_tick w.ticks)

-- A task that is due becomes ready, with no wake-up time left; any other stays as it is.
abbrev pub woken : World → Task → Task
woken w t = if is_due w t then record t { wake_tick = 0; state = ready } else t

wake_due-tasks :
    (i j : ℕ) (w : World)
    → i < length w.tasks
    → task_at (wake_due i w) j ≡ (if i == j then woken w (task_at w j) else task_at w j)
unfolding wake_due
wake_due-tasks i j w h = elim (ℕ_discrete i j) [
  | yes e ↦
      subst
        (λ k. task_at (wake_due i w) k ≡ (if i == k then woken w (task_at w k) else task_at w k)) e
        (ground (arith, get_or-modify_self wake i w.tasks no_task h))
  | no ne ↦ ground (arith, get_or-modify_ne wake i j w.tasks no_task ne)
]
  where
    wake : Task → Task
    wake u = record u { wake_tick = 0; state = ready }

wake_due-keeps :
    (i : ℕ) (w : World)
    → ((wake_due i w).ticks ≡ w.ticks)
      × (length (wake_due i w).tasks ≡ length w.tasks)
      × ((wake_due i w).current_task ≡ w.current_task)
      × ((wake_due i w).total_switches ≡ w.total_switches)
unfolding wake_due
wake_due-keeps i w = ground (arith, length-modify wake i w.tasks)
  where
    wake : Task → Task
    wake u = record u { wake_tick = 0; state = ready }

wake_loop-tasks :
    (n i j : ℕ) (w : World)
    → i + n ≤ length w.tasks
    → task_at (wake_loop n i w) j
      ≡ (if leb i j && leb (j + 1) (i + n) then woken w (task_at w j) else task_at w j)
unfolding wake_loop
wake_loop-tasks zero i j w h = ground arith
wake_loop-tasks (suc n) i j w h =
    ground
      (arith, wake_due-tasks i j w, wake_due-keeps i w, wake_loop-tasks n (i + 1) j (wake_due i w))

pub wake_loop-keeps :
    (n i : ℕ) (w : World)
    → ((wake_loop n i w).ticks ≡ w.ticks)
      × (length (wake_loop n i w).tasks ≡ length w.tasks)
      × ((wake_loop n i w).current_task ≡ w.current_task)
      × ((wake_loop n i w).total_switches ≡ w.total_switches)
unfolding wake_loop
wake_loop-keeps zero i w = (refl, refl, refl, refl)
wake_loop-keeps (suc n) i w =
    ground (arith, wake_due-keeps i w, wake_loop-keeps n (i + 1) (wake_due i w))

-- In the table of ten tasks, `wake_due_tasks` makes exactly the tasks ready that sleep with a
-- wake-up time that is set and has come, clears that time, and leaves every other task alone.
pub wake_due_tasks-woken :
    (j : ℕ) (w : World)
    → length w.tasks ≡ task_max
    → j < task_max
    → task_at (wake_due_tasks w) j ≡ woken w (task_at w j)
unfolding wake_due_tasks
wake_due_tasks-woken j w e h = ground (arith, wake_loop-tasks task_max 0 j w)

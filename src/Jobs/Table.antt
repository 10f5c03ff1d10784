-- ===== src/Jobs/Table.antt =====
-- The job table of src/jobs.c.
use tabla_rusa_os.Base.{
  ℕ, Text, Bool, true, false, not, Option, none, some, List, [], ◌∷◌, ◌&&◌, modify, get_or,
  find_index, str_eq, codes, add32,
}
use tabla_rusa_os.Process.Table.{Sys}
use tabla_rusa_os.Process.Lifecycle.{process_set_running, process_tick}

-- `struct job_info`
pub record Job : Type 0 where
  pub active : Bool
  pub name : Text
  pub class_name : Text
  pub priority : ℕ
  pub ticks : ℕ
  pub state : Text

abbrev pub job_max : ℕ
job_max = 6

abbrev pub no_job : Job
no_job = record { active = false; name = []; class_name = []; priority = 0; ticks = 0; state = [] }

abbrev pub boot_jobs : List Job
boot_jobs =
    record {
      active = true;
      name = codes "shell-repl";
      class_name = codes "interactive";
      priority = 40;
      ticks = 0;
      state = codes "running";
    }
    ∷ record {
      active = true;
      name = codes "log-flush";
      class_name = codes "io";
      priority = 20;
      ticks = 0;
      state = codes "ready";
    }
    ∷ record {
      active = true;
      name = codes "math-worker";
      class_name = codes "scientific";
      priority = 95;
      ticks = 0;
      state = codes "ready";
    }
    ∷ no_job
    ∷ no_job
    ∷ no_job
    ∷ []

abbrev pub is_job : Text → Job → Bool
is_job name j = j.active && str_eq j.name name

unfoldable pub find_job : Text → List Job → Option ℕ
find_job name js = find_index (is_job name) js

abbrev pub charged : ℕ → Job → Job
charged ticks j = record j { ticks = add32 j.ticks ticks; state = codes "running" }

abbrev pub opened : Text → ℕ → Job
opened name ticks = record {
  active = true;
  name = name;
  class_name = codes "scientific";
  priority = 90;
  ticks = ticks;
  state = codes "running";
}

-- Where neither loop finds a slot, the ticks are lost.
unfoldable pub jobs_account : Text → ℕ → List Job → List Job
jobs_account name ticks js = elim (find_job name js) [
  | some i ↦ modify (charged ticks) i js
  | none ↦ elim (find_index (λ (j : Job). not j.active) js) [
    | some i ↦ modify (λ (j : Job). opened name ticks) i js
    | none ↦ js
  ]
]

-- The effect of `job priority NAME N`.
unfoldable pub job_priority : Text → ℕ → List Job → List Job
job_priority name priority js = elim (find_job name js) [
  | some i ↦ modify (λ (j : Job). record j { priority = priority }) i js
  | none ↦ js
]

-- `job run NAME`: the job runs at the process named compute.
unfoldable pub job_run : Text → List Job → Sys → List Job × Sys
job_run name js s = elim (find_job name js) [
  | some i ↦ (
    modify (λ (j : Job). record j { ticks = add32 j.ticks 8; state = codes "complete" }) i js,
    process_tick (codes "compute") 8 (process_set_running (codes "compute") true s),
  )
  | none ↦ (js, s)
]

-- The ticks charged to a name.
unfoldable pub ticks_of : Text → List Job → ℕ
ticks_of name js = elim (find_job name js) [ some i ↦ (get_or js i no_job).ticks | none ↦ 0 ]

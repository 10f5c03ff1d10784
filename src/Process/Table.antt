-- ===== src/Process/Table.antt =====
-- The static state of src/process.c, its boot value, and the scans of the process table.
use tabla_rusa_os.Base.{
  ℕ, ◌+◌, Text, Bool, true, false, not, Option, none, some, List, [], ◌∷◌, ◌==◌, ◌&&◌, ◌||◌,
  if◌then◌else◌, map, get_or, modify, find_index, count_if, str_eq, codes, add32,
}
use tabla_rusa_os.Fd.Table.{Tables, fd_count_for_pid}

-- `enum process_state`
pub data State : Type 0 where
  new ready running sleeping waiting blocked zombie terminated : State

-- `struct process_info`. A free slot has no name.
pub record Proc : Type 0 where
  pub name : Option Text
  pub pid : ℕ
  pub parent_pid : ℕ
  pub runs : Bool
  pub state : State
  pub kind : Text
  pub priority : ℕ
  pub cpu_hint : ℕ
  pub memory_kib : ℕ
  pub handle_count : ℕ
  pub background : Bool
  pub workload : Text
  pub ticks : ℕ
  pub switches : ℕ
  pub last_run_tick : ℕ

-- `struct ipc_message_info`
pub record Message : Type 0 where
  pub from_pid : ℕ
  pub to_pid : ℕ
  pub payload : Text
  pub used : Bool

-- `struct pipe_info`
pub record Pipe : Type 0 where
  pub id : ℕ
  pub owner_pid : ℕ
  pub buffer : Text
  pub used : Bool
  pub has_data : Bool

-- `struct process_handle_slot`
pub record Handle : Type 0 where
  pub used : Bool
  pub id : ℕ
  pub owner_pid : ℕ
  pub target_pid : ℕ

-- The static variables, with the descriptor tables of src/fd.c that the operations reach.
pub record Sys : Type 0 where
  pub procs : List Proc
  pub messages : List Message
  pub pipes : List Pipe
  pub handles : List Handle
  pub current_pid : ℕ
  pub next_pid : ℕ
  pub next_pipe_id : ℕ
  pub next_handle_id : ℕ
  pub fds : Tables

abbrev pub process_max : ℕ
process_max = 10

abbrev pub ipc_max : ℕ
ipc_max = 12

abbrev pub pipe_max : ℕ
pipe_max = 6

abbrev pub handle_max : ℕ
handle_max = 12

abbrev pub process_name_len : ℕ
process_name_len = 24

abbrev pub kind_len : ℕ
kind_len = 16

abbrev pub workload_len : ℕ
workload_len = 32

abbrev pub payload_len : ℕ
payload_len = 96

abbrev pub no_proc : Proc
no_proc = record {
  name = none;
  pid = 0;
  parent_pid = 0;
  runs = false;
  state = new;
  kind = [];
  priority = 0;
  cpu_hint = 0;
  memory_kib = 0;
  handle_count = 0;
  background = false;
  workload = [];
  ticks = 0;
  switches = 0;
  last_run_tick = 0;
}

-- A row of the initial table.
abbrev pub row : Text → ℕ → ℕ → Bool → State → Text → ℕ → ℕ → Bool → Text → Proc
row name pid parent runs state kind priority memory background workload = record no_proc {
  name = some name;
  pid = pid;
  parent_pid = parent;
  runs = runs;
  state = state;
  kind = kind;
  priority = priority;
  memory_kib = memory;
  background = background;
  workload = workload;
}

abbrev pub boot_procs : List Proc
boot_procs =
    row (codes "kernel") 0 0 true running (codes "kernel") 100 512 true (codes "system")
    ∷ row (codes "shell") 1 0 true running (codes "user") 40 96 false (codes "interactive")
    ∷ row (codes "editor") 2 1 false ready (codes "user") 35 128 false (codes "interactive")
    ∷ row (codes "logger") 3 0 true running (codes "service") 20 64 true (codes "io")
    ∷ row (codes "network") 4 0 false ready (codes "service") 55 160 true (codes "io")
    ∷ row (codes "compute") 5 1 false ready (codes "service") 90 256 true (codes "scientific")
    ∷ no_proc
    ∷ no_proc
    ∷ no_proc
    ∷ no_proc
    ∷ []

abbrev pub proc_at : Sys → ℕ → Proc
proc_at s i = get_or s.procs i no_proc

abbrev pub modify_proc : (Proc → Proc) → ℕ → Sys → Sys
modify_proc f i s = record s { procs = modify f i s.procs }

-- `p->name && proc_is(p->name, name)`
abbrev pub is_named : Text → Proc → Bool
is_named name p = elim p.name [ none ↦ false | some n ↦ str_eq n name ]

abbrev pub has_name : Proc → Bool
has_name p = elim p.name [ none ↦ false | some n ↦ true ]

abbrev pub is_terminated : Proc → Bool
is_terminated p = elim p.state [ terminated ↦ true | _ ↦ false ]

abbrev pub is_live : Proc → Bool
is_live p = has_name p && not (is_terminated p)

-- Terminated processes are found by their number.
unfoldable pub process_find_pid : ℕ → Sys → Option ℕ
process_find_pid pid s = find_index (λ (p : Proc). has_name p && (p.pid == pid)) s.procs

unfoldable pub free_process_slot : Sys → Option ℕ
free_process_slot s = find_index (λ (p : Proc). not (has_name p) || is_terminated p) s.procs

unfoldable pub process_find : Text → Sys → Option ℕ
process_find name s = find_index (λ (p : Proc). is_live p && is_named name p) s.procs

unfoldable pub process_count : Sys → ℕ
process_count s = count_if is_live s.procs

-- `process_init` on one row.
abbrev pub init_proc : Proc → Proc
init_proc p =
    if not (has_name p)
    then p
    else if is_named (codes "kernel") p
        || (is_named (codes "shell") p || is_named (codes "logger") p)
    then record p { runs = true; state = running; handle_count = 0 }
    else record p { runs = false; state = ready; handle_count = 0 }

unfoldable pub process_init : Sys → Sys
process_init s = record s {
  procs = map init_proc s.procs;
  messages = map (λ (m : Message). record m { used = false }) s.messages;
  pipes = map (λ (p : Pipe). record p { used = false }) s.pipes;
  handles = map (λ (h : Handle). record h { used = false }) s.handles;
  current_pid = 1;
  next_pid = 6;
  next_pipe_id = 1;
  next_handle_id = 1;
}

-- `process_handles_for_pid`
unfoldable pub handles_for_pid : ℕ → Sys → ℕ
handles_for_pid pid s =
    fd_count_for_pid pid s.fds + count_if (λ (h : Handle). h.used && (h.owner_pid == pid)) s.handles

unfoldable pub memory_total : List Proc → ℕ
memory_total [] = 0
memory_total (p ∷ ps) = if is_live p then add32 p.memory_kib (memory_total ps) else memory_total ps

-- The update of every live row's handle count in `process_list` and `process_list_info`.
unfoldable pub refresh_handles : Sys → Sys
refresh_handles s = record s {
  procs =
      map
        (λ (p : Proc). if is_live p then record p { handle_count = handles_for_pid p.pid s } else p)
        s.procs;
}

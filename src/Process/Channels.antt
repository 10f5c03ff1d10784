-- ===== src/Process/Channels.antt =====
-- Handles, messages, pipes and signals of src/process.c.
use tabla_rusa_os.Base.{
  ℕ, ◌+◌, ◌-◌, Text, Bool, true, false, not, Option, none, some, [], ◌==◌, ◌&&◌, ◌||◌,
  if◌then◌else◌, modify, get_or, find_index, str_eq, str_copy, codes, Result, ok, err, add32,
  as_int,
}
use tabla_rusa_os.Process.Table.{
  Proc, Sys, Message, Pipe, Handle, proc_at, modify_proc, process_find, process_find_pid,
  payload_len,
}
use tabla_rusa_os.Process.Lifecycle.{process_kill, process_sleep, process_wake}

abbrev pub no_handle : Handle
no_handle = record { used = false; id = 0; owner_pid = 0; target_pid = 0 }

abbrev pub no_message : Message
no_message = record { from_pid = 0; to_pid = 0; payload = []; used = false }

abbrev pub no_pipe : Pipe
no_pipe = record { id = 0; owner_pid = 0; buffer = []; used = false; has_data = false }

abbrev pub is_handle : ℕ → Handle → Bool
is_handle id h = h.used && (h.id == id)

-- The numbers of handles are `int`; they stay below 2^31.
unfoldable pub process_handle_open : ℕ → Text → Sys → Result ℕ × Sys
process_handle_open owner target s = elim (process_find_pid owner s) [
  | none ↦ (err 1, s)
  | some o ↦ elim (process_find target s) [
    | none ↦ (err 1, s)
    | some t ↦ elim (find_index (λ (h : Handle). not h.used) s.handles) [
      | none ↦ (err 2, s)
      | some i ↦ (
        ok s.next_handle_id,
        record (modify_proc (λ (p : Proc). record p { handle_count = add32 p.handle_count 1 }) o
            s) {
              handles =
                  modify
                    (λ (h : Handle). record {
                      used = true;
                      id = s.next_handle_id;
                      owner_pid = owner;
                      target_pid = (proc_at s t).pid;
                    })
                    i s.handles;
              next_handle_id = s.next_handle_id + 1;
            },
      )
    ]
  ]
]

-- The owner's count falls, but not below 0.
unfoldable pub drop_count : ℕ → Sys → Sys
drop_count owner s = elim (process_find_pid owner s) [
  | none ↦ s
  | some o ↦ modify_proc (λ (p : Proc). record p { handle_count = p.handle_count - 1 }) o s
]

unfoldable pub process_handle_close : ℕ → Sys → Result (Unit {0}) × Sys
process_handle_close id s = elim (find_index (is_handle id) s.handles) [
  | none ↦ (err 1, s)
  | some i ↦ (
    ok tt,
    record (drop_count (get_or s.handles i no_handle).owner_pid s) {
      handles = modify (λ (h : Handle). record h { used = false }) i s.handles;
    },
  )
]

-- The index of the process that a handle names.
unfoldable pub process_handle_get : ℕ → Sys → Option ℕ
process_handle_get id s = elim (find_index (is_handle id) s.handles) [
  | none ↦ none
  | some i ↦ process_find_pid (get_or s.handles i no_handle).target_pid s
]

abbrev pub is_known : Option ℕ → Bool
is_known none = false
is_known (some i) = true

unfoldable pub ipc_send : ℕ → ℕ → Text → Sys → Result (Unit {0}) × Sys
ipc_send from to payload s =
    if not (is_known (process_find_pid from s)) || not (is_known (process_find_pid to s))
    then (err 1, s)
    else elim (find_index (λ (m : Message). not m.used) s.messages) [
      | none ↦ (err 2, s)
      | some i ↦ (
        ok tt,
        record s {
          messages =
              modify
                (λ (m : Message). record {
                  from_pid = from;
                  to_pid = to;
                  payload = str_copy payload payload_len;
                  used = true;
                })
                i s.messages;
        },
      )
    ]

abbrev pub is_for : ℕ → Message → Bool
is_for to m = m.used && (m.to_pid == to)

-- The message goes through `out`.
unfoldable pub ipc_recv : ℕ → Sys → Result Message × Sys
ipc_recv to s =
    if not (is_known (process_find_pid to s))
    then (err 1, s)
    else elim (find_index (is_for to) s.messages) [
      | none ↦ (err 2, s)
      | some i ↦ (
        ok (get_or s.messages i no_message),
        record s { messages = modify (λ (m : Message). record m { used = false }) i s.messages },
      )
    ]

unfoldable pub pipe_create : ℕ → Sys → Result ℕ × Sys
pipe_create owner s =
    if not (is_known (process_find_pid owner s))
    then (err 1, s)
    else elim (find_index (λ (p : Pipe). not p.used) s.pipes) [
      | none ↦ (err 2, s)
      | some i ↦ (
        as_int s.next_pipe_id,
        record s {
          pipes =
              modify
                (λ (p : Pipe). record {
                  id = s.next_pipe_id;
                  owner_pid = owner;
                  buffer = [];
                  used = true;
                  has_data = false;
                })
                i s.pipes;
          next_pipe_id = add32 s.next_pipe_id 1;
        },
      )
    ]

unfoldable pub pipe_find : ℕ → Sys → Option ℕ
pipe_find id s = find_index (λ (p : Pipe). p.used && (p.id == id)) s.pipes

unfoldable pub pipe_write : ℕ → Text → Sys → Result (Unit {0}) × Sys
pipe_write id payload s = elim (pipe_find id s) [
  | none ↦ (err 1, s)
  | some i ↦ (
    ok tt,
    record s {
      pipes =
          modify (λ (p : Pipe). record p { buffer = str_copy payload payload_len; has_data = true })
            i s.pipes;
    },
  )
]

-- The text goes through `out`, a buffer of `max` bytes.
unfoldable pub pipe_read : ℕ → ℕ → Sys → Result Text × Sys
pipe_read id max s = elim (pipe_find id s) [
  | none ↦ (err 1, s)
  | some i ↦
      if max == 0
      then (err 1, s)
      else if not (get_or s.pipes i no_pipe).has_data
      then (err 2, s)
      else (
        ok (str_copy (get_or s.pipes i no_pipe).buffer max),
        record s {
          pipes = modify (λ (p : Pipe). record p { buffer = []; has_data = false }) i s.pipes;
        },
      )
]

-- `proc->name` of a process that `process_find_pid` found.
abbrev pub name_of : Proc → Text
name_of p = elim p.name [ none ↦ [] | some n ↦ n ]

unfoldable pub signal_send : ℕ → Text → Sys → Result (Unit {0}) × Sys
signal_send to signal s = elim (process_find_pid to s) [
  | none ↦ (err 1, s)
  | some i ↦
      if str_eq signal (codes "kill")
      then process_kill (name_of (proc_at s i)) s
      else if str_eq signal (codes "sleep")
      then process_sleep (name_of (proc_at s i)) s
      else if str_eq signal (codes "wake")
      then process_wake (name_of (proc_at s i)) s
      else ipc_send 0 to signal s
]

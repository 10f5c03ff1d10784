-- ===== src/Process/Delivery.antt =====
-- What the channels of src/process.c deliver.
use tabla_rusa_os.Base.{
  ℕ, ◌<◌, ◌≡◌, refl, Text, true, false, not, ◌&&◌, ◌==◌, none, some, arith, Option-cases, inl, inr,
  ok, err, length, get_or, modify, get_or-modify_self, find_index, find_index-lt, find_index-holds,
  find_index-modify_new, find_index-modify, str_copy, [], length-modify, modify-modify, add32,
  find_index-all_false,
}
use tabla_rusa_os.Process.Table.{
  Proc, Sys, Message, Pipe, Handle, process_find_pid, process_find, proc_at, payload_len, has_name,
  no_proc,
}
use tabla_rusa_os.Process.Channels.{
  no_message, no_pipe, no_handle, is_for, ipc_send, ipc_recv, pipe_find, pipe_write, pipe_read,
  process_handle_open, process_handle_get, is_handle,
}

-- After `pipe_write` succeeded, `pipe_read` into a buffer that is not empty returns what was
-- written, cut to the pipe's 95 bytes and to the buffer, and the next read finds the pipe empty.
pub pipe_write-read :
    (id : ℕ) (payload : Text) (max : ℕ) (s : Sys)
    → 0 < max
    → (pipe_write id payload s).0 ≡ ok tt
    → let written = (pipe_write id payload s).1 in
      let got = pipe_read id max written in
      (got.0 ≡ ok (str_copy (str_copy payload payload_len) max))
      × ((pipe_read id max got.1).0 ≡ err 2)
unfolding pipe_write pipe_read pipe_find
pipe_write-read id payload max s pos e =
    elim (Option-cases (find_index (λ (p : Pipe). p.used && (p.id == id)) s.pipes)) [
      | inl q ↦ absurd (ground (arith, q))
      | inr (i, q) ↦
          let test = λ (p : Pipe). p.used && (p.id == id) in
          let fill =
            λ (p : Pipe). record p { buffer = str_copy payload payload_len; has_data = true } in
          let drain = λ (p : Pipe). record p { buffer = []; has_data = false } in
          let h = find_index-lt test s.pipes i q in
          let pipes' = modify fill i s.pipes in
          let h' : i < length pipes' = omega (arith, length-modify fill i s.pipes) in
          ground (
            arith,
            q,
            find_index-modify test fill i s.pipes no_pipe refl,
            get_or-modify_self fill i s.pipes no_pipe h,
            find_index-modify test drain i pipes' no_pipe refl,
            get_or-modify_self drain i pipes' no_pipe h',
          )
    ]

-- A message that `ipc_send` accepts for a process with no message waiting is the one that the
-- process receives next, cut to 95 bytes, and the next `ipc_recv` finds nothing.
pub ipc_send-recv :
    (from to : ℕ) (payload : Text) (s : Sys)
    → find_index (is_for to) s.messages ≡ none
    → (ipc_send from to payload s).0 ≡ ok tt
    → let sent = (ipc_send from to payload s).1 in
      let got = ipc_recv to sent in
      (got.0
        ≡ ok (record {
          from_pid = from;
          to_pid = to;
          payload = str_copy payload payload_len;
          used = true;
        }))
      × ((ipc_recv to got.1).0 ≡ err 2)
unfolding ipc_send ipc_recv process_find_pid
ipc_send-recv from to payload s free e =
    elim (Option-cases (find_index (λ (m : Message). not m.used) s.messages)) [
      | inl q ↦ absurd (ground (arith, q))
      | inr (i, q) ↦
          let test = λ (m : Message). not m.used in
          let sent : Message = record {
            from_pid = from;
            to_pid = to;
            payload = str_copy payload payload_len;
            used = true;
          } in
          let put = λ (m : Message). sent in
          let drop = λ (m : Message). record m { used = false } in
          let h = find_index-lt test s.messages i q in
          let unused = find_index-holds test s.messages i no_message q in
          ground (
            arith,
            q,
            free,
            unused,
            find_index-modify_new (is_for to) put i s.messages no_message free h,
            get_or-modify_self put i s.messages no_message h,
            modify-modify drop put i s.messages,
            find_index-modify (is_for to) (λ m. drop (put m)) i s.messages no_message,
          )
    ]

-- A handle that was opened leads to the process that a search by number finds for its target, if
-- the numbers of all open handles were below the counter.
pub handle_open-get :
    (owner : ℕ) (target : Text) (s : Sys) (id : ℕ)
    → ((i : ℕ)
        → (get_or s.handles i no_handle).used ≡ true
        → (get_or s.handles i no_handle).id < s.next_handle_id)
    → (process_handle_open owner target s).0 ≡ ok id
    → (t : ℕ) × (process_find target s ≡ some t)
      × (process_handle_get id (process_handle_open owner target s).1
          ≡ process_find_pid (proc_at s t).pid s)
unfolding process_handle_open process_handle_get process_find_pid
handle_open-get owner target s id below e =
    elim (Option-cases (find_index (λ (p : Proc). has_name p && (p.pid == owner)) s.procs)) [
      | inl q ↦ absurd (ground (arith, q))
      | inr (o, q) ↦ elim (Option-cases (process_find target s)) [
        | inl f ↦ absurd (ground (arith, q, f))
        | inr (t, f) ↦ elim (Option-cases (find_index (λ (h : Handle). not h.used) s.handles)) [
          | inl a ↦ absurd (ground (arith, q, f, a))
          | inr (i, a) ↦ (
            t,
            f,
            ground (arith, q, f, a, opened i a (proc_at s t).pid, counted o (proc_at s t).pid),
          )
        ]
      ]
    ]
  where
    fresh : find_index (is_handle s.next_handle_id) s.handles ≡ none
    fresh =
        find_index-all_false (is_handle s.next_handle_id) s.handles no_handle
          (λ i h. ground (arith, below i))

    made : ℕ → Handle
    made pid = record { used = true; id = s.next_handle_id; owner_pid = owner; target_pid = pid }

    opened :
        (i : ℕ)
        → find_index (λ (h : Handle). not h.used) s.handles ≡ some i
        → (pid : ℕ)
        → let hs = modify (λ (h : Handle). made pid) i s.handles in
          (find_index (is_handle s.next_handle_id) hs ≡ some i) × (get_or hs i no_handle ≡ made pid)
    opened i a pid =
        let h = find_index-lt (λ (h : Handle). not h.used) s.handles i a in
        (
          find_index-modify_new (is_handle s.next_handle_id) (λ h. made pid) i s.handles no_handle
              fresh h (ground arith),
          get_or-modify_self (λ h. made pid) i s.handles no_handle h,
        )

    counted :
        (o pid : ℕ)
        → let test = λ (p : Proc). has_name p && (p.pid == pid) in
          find_index test
            (modify (λ (p : Proc). record p { handle_count = add32 p.handle_count 1 }) o s.procs)
          ≡ find_index test s.procs
    counted o pid = find_index-modify _ _ o s.procs no_proc refl

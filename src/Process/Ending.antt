-- ===== src/Process/Ending.antt =====
-- How processes end in src/process.c: what is protected, and what is released.
use tabla_rusa_os.Base.{
  ℕ, ◌<◌, ◌≡◌, ◌≢◌, ◌⊎◌, refl, Text, true, false, some, arith, Option-cases, Bool-cases, inl, inr,
  ok, length, get_or-modify_self, get_or-modify_ne, find_index-lt, find_index-holds, subst,
}
use native.Mathlib.Decide.{ℕ_discrete}
use tabla_rusa_os.Fd.Table.{fd_count_for_pid}
use tabla_rusa_os.Fd.Closing.{fd_count-close_process}
use tabla_rusa_os.Process.Table.{
  State, Proc, Sys, no_proc, proc_at, modify_proc, is_live, is_named, is_terminated, process_find,
  terminated,
}
use tabla_rusa_os.Process.Lifecycle.{is_protected, process_end, process_kill}

pub process_find-lt :
    (name : Text) (s : Sys) (i : ℕ) → process_find name s ≡ some i → i < length s.procs
unfolding process_find
process_find-lt name s i e = find_index-lt (λ (p : Proc). _) s.procs i e

pub process_find-holds :
    (name : Text) (s : Sys) (i : ℕ)
    → process_find name s ≡ some i
    → (is_live (proc_at s i) ≡ true) × (is_named name (proc_at s i) ≡ true)
unfolding process_find
process_find-holds name s i e =
    ground (arith, find_index-holds (λ (p : Proc). _) s.procs i no_proc e)

-- One row after an update.
pub proc_at-modify :
    (f : Proc → Proc) (i j : ℕ) (s : Sys)
    → i < length s.procs
    → ((i ≡ j) × (proc_at (modify_proc f i s) j ≡ f (proc_at s j)))
      ⊎ ((i ≢ j) × (proc_at (modify_proc f i s) j ≡ proc_at s j))
proc_at-modify f i j s h = elim (ℕ_discrete i j) [
  | yes e ↦ inl (
    e,
    subst (λ k. proc_at (modify_proc f i s) k ≡ f (proc_at s k)) e
        (get_or-modify_self f i s.procs no_proc h),
  )
  | no ne ↦ inr (ne, get_or-modify_ne f i j s.procs no_proc ne)
]

-- Whatever name is passed, stopping and killing leave every row that is named kernel or shell as
-- it is.
pub process_end-protected :
    (st : State) (name : Text) (s : Sys) (j : ℕ)
    → is_protected (proc_at s j) ≡ true
    → proc_at (process_end st name s).1 j ≡ proc_at s j
unfolding process_end
process_end-protected st name s j h = elim (Option-cases (process_find name s)) [
  | inl q ↦ ground (arith, q)
  | inr (i, q) ↦ elim (Bool-cases (is_protected (proc_at s i))) [
    | inl p ↦ rw (q, process_end, p) refl
    | inr p ↦
        rw (q, process_end, p)
          (get_or-modify_ne _ i j s.procs no_proc
            (λ e. cc (subst (λ k. is_protected (proc_at s k) ≡ false) e p)))
  ]
]

-- After a kill that succeeds, the process of that name is terminated and holds no descriptor.
pub process_kill-releases :
    (name : Text) (s : Sys)
    → (process_kill name s).0 ≡ ok tt
    → (i : ℕ) × (process_find name s ≡ some i)
      × (is_terminated (proc_at (process_kill name s).1 i) ≡ true)
      × (fd_count_for_pid (proc_at s i).pid (process_kill name s).1.fds ≡ 0)
unfolding process_kill
process_kill-releases name s e = elim (Option-cases (process_find name s)) [
  | inl q ↦ absurd (ground (arith, q))
  | inr (i, q) ↦
      let h = process_find-lt name s i q in
      let kill = λ (p : Proc). record p { runs = false; state = terminated } in
      let self = get_or-modify_self kill i s.procs no_proc h in
      (
        i,
        q,
        ground (arith, q, self),
        ground (arith, q, fd_count-close_process (proc_at s i).pid s.fds),
      )
]

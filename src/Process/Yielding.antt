-- ===== src/Process/Yielding.antt =====
-- Whom `process_yield` of src/process.c can select.
use native.Mathlib.Decide.{ℕ_discrete}
use tabla_rusa_os.Base.{
  ℕ, zero, suc, ◌+◌, ◌-◌, ◌%◌, ◌≤◌, ◌<◌, ◌≡◌, refl, sym, ap, ◌∙◌, true, none, some, arith,
  Option-cases, inl, inr, ◌==◌, ◌&&◌, length, find_index-holds, find_index-total, get_or-past,
}
use tabla_rusa_os.Process.Table.{Proc, Sys, no_proc, proc_at, process_max}
use tabla_rusa_os.Process.Lifecycle.{can_run, runnable_pid, yield_to, yield_loop, process_yield}

-- The number that round `step` looks for.
abbrev candidate : ℕ → ℕ → ℕ
candidate start step = ((start + 1 + step) % 0x1_0000_0000) % process_max

-- A row that can run lies in the table.
pub can_run-lt : (s : Sys) (i : ℕ) → can_run (proc_at s i) ≡ true → i < length s.procs
can_run-lt s i h = ground (arith, get_or-past s.procs i no_proc)

runnable_pid-holds :
    (pid : ℕ) (s : Sys) (i : ℕ)
    → runnable_pid pid s ≡ some i
    → (can_run (proc_at s i) ≡ true) × ((proc_at s i).pid ≡ pid)
unfolding runnable_pid
runnable_pid-holds pid s i e =
    ground (arith, find_index-holds (λ (p : Proc). can_run p && (p.pid == pid)) s.procs i no_proc e)

runnable_pid-total :
    (pid : ℕ) (s : Sys) (i : ℕ)
    → can_run (proc_at s i) ≡ true
    → (proc_at s i).pid ≡ pid
    → (k : ℕ) × (runnable_pid pid s ≡ some k)
unfolding runnable_pid
runnable_pid-total pid s i h e =
    find_index-total (λ (p : Proc). can_run p && (p.pid == pid)) s.procs i no_proc
      (can_run-lt s i h) (ground arith)

-- A round that finds nobody was not the round of a process that can run.
passed :
    (step start k : ℕ) (s : Sys) (i : ℕ)
    → step ≤ k
    → can_run (proc_at s i) ≡ true
    → (proc_at s i).pid ≡ candidate start k
    → runnable_pid (candidate start step) s ≡ none
    → step + 1 ≤ k
passed step start k s i h r e q = elim (ℕ_discrete step k) [
  | no ne ↦ omega arith
  | yes same ↦
      let (j, found) =
        runnable_pid-total (candidate start step) s i r
          (e ∙ ap (λ t. candidate start t) (sym same)) in
      absurd (ground (arith, found))
]

loop-selects :
    (n step start k : ℕ) (s : Sys) (i : ℕ)
    → step ≤ k
    → k < step + n
    → can_run (proc_at s i) ≡ true
    → (proc_at s i).pid ≡ candidate start k
    → (j : ℕ) × (can_run (proc_at s j) ≡ true)
      × ((proc_at s j).pid < process_max)
      × (yield_loop n step start s ≡ yield_to j s)
unfolding yield_loop
loop-selects zero step start k s i h h' r e = absurd (omega arith)
loop-selects (suc n) step start k s i h h' r e =
    elim (Option-cases (runnable_pid (candidate start step) s)) [
      | inr (j, q) ↦
          let found = runnable_pid-holds (candidate start step) s j q in
          (j, found.0, omega (arith, found), rw (q, yield_loop) refl)
      | inl q ↦
          let later = passed step start k s i h r e q in
          let (j, a, b, c) = loop-selects n (step + 1) start k s i later (omega arith) r e in
          (j, a, b, rw (q, yield_loop) c)
    ]

-- If a process with a number below 10 can run, `process_yield` switches to a process that can run
-- and has such a number, and changes nothing but the current process and that process's count of
-- switches. The number of the current process is at least 10 below 2^32.
pub yield-selects :
    (s : Sys) (i : ℕ)
    → can_run (proc_at s i) ≡ true
    → (proc_at s i).pid < process_max
    → s.current_pid + process_max < 0x1_0000_0000
    → (j : ℕ) × (can_run (proc_at s j) ≡ true)
      × ((proc_at s j).pid < process_max)
      × (process_yield s ≡ yield_to j s)
unfolding process_yield
yield-selects s i r p w =
    let start = s.current_pid in
    let k = ((proc_at s i).pid + 19 - start % 10) % 10 in
    loop-selects process_max 0 start k s i (omega arith) (omega arith) r (omega arith)

loop-starves :
    (n step start : ℕ) (s : Sys)
    → ((i : ℕ) → can_run (proc_at s i) ≡ true → process_max ≤ (proc_at s i).pid)
    → yield_loop n step start s ≡ s
unfolding yield_loop
loop-starves zero step start s h = refl
loop-starves (suc n) step start s h = elim (Option-cases (runnable_pid (candidate start step) s)) [
  | inl q ↦ rw (q, yield_loop) (loop-starves n (step + 1) start s h)
  | inr (j, q) ↦
      let found = runnable_pid-holds (candidate start step) s j q in
      absurd (omega (arith, found, h j found.0))
]

-- If every process that can run has a number of 10 or more, `process_yield` does nothing, so that
-- none of them gets its turn.
pub yield-starves :
    (s : Sys)
    → ((i : ℕ) → can_run (proc_at s i) ≡ true → process_max ≤ (proc_at s i).pid)
    → process_yield s ≡ s
unfolding process_yield
yield-starves s h = loop-starves process_max 0 s.current_pid s h

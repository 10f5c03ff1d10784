-- ===== src/Tests/Proof.antt =====
-- Witnesses for the proof engine of src/proofcore.c.
use tabla_rusa_os.Base.{
  ℕ, ◌≡◌, refl, some, [], codes, replicate, get_or, str_copy, find_index, count_if, str_eq,
}
use tabla_rusa_os.Process.Table.{boot_procs}
use tabla_rusa_os.Jobs.Table.{boot_jobs}
use tabla_rusa_os.Proof.Checker.{Proof, guided, valid, check_step}
use tabla_rusa_os.Proof.Steps.{
  Engine, no_proof, no_step, proof_max, step_max, proof_index, proof_create, proof_add_step,
  proof_replay,
}
use tabla_rusa_os.Proof.Soundness.{qed-any_goal}

abbrev engine : Engine
engine = record {
  proofs = replicate proof_max no_proof;
  steps = replicate step_max no_step;
  next_proof_id = 1;
  next_step_id = 1;
  jobs = boot_jobs;
  sys = record {
    procs = boot_procs;
    messages = [];
    pipes = [];
    handles = [];
    current_pid = 1;
    next_pid = 6;
    next_pipe_id = 1;
    next_handle_id = 1;
    fds = [];
  };
}

qed-any_goal_example :
    let done =
      (proof_add_step 1
        (codes "qed")
        (codes "done")
        (proof_create (codes "p") (codes "0 = 1") guided engine).1).1 in
    (p : Proof) × (i : ℕ) × (proof_index 1 done ≡ some i)
    × (get_or done.proofs i no_proof ≡ p)
    × (p.status ≡ valid)
    × (p.goal ≡ str_copy (codes "0 = 1") 96)
    × (p.facts ≡ [])
    × (p.steps ≡ 1)
unfolding proof_create find_index
qed-any_goal_example =
    qed-any_goal (codes "p") (codes "0 = 1") (codes "done") guided engine 1 0 refl refl refl

unfoldable assumed : Engine
unfolding proof_create proof_add_step proof_index find_index count_if check_step str_eq proof_replay
assumed =
    (proof_add_step 1 (codes "assume") (codes "a")
      (proof_create (codes "p") (codes "a") guided engine).1).1

-- ===== src/Proof/Steps.antt =====
-- The proof and step tables of src/proofcore.c. `jobs_account` and `process_set_compute`, which
-- `proof_add_step` and `proof_replay` call for the statistics, act on the tables of src/jobs.c and
-- src/process.c, which are part of the state.
use tabla_rusa_os.Base.{
  ℕ, Text, Bool, true, false, not, Option, none, some, List, [], ◌∷◌, ◌++◌, ◌==◌, ◌&&◌, ◌||◌,
  if◌then◌else◌, modify, get_or, find_index, count_if, str_copy, codes, is_empty, add32, as_int,
  leb, length, Result, ok, err,
}
use tabla_rusa_os.Process.Table.{Sys}
use tabla_rusa_os.Process.Lifecycle.{process_set_compute}
use tabla_rusa_os.Jobs.Table.{Job, jobs_account}
use tabla_rusa_os.Proof.Checker.{
  Mode, Status, valid, invalid, incomplete, unknown, Proof, Step, check_step, is_valid, strict,
}

pub record Engine : Type 0 where
  pub proofs : List Proof
  pub steps : List Step
  pub next_proof_id : ℕ
  pub next_step_id : ℕ
  pub jobs : List Job
  pub sys : Sys

abbrev pub proof_max : ℕ
proof_max = 6

abbrev pub step_max : ℕ
step_max = 32

abbrev pub assumption_max : ℕ
assumption_max = 8

abbrev pub text_max : ℕ
text_max = 96

abbrev pub no_proof : Proof
no_proof = record {
  used = false;
  id = 0;
  name = [];
  goal = [];
  mode = strict;
  facts = [];
  steps = 0;
  status = valid;
  current = [];
}

abbrev pub no_step : Step
no_step = record { id = 0; proof_id = 0; rule = []; expression = []; status = valid }

abbrev pub is_proof : ℕ → Proof → Bool
is_proof id p = p.used && (p.id == id)

unfoldable pub proof_index : ℕ → Engine → Option ℕ
proof_index id e = find_index (is_proof id) e.proofs

abbrev pub fresh_proof : Text → Text → Mode → ℕ → Proof
fresh_proof name goal mode id = record {
  used = true;
  id = id;
  name = str_copy (if is_empty name then codes "proof" else name) 32;
  goal = str_copy goal text_max;
  mode = mode;
  facts = [];
  steps = 0;
  status = incomplete;
  current = str_copy goal text_max;
}

unfoldable pub proof_create : Text → Text → Mode → Engine → Result ℕ × Engine
proof_create name goal mode e =
    if is_empty goal then (err 1, e) else elim (find_index (λ (p : Proof). not p.used) e.proofs) [
      | none ↦ (err 1, e)
      | some i ↦ (
        as_int e.next_proof_id,
        record e {
          proofs = modify (λ (p : Proof). fresh_proof name goal mode e.next_proof_id) i e.proofs;
          next_proof_id = add32 e.next_proof_id 1;
        },
      )
    ]

unfoldable pub proof_add_assumption : ℕ → Text → Engine → Result (Unit {0}) × Engine
proof_add_assumption id assumption e = elim (proof_index id e) [
  | none ↦ (err 1, e)
  | some i ↦
      if is_empty assumption || leb assumption_max (length (get_or e.proofs i no_proof).facts)
      then (err 1, e)
      else (
        ok tt,
        record e {
          proofs =
              modify
                (λ (p : Proof). record p { facts = p.facts ++ (str_copy assumption text_max ∷ []) })
                i e.proofs;
        },
      )
]

-- What a step leaves in its proof.
abbrev pub advanced : Status → Text → Proof → Proof
advanced status expression p = record p {
  current = if is_valid status then str_copy expression text_max else p.current;
  status = status;
  steps = add32 p.steps 1;
}

-- The step stands in its slot, with status unknown, while it is checked.
abbrev pub pending : ℕ → ℕ → Text → Text → Status → Step
pending id proof_id rule expression status = record {
  id = id;
  proof_id = proof_id;
  rule = str_copy rule 24;
  expression = str_copy expression text_max;
  status = status;
}

unfoldable pub proof_add_step : ℕ → Text → Text → Engine → Result ℕ × Engine
proof_add_step id rule expression e = elim (proof_index id e) [
  | none ↦ (err 1, e)
  | some i ↦
      if is_empty rule then (err 1, e) else elim (find_index (λ (st : Step). st.id == 0) e.steps) [
        | none ↦ (err 1, e)
        | some k ↦
            let waiting =
              modify (λ (st : Step). pending e.next_step_id id rule expression unknown) k e.steps in
            let status = check_step (get_or e.proofs i no_proof) waiting rule expression in
            (
              as_int e.next_step_id,
              record e {
                proofs = modify (advanced status expression) i e.proofs;
                steps = modify (λ (st : Step). record st { status = status }) k waiting;
                next_step_id = add32 e.next_step_id 1;
                jobs = jobs_account (codes "proof-worker") 2 e.jobs;
                sys = process_set_compute (codes "compute") (codes "proofcore") 86 50 e.sys;
              },
            )
      ]
]

abbrev pub is_step_of : ℕ → Step → Bool
is_step_of id st = not (st.id == 0) && (st.proof_id == id)

abbrev pub is_invalid : Status → Bool
is_invalid st = elim st [ invalid ↦ true | _ ↦ false ]

-- The loop of `proof_replay` over the proof's steps: 0 unless one of them is invalid.
unfoldable pub proof_replay : ℕ → Engine → Result (Unit {0}) × Engine
proof_replay id e =
    let n = count_if (is_step_of id) e.steps in
    elim (proof_index id e) [
      | none ↦ (err 1, e)
      | some i ↦
          elim (find_index (λ (st : Step). is_step_of id st && is_invalid st.status) e.steps) [
            | some k ↦ (err 1, e)
            | none ↦ (
              ok tt,
              record e {
                jobs = jobs_account (codes "proof-replay") (if n == 0 then 1 else n) e.jobs;
              },
            )
          ]
    ]

-- ===== src/Proof/Soundness.antt =====
-- What a valid verdict of src/proofcore.c is worth.
use tabla_rusa_os.Base.{
  ℕ, ◌<◌, ◌≡◌, ◌≢◌, refl, ap, ◌∙◌, Text, true, not, ◌&&◌, ◌==◌, none, some, arith, Option-cases,
  inl, inr, List, [], length, get_or, modify, get_or-modify_self, find_index, find_index-lt,
  find_index-modify_new, find_index-none, find_index-modify, str_eq, str_eq_refl, str_copy, codes,
  ok,
}
use tabla_rusa_os.Proof.Checker.{Mode, valid, invalid, unknown, Proof, Step, check_step}
use tabla_rusa_os.Proof.Steps.{
  Engine, no_proof, no_step, is_proof, fresh_proof, proof_index, proof_create, proof_add_step,
  proof_replay, is_step_of, is_invalid, pending, advanced,
}

-- `qed` on a proof whose current statement is its goal.
check-qed :
    (p : Proof) (steps : List Step) (expr : Text)
    → p.current ≡ p.goal
    → check_step p steps (codes "qed") expr ≡ valid
unfolding check_step str_eq
check-qed p steps expr e = rw e (ground (arith, str_eq_refl p.goal))

created-index :
    (name goal : Text) (mode : Mode) (e : Engine) (id : ℕ)
    → find_index (is_proof e.next_proof_id) e.proofs ≡ none
    → (proof_create name goal mode e).0 ≡ ok id
    → (i : ℕ) × (proof_index id (proof_create name goal mode e).1 ≡ some i)
      × (get_or (proof_create name goal mode e).1.proofs i no_proof ≡ fresh_proof name goal mode id)
unfolding proof_create proof_index
created-index name goal mode e id q made =
    elim (Option-cases (find_index (λ (p : Proof). not p.used) e.proofs)) [
      | inl a ↦ absurd (ground (arith, a))
      | inr (i, a) ↦
          let put = λ (p : Proof). fresh_proof name goal mode e.next_proof_id in
          let h = find_index-lt (λ (p : Proof). not p.used) e.proofs i a in
          (
            i,
            ground (
              arith,
              a,
              find_index-modify_new (is_proof e.next_proof_id) put i e.proofs no_proof q h,
            ),
            ground (arith, a, get_or-modify_self put i e.proofs no_proof h),
          )
    ]

-- A proof is filed under its number, and so is what the step `qed` makes of it.
added-qed :
    (e : Engine) (id i k : ℕ) (expr : Text)
    → proof_index id e ≡ some i
    → (get_or e.proofs i no_proof).current ≡ (get_or e.proofs i no_proof).goal
    → find_index (λ (st : Step). st.id == 0) e.steps ≡ some k
    → (proof_add_step id (codes "qed") expr e).1.proofs ≡ modify (advanced valid expr) i e.proofs
unfolding proof_add_step
added-qed e id i k expr at same free =
    let waiting =
      modify (λ (st : Step). pending e.next_step_id id (codes "qed") expr unknown) k e.steps in
    ground (arith, at, free, check-qed (get_or e.proofs i no_proof) waiting expr same)

created-steps :
    (name goal : Text) (mode : Mode) (e : Engine)
    → (proof_create name goal mode e).1.steps ≡ e.steps
unfolding proof_create
created-steps name goal mode e = ground arith

advanced-index :
    (e d : Engine) (id i : ℕ) (expr : Text)
    → proof_index id e ≡ some i
    → d.proofs ≡ modify (advanced valid expr) i e.proofs
    → (proof_index id d ≡ some i)
      × (get_or d.proofs i no_proof ≡ advanced valid expr (get_or e.proofs i no_proof))
unfolding proof_index
advanced-index e d id i expr at same =
    let h = find_index-lt (is_proof id) e.proofs i at in
    (
      rw same (find_index-modify (is_proof id) (advanced valid expr) i e.proofs no_proof refl ∙ at),
      rw same (get_or-modify_self (advanced valid expr) i e.proofs no_proof h),
    )

-- The step `qed` is found valid as the first step of a proof of any goal, with no assumption made
-- and whatever the expression of the step is: the status of the proof is then valid. This is so
-- where the number of the new proof is not in use and a step slot is free.
pub qed-any_goal :
    (name goal expr : Text) (mode : Mode) (e : Engine) (id k : ℕ)
    → find_index (is_proof e.next_proof_id) e.proofs ≡ none
    → (proof_create name goal mode e).0 ≡ ok id
    → find_index (λ (st : Step). st.id == 0) e.steps ≡ some k
    → let done = (proof_add_step id (codes "qed") expr (proof_create name goal mode e).1).1 in
      (p : Proof) × (i : ℕ) × (proof_index id done ≡ some i)
      × (get_or done.proofs i no_proof ≡ p)
      × (p.status ≡ valid)
      × (p.goal ≡ str_copy goal 96)
      × (p.facts ≡ [])
      × (p.steps ≡ 1)
qed-any_goal name goal expr mode e id k q made free =
    let start = (proof_create name goal mode e).1 in
    let (i, at, is_new) = created-index name goal mode e id q made in
    let done =
      added-qed start id i k expr at (rw is_new refl) (rw (created-steps name goal mode e) free) in
    let (at', last) =
      advanced-index start (proof_add_step id (codes "qed") expr start).1 id i expr at done in
    let is_last = last ∙ ap (advanced valid expr) is_new in
    (advanced valid expr (fresh_proof name goal mode id), i, at', is_last, refl, refl, refl, refl)

-- If `proof_replay` succeeds, none of the recorded steps of the proof is invalid, and neither the
-- proofs nor the steps have changed.
pub proof_replay-no_invalid :
    (id : ℕ) (e : Engine)
    → (proof_replay id e).0 ≡ ok tt
    → (k : ℕ) → k < length e.steps
    → is_step_of id (get_or e.steps k no_step) ≡ true
    → ((get_or e.steps k no_step).status ≢ invalid)
      × ((proof_replay id e).1.proofs ≡ e.proofs)
      × ((proof_replay id e).1.steps ≡ e.steps)
unfolding proof_replay
proof_replay-no_invalid id e done k h mine =
    let bad = λ (st : Step). is_step_of id st && is_invalid st.status in
    elim (Option-cases (find_index bad e.steps)) [
      | inr (j, a) ↦ absurd (ground (arith, a))
      | inl a ↦ (
        λ q. absurd (ground (arith, q, mine, find_index-none bad e.steps k no_step a h)),
        ground arith,
        ground arith,
      )
    ]

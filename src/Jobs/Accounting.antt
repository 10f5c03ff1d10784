-- ===== src/Jobs/Accounting.antt =====
-- `jobs_account` of src/jobs.c charges the right job.
use tabla_rusa_os.Base.{
  ℕ, ◌<◌, ◌≡◌, ◌≢◌, ◌⊎◌, refl, sym, Text, true, false, not, none, arith, Option-cases, inl, inr,
  List, get_or, get_or-modify_self, get_or-modify_ne, find_index, find_index-lt, find_index-holds,
  find_index-modify, find_index-modify_new, str_eq, str_eq_refl, str_eq_sym, str_eq_trans, add32,
  u32, subst,
}
use tabla_rusa_os.Jobs.Table.{
  Job, no_job, is_job, find_job, charged, opened, jobs_account, ticks_of,
}

-- `jobs_account` adds ticks below 2^32 to those of the job of that name, modulo 2^32, and a new
-- job starts from 0, if the table has that job or a free slot.
pub account-ticks_of :
    (name : Text) (ticks : ℕ) (js : List Job)
    → ticks < u32
    → (find_job name js ≢ none) ⊎ (find_index (λ (j : Job). not j.active) js ≢ none)
    → ticks_of name (jobs_account name ticks js) ≡ add32 (ticks_of name js) ticks
unfolding jobs_account ticks_of find_job
account-ticks_of name ticks js w room = elim (Option-cases (find_index (is_job name) js)) [
  | inr (i, q) ↦
      let h = find_index-lt (is_job name) js i q in
      ground (
        arith,
        q,
        find_index-modify (is_job name) (charged ticks) i js no_job refl,
        get_or-modify_self (charged ticks) i js no_job h,
      )
  | inl q ↦ elim (Option-cases (find_index (λ (j : Job). not j.active) js)) [
    | inl a ↦ absurd (ground (arith, q, a))
    | inr (i, a) ↦
        let put = λ (j : Job). opened name ticks in
        let h = find_index-lt (λ (j : Job). not j.active) js i a in
        ground (
          arith,
          q,
          a,
          find_index-modify_new (is_job name) put i js no_job q h (str_eq_refl name),
          get_or-modify_self put i js no_job h,
        )
  ]
]

-- `jobs_account` leaves the ticks of every name that differs from the charged one, up to case, as
-- they were.
pub account-ticks_of_other :
    (name other : Text) (ticks : ℕ) (js : List Job)
    → str_eq name other ≡ false
    → ticks_of other (jobs_account name ticks js) ≡ ticks_of other js
unfolding jobs_account ticks_of find_job
account-ticks_of_other name other ticks js ne = elim (Option-cases (find_index (is_job name) js)) [
  | inr (i, q) ↦
      let same = find_index-modify (is_job other) (charged ticks) i js no_job refl in
      elim (Option-cases (find_index (is_job other) js)) [
        | inl r ↦ ground (arith, q, r, same)
        | inr (k, r) ↦
            let apart = differ i k (find_index-holds (is_job name) js i no_job q) in
            let ne' = apart (find_index-holds (is_job other) js k no_job r) in
            ground (arith, q, r, same, get_or-modify_ne (charged ticks) i k js no_job ne')
      ]
  | inl q ↦ elim (Option-cases (find_index (λ (j : Job). not j.active) js)) [
    | inl a ↦ ground (arith, q, a)
    | inr (i, a) ↦
        let put = λ (j : Job). opened name ticks in
        let free = find_index-holds (λ (j : Job). not j.active) js i no_job a in
        let same = find_index-modify (is_job other) put i js no_job in
        elim (Option-cases (find_index (is_job other) js)) [
          | inl r ↦ ground (arith, q, a, r, free, same)
          | inr (k, r) ↦
              let ne' = idle i k free (find_index-holds (is_job other) js k no_job r) in
              ground (arith, q, a, r, free, same, get_or-modify_ne put i k js no_job ne')
        ]
  ]
]
  where
    differ :
        (i k : ℕ)
        → is_job name (get_or js i no_job) ≡ true
        → is_job other (get_or js k no_job) ≡ true
        → i ≢ k
    differ i k u v e =
        let j = get_or js i no_job in
        let v' : is_job other j ≡ true =
          subst (λ m. is_job other (get_or js m no_job) ≡ true) (sym e) v in
        ground (arith, u, v', str_eq_sym j.name name, str_eq_trans name j.name other)

    idle :
        (i k : ℕ)
        → not (get_or js i no_job).active ≡ true
        → is_job other (get_or js k no_job) ≡ true
        → i ≢ k
    idle i k u v e =
        let v' = subst (λ m. is_job other (get_or js m no_job) ≡ true) (sym e) v in
        ground (arith, u, v')

-- ===== src/Events/Dispatch.antt =====
-- What the event bus of src/events.c logs and whom it calls.
use tabla_rusa_os.Base.{
  ℕ, zero, suc, ◌+◌, ◌<◌, ◌≡◌, refl, sym, ◌∙◌, drop, Text, true, false, some, arith, Option-cases,
  Bool-cases, inl, inr, List, [], ◌∷◌, length, get_or, get_or-modify_self, find_index,
  find_index-lt, find_index-holds, find_index-modify, find_index-modify_new, str_eq_refl,
  str_copy_fits, is_empty, ok, if◌then◌else◌,
}
use tabla_rusa_os.Events.Rules.{
  Rule, Bus, Host, no_rule, is_rule, registered, rule_slot, rule_name_len, rule_max,
  events_register_source, fires, emit_rule, emit_loop, events_emit, log,
}

-- The actions of the rules that a trigger fires, in the order of the table.
abbrev pub actions : Text → List Rule → List Text
actions trigger [] = []
actions trigger (r ∷ rs) =
    let rest = actions trigger rs in if fires trigger r then r.action ∷ rest else rest

-- The log with a line for each text.
abbrev pub log_all : List Text → Bus → Bus
log_all [] b = b
log_all (l ∷ ls) b = log_all ls (log l b)

-- No rule that fires has a source handler.
abbrev pub NoSource : Text → List Rule → Type 0
NoSource trigger rs =
    (i : ℕ) → fires trigger (get_or rs i no_rule) ≡ true → (get_or rs i no_rule).source ≡ false

registered-IsRule :
    (name trigger source : Text)
    → is_empty name ≡ false
    → length name < rule_name_len
    → is_rule name (registered name trigger source) ≡ true
registered-IsRule name trigger source e h =
    ground (arith, str_copy_fits name rule_name_len h, str_eq_refl name, e)

-- After `events_register_source` succeeded for a name that is not empty and has at most 31 bytes,
-- the search by that name leads to the rule, enabled and with the source as its action, whether
-- the name had a rule before or not: a name has one rule.
pub register-rule :
    (name trigger source : Text) (b : Bus)
    → is_empty name ≡ false
    → length name < rule_name_len
    → (events_register_source name trigger source b).0 ≡ ok tt
    → let b' = (events_register_source name trigger source b).1 in
      (i : ℕ) × (find_index (is_rule name) b'.rules ≡ some i)
      × (rule_slot name b'.rules ≡ some i)
      × (get_or b'.rules i no_rule ≡ registered name trigger source)
unfolding events_register_source rule_slot
register-rule name trigger source b e h done =
    let put = λ (r : Rule). registered name trigger source in
    let new = registered-IsRule name trigger source e h in
    elim (Option-cases (find_index (is_rule name) b.rules)) [
      | inr (i, q) ↦
          let k = find_index-lt (is_rule name) b.rules i q in
          let was = find_index-holds (is_rule name) b.rules i no_rule q in
          let at = find_index-modify (is_rule name) put i b.rules no_rule (was ∙ sym new) ∙ q in
          (
            i,
            ground (arith, q, at),
            ground (arith, q, at),
            ground (arith, q, get_or-modify_self put i b.rules no_rule k),
          )
      | inl q ↦ elim (Option-cases (find_index (λ (r : Rule). is_empty r.name) b.rules)) [
        | inl a ↦ absurd (ground (arith, q, a))
        | inr (i, a) ↦
            let k = find_index-lt (λ (r : Rule). is_empty r.name) b.rules i a in
            let at = find_index-modify_new (is_rule name) put i b.rules no_rule q k new in
            (
              i,
              ground (arith, q, a, at),
              ground (arith, q, a, at),
              ground (arith, q, a, get_or-modify_self put i b.rules no_rule k),
            )
      ]
    ]

drop_all : (n : ℕ) (rs : List Rule) → n ≡ length rs → drop n rs ≡ []
drop_all zero [] h = refl
drop_all zero (r ∷ rs) h = absurd (omega arith)
drop_all (suc n) [] h = refl
drop_all (suc n) (r ∷ rs) h = drop_all n rs (omega arith)

drop_one :
    (n : ℕ) (rs : List Rule) → n < length rs → drop n rs ≡ get_or rs n no_rule ∷ drop (n + 1) rs
drop_one n [] h = absurd (omega arith)
drop_one zero (r ∷ rs) h = refl
drop_one (suc n) (r ∷ rs) h =
    let e : suc n + 1 ≡ suc (n + 1) = omega arith in rw e (drop_one n rs (omega arith))

module _ {S : Type 0} (host : Host S) (handler : Text → S → S) where
  loop-logs :
      (n i : ℕ) (trigger : Text) (s : S)
      → i + n ≡ length (host.bus s).rules
      → NoSource trigger (host.bus s).rules
      → emit_loop host handler n i trigger s
        ≡ host.set_bus (log_all (actions trigger (drop i (host.bus s).rules)) (host.bus s)) s
  unfolding emit_loop emit_rule
  loop-logs zero i trigger s h plain =
      rw (drop_all i (host.bus s).rules (omega arith)) (sym (host.set_bus_same s))
  loop-logs (suc n) i trigger s h plain =
      let b = host.bus s in
      let r = get_or b.rules i no_rule in
      let kept = host.bus-set_bus (log r.action b) s in
      elim (Bool-cases (fires trigger r)) [
        | inl q ↦
            let next =
              loop-logs n (i + 1) trigger (host.set_bus (log r.action b) s) (rw kept (omega arith))
                (rw kept plain) in
            rw (drop_one i b.rules (omega arith), q, plain i q)
              (next ∙ rw (kept, host.set_bus_twice _ (log r.action b) s) refl)
        | inr q ↦
            rw (drop_one i b.rules (omega arith), q)
              (loop-logs n (i + 1) trigger s (omega arith) plain)
      ]

  -- In the table of 16 rules, if no rule that the trigger fires has a source handler, `events_emit`
  -- writes the actions of exactly the rules that are enabled for the trigger to the log, in the
  -- order of the table, and does nothing else to the state of the whole system.
  pub emit-actions :
      (trigger : Text) (s : S)
      → length (host.bus s).rules ≡ rule_max
      → NoSource trigger (host.bus s).rules
      → events_emit host handler trigger s
        ≡ host.set_bus (log_all (actions trigger (host.bus s).rules) (host.bus s)) s
  unfolding events_emit
  emit-actions trigger s h plain = loop-logs rule_max 0 trigger s (omega arith) plain

-- Writing to the log leaves the rules as they are.
pub rules-log_all : (ls : List Text) (b : Bus) → (log_all ls b).rules ≡ b.rules
rules-log_all [] b = refl
rules-log_all (l ∷ ls) b = rules-log_all ls (log l b)

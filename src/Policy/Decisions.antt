-- ===== src/Policy/Decisions.antt =====
-- What the firewall of src/policy.c answers.
use tabla_rusa_os.Base.{
  ℕ, ◌≡◌, ◌↔◌, ◌<◌, refl, sym, ◌∙◌, inl, inr, Text, Bool, true, false, ◌&&◌, Bool-cases,
  Option-cases, find_index, find_index-lt, find_index-holds, find_index-total, length, ltb, arith,
}
use tabla_rusa_os.Policy.Table.{no_firewall_rule, privacy_allows_network}
use tabla_rusa_os.Policy.Firewall.{
  rule_at, rule_matches, blocks, policy_firewall_test, policy_check_network_access,
}
use tabla_rusa_os.System.{System}

-- The firewall denies exactly if some rule in use, enabled, for the port and the app, denies.
pub test-denies_iff :
    (app : Text) (port : ℕ) (y : System)
    → ((policy_firewall_test app port y).0 ≡ false) ↔ (
        (i : ℕ) × (i < length y.firewall)
        × (rule_matches app port (rule_at y i) ≡ true)
        × ((rule_at y i).allow ≡ false))
unfolding policy_firewall_test
test-denies_iff app port y = (
  elim (Option-cases (find_index (blocks app port) y.firewall)) [
    | inl q ↦ rw (q, policy_firewall_test) (λ e. absurd cc)
    | inr (i, q) ↦ λ e.
        let hit = find_index-holds (blocks app port) y.firewall i no_firewall_rule q in
        (i, find_index-lt (blocks app port) y.firewall i q, ground arith, ground arith)
  ],
  λ (i, lt, matches, denies).
      let hit : blocks app port (rule_at y i) ≡ true = rw (matches, denies) refl in
      let (k, found) = find_index-total (blocks app port) y.firewall i no_firewall_rule lt hit in
      rw (found, policy_firewall_test) refl,
)

-- An app is let through to a port only if both switches are on, no rule denies, and the port is
-- not below 1024 where it listens.
pub access-granted :
    (app : Text) (port : ℕ) (server : Bool) (y : System)
    → (policy_check_network_access app port server y).0 ≡ true
    → (privacy_allows_network y.privacy ≡ true)
      × ((ltb port 1024 && server) ≡ false)
      × ((i : ℕ)
          → i < length y.firewall
          → rule_matches app port (rule_at y i) ≡ true
          → (rule_at y i).allow ≡ true)
unfolding policy_check_network_access
access-granted app port server y = elim (Bool-cases (privacy_allows_network y.privacy)) [
  | inr q ↦ rw q (λ e. absurd cc)
  | inl q ↦ elim (Bool-cases (ltb port 1024 && server)) [
    | inl r ↦ rw (q, r) (λ e. absurd cc)
    | inr r ↦ elim (Bool-cases (policy_firewall_test app port y).0) [
      | inr t ↦ rw (q, r, t) (λ e. absurd cc)
      | inl t ↦ λ e. (
        q,
        r,
        λ i lt matches. elim (Bool-cases (rule_at y i).allow) [
          | inl a ↦ a
          | inr a ↦
              let denied = (test-denies_iff app port y).1 (i, lt, matches, a) in
              let f : true ≡ false = sym t ∙ denied in absurd cc
        ],
      )
    ]
  ]
]

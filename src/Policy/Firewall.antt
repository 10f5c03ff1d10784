-- ===== src/Policy/Firewall.antt =====
-- The operations of src/policy.c. The names and paths that are passed are not null.
use tabla_rusa_os.Base.{
  ℕ, ◌∷◌, [], Text, Bool, true, false, not, none, some, ◌==◌, ◌&&◌, ◌||◌, if◌then◌else◌, ltb,
  get_or, modify, find_index, str_eq, str_copy, streq, codes, is_empty, add32, as_int, take, ◌++◌,
  Result, ok, err,
}
use tabla_rusa_os.Security.Table.{
  Sec, Decision, allow, ask, inherited, warning, security_log_event, security_check_permission,
}
use tabla_rusa_os.Policy.Table.{FirewallRule, no_firewall_rule, privacy_allows_network}
use tabla_rusa_os.System.{System}

abbrev pub rule_at : System → ℕ → FirewallRule
rule_at y i = get_or y.firewall i no_firewall_rule

-- The app "*" stands for every app and the port 0 for every port.
unfoldable pub rule_matches : Text → ℕ → FirewallRule → Bool
unfolding streq
rule_matches app port r =
    if not r.used || not r.enabled
    then false
    else if not (r.port == 0) && not (r.port == port)
    then false
    else streq r.app (codes "*") || str_eq r.app app

abbrev pub allowed_or_ask : Decision → Bool
allowed_or_ask d = elim d [ allow ↦ true | ask ↦ true | inherited ↦ true | _ ↦ false ]

-- A call of `security_log_event` with severity warning, with the decision "deny".
abbrev pub log_denial : Text → Text → Text → Text → Text → Text → System → System
log_denial category app resource action explanation suggestion y = record y {
  sec =
      security_log_event warning category app resource action (codes "deny") explanation suggestion
        y.sec;
}

abbrev pub new_rule : Text → ℕ → Bool → Text → ℕ → FirewallRule
new_rule app port allowed explanation id = record {
  id = id;
  used = true;
  enabled = true;
  app = str_copy (if is_empty app then codes "*" else app) 24;
  port = port;
  allow = allowed;
  explanation =
      str_copy
        (if not (is_empty explanation)
          then explanation
          else if allowed
          then codes "Allow trusted app traffic."
          else codes "Block risky app traffic.")
        96;
}

unfoldable pub policy_firewall_add : Text → ℕ → Bool → Text → System → Result ℕ × System
policy_firewall_add app port allowed explanation y =
    elim (find_index (λ (r : FirewallRule). not r.used) y.firewall) [
      | none ↦ (
        err 1,
        log_denial (codes "policy") app (codes "firewall") (codes "add")
            (codes "The firewall rule table is full.")
            (codes "Remove an older rule before adding a new one.") y,
      )
      | some i ↦ (
        as_int y.next_firewall_rule_id,
        record y {
          firewall =
              modify
                (λ (r : FirewallRule).
                  new_rule app port allowed explanation y.next_firewall_rule_id)
                i y.firewall;
          next_firewall_rule_id = add32 y.next_firewall_rule_id 1;
        },
      )
    ]

abbrev pub is_rule_id : ℕ → FirewallRule → Bool
is_rule_id id r = r.used && (r.id == id)

unfoldable pub policy_firewall_remove : ℕ → System → Result (Unit {0}) × System
policy_firewall_remove id y = elim (find_index (is_rule_id id) y.firewall) [
  | none ↦ (err 1, y)
  | some i ↦ (
    ok tt,
    record y {
      firewall =
          modify (λ (r : FirewallRule). record r { used = false; enabled = false }) i y.firewall;
    },
  )
]

unfoldable pub policy_firewall_set_enabled : ℕ → Bool → System → Result (Unit {0}) × System
policy_firewall_set_enabled id enabled y = elim (find_index (is_rule_id id) y.firewall) [
  | none ↦ (err 1, y)
  | some i ↦ (
    ok tt,
    record y {
      firewall = modify (λ (r : FirewallRule). record r { enabled = enabled }) i y.firewall;
    },
  )
]

-- A rule on which the loop of `policy_firewall_test` returns 0.
abbrev pub blocks : Text → ℕ → FirewallRule → Bool
blocks app port r = rule_matches app port r && not r.allow

unfoldable pub policy_firewall_test : Text → ℕ → System → Bool × System
policy_firewall_test app port y = elim (find_index (blocks app port) y.firewall) [
  | none ↦ (true, y)
  | some i ↦ (
    false,
    log_denial (codes "policy") app (codes "firewall") (codes "connect") (rule_at y i).explanation
        (codes "Disable or remove this firewall rule if the app is trusted.") y,
  )
]

-- The text for `out`, a buffer of `max` bytes.
unfoldable pub policy_firewall_explain : ℕ → ℕ → System → Text
policy_firewall_explain id max y = elim (find_index (is_rule_id id) y.firewall) [
  | none ↦ str_copy (codes "No firewall rule with that ID exists.") max
  | some i ↦ str_copy (rule_at y i).explanation max
]

abbrev pub network_action : Bool → Text
network_action server = if server then codes "listen" else codes "connect"

-- The first permission, and "network.loopback" if that does not allow.
unfoldable pub network_decision : Text → Bool → Sec → Decision × Sec
network_decision app server s =
    let first =
      security_check_permission app
        (if server then codes "network.server" else codes "network.client") s in
    if allowed_or_ask first.0
    then first
    else security_check_permission app (codes "network.loopback") first.1

-- The lines of `policy_check_network_access` behind the firewall's test.
unfoldable pub check_permissions : Text → Bool → System → Bool × System
check_permissions app server y =
    let decided = network_decision app server y.sec in
    let y' = record y { sec = decided.1 } in
    if allowed_or_ask decided.0 then (true, y') else (
      false,
      log_denial (codes "permission") app (codes "network") (network_action server)
          (codes "The app does not have network permission.")
          (codes "Use Security Center to allow, ask, or keep denied.") y',
    )

unfoldable pub policy_check_network_access : Text → ℕ → Bool → System → Bool × System
unfolding check_permissions
policy_check_network_access app port server y =
    let tested = policy_firewall_test app port y in
    if not (privacy_allows_network y.privacy)
    then (
      false,
      log_denial (codes "network") app (codes "network") (network_action server)
          (codes "Privacy master/network switch blocks this connection.")
          (codes "Turn network on only if you trust the app.") y,
    )
    else if ltb port 1024 && server
    then (
      false,
      log_denial (codes "policy") app (codes "reserved-port") (codes "listen")
          (codes "Low ports are reserved for trusted services.")
          (codes "Use an unreserved loopback port or register a service.") y,
    )
    else if not tested.0
    then (false, tested.1)
    else check_permissions app server tested.1

-- The test of the path's first three bytes.
abbrev pub is_system_path : Text → Bool
is_system_path (a ∷ b ∷ c ∷ cs) = (a == b'/') && ((b == b's') && (c == b'y'))
is_system_path _ = false

unfoldable pub policy_check_file_access : Text → Text → Bool → System → Bool × System
policy_check_file_access app path write y =
    let checked =
      security_check_permission app
        (if write then codes "filesystem.write" else codes "filesystem.read") y.sec in
    let y' = record y { sec = checked.1 } in
    if write && is_system_path path
    then (
      false,
      log_denial (codes "filesystem") app path (codes "write")
          (codes "System paths are protected from ordinary writes.")
          (codes "Save files under /home unless you are changing OS configuration.") y',
    )
    else (allowed_or_ask checked.0, y')

unfoldable pub policy_check_device_access : Text → Text → System → Bool × System
policy_check_device_access app device y =
    let checked = security_check_permission app (codes "device." ++ take 32 device) y.sec in
    (allowed_or_ask checked.0, record y { sec = checked.1 })

abbrev pub is_core_process : Text → Bool
is_core_process [] = false
is_core_process (c ∷ cs) = (c == b'k') || (c == b's')

unfoldable pub policy_check_process_access : Text → Text → Text → System → Bool × System
policy_check_process_access app process action y =
    let checked = security_check_permission app (codes "process.kill") y.sec in
    if is_core_process process
    then (
      false,
      log_denial (codes "process") app process action
          (codes "Protected system processes cannot be controlled by ordinary apps.")
          (codes "Use Task Manager only for non-protected app processes.") y,
    )
    else (allowed_or_ask checked.0, record y { sec = checked.1 })

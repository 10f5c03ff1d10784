-- ===== src/Tests/Policy.antt =====
-- Witnesses for src/policy.c and src/privacy.c.
use tabla_rusa_os.Base.{
  ℕ, replicate, ◌≡◌, ◌↔◌, ◌<◌, refl, Text, true, false, ◌∷◌, [], ◌&&◌, ltb, codes, length, err,
  streq, str_eq, find_index,
}
use tabla_rusa_os.Events.Rules.{no_rule, registered}
use tabla_rusa_os.Tests.Events.{no_sources}
use tabla_rusa_os.Security.Table.{no_permission, allow, security_check_permission}
use tabla_rusa_os.Policy.Table.{privacy_allows_network}
use tabla_rusa_os.Policy.Firewall.{
  new_rule, rule_at, rule_matches, policy_firewall_test, policy_check_network_access,
  network_decision,
}
use tabla_rusa_os.Policy.Privacy.{privacy_set_master}
use tabla_rusa_os.Policy.Decisions.{test-denies_iff, access-granted}
use tabla_rusa_os.Policy.Offline.{set_master-offline}
use tabla_rusa_os.Net.Table.{closed, socket_at, is_tcp, socket_max}
use tabla_rusa_os.Net.Sockets.{net_connect, net_send, net_listen}
use tabla_rusa_os.Net.Closing.{net_fd_write}
use tabla_rusa_os.Tests.Boot.{boot, boot_sec}
use tabla_rusa_os.System.{System}

-- One rule denies port 8080 to every app.
abbrev blocking : System
blocking = record boot { firewall = new_rule (codes "*") 8080 false [] 1 ∷ [] }

test-denies_iff_example : ((policy_firewall_test (codes "browser") 8080 blocking).0 ≡ false) ↔ (
    (i : ℕ) × (i < length blocking.firewall)
    × (rule_matches (codes "browser") 8080 (rule_at blocking i) ≡ true)
    × ((rule_at blocking i).allow ≡ false))
test-denies_iff_example = test-denies_iff (codes "browser") 8080 blocking

-- The browser may listen.
abbrev trusted : System
trusted = record blocking {
  sec = record boot_sec {
    permissions =
        record no_permission {
          app = codes "browser";
          resource = codes "network.server";
          decision = allow;
          active = true;
        }
        ∷ [];
  };
}

access-granted_example :
    (privacy_allows_network trusted.privacy ≡ true)
    × ((ltb 9090 1024 && true) ≡ false)
    × ((i : ℕ)
        → i < length trusted.firewall
        → rule_matches (codes "browser") 9090 (rule_at trusted i) ≡ true
        → (rule_at trusted i).allow ≡ true)
unfolding policy_check_network_access privacy_allows_network policy_firewall_test find_index
    rule_matches network_decision security_check_permission str_eq streq
access-granted_example = access-granted (codes "browser") 9090 true trusted refl

-- A handler that turns both switches on, whatever its text. No rule of the boot table calls it.
abbrev reopening : Text → System → System
reopening source y = record y {
  privacy = record (y.privacy) { master_privacy = true; network_allowed = true };
}

set_master-offline_example :
    ((k : ℕ)
      → k < socket_max
      → (socket_at (privacy_set_master reopening false boot).net k).used ≡ true
      → is_tcp (socket_at (privacy_set_master reopening false boot).net k).proto ≡ true
      → (socket_at (privacy_set_master reopening false boot).net k).state ≡ closed)
    × ((id port : ℕ) → (net_connect id port (privacy_set_master reopening false boot)).0 ≡ err 1)
    × ((id : ℕ) (text : Text)
        → (net_send id text (privacy_set_master reopening false boot)).0 ≡ err 1)
    × ((id : ℕ) → (net_listen id (privacy_set_master reopening false boot)).0 ≡ err 1)
    × ((pid fd : ℕ) (text : Text)
        → (net_fd_write pid fd text (privacy_set_master reopening false boot)).0 ≡ err 1)
set_master-offline_example =
    set_master-offline reopening boot (λ i h. no_sources i) (λ i h. no_sources i)

-- A rule that was registered for the event of switching off.
abbrev hostile : System
hostile = record boot {
  rules =
      registered (codes "back") (codes "privacy.network:off")
        (codes "run privacy on\nrun privacy network on")
      ∷ replicate 15 no_rule;
}

abbrev no_handler : Text → System → System
no_handler source y = y

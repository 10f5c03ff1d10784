-- ===== src/Policy/Table.antt =====
-- The static variables of src/policy.c and src/privacy.c.
use tabla_rusa_os.Base.{ℕ, Text, Bool, true, false, [], codes, ◌&&◌}

-- `struct firewall_rule`
pub record FirewallRule : Type 0 where
  pub id : ℕ
  pub used : Bool
  pub enabled : Bool
  pub app : Text
  pub port : ℕ
  pub allow : Bool
  pub explanation : Text

abbrev pub firewall_rule_max : ℕ
firewall_rule_max = 12

abbrev pub no_firewall_rule : FirewallRule
no_firewall_rule = record {
  id = 0;
  used = false;
  enabled = false;
  app = [];
  port = 0;
  allow = false;
  explanation = [];
}

-- The switches of src/privacy.c.
pub record Privacy : Type 0 where
  pub master_privacy : Bool
  pub network_allowed : Bool
  pub devices_allowed : Bool
  pub telemetry_allowed : Bool
  pub cookie_policy : Text

abbrev pub boot_privacy : Privacy
boot_privacy = record {
  master_privacy = true;
  network_allowed = true;
  devices_allowed = true;
  telemetry_allowed = false;
  cookie_policy = codes "ask";
}

unfoldable pub privacy_allows_network : Privacy → Bool
privacy_allows_network p = p.master_privacy && p.network_allowed

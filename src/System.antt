-- ===== src/System.antt =====
-- The state that services, policy, privacy and network share. Each of src/service.c, src/policy.c,
-- src/privacy.c and src/net.c calls the others; the file system is the one that src/security.c
-- logs to.
use tabla_rusa_os.Base.{ℕ, refl, Text, List, codes}
use tabla_rusa_os.Fs.Ops.{append_line}
use tabla_rusa_os.Process.Table.{Sys}
use tabla_rusa_os.Jobs.Table.{Job}
use tabla_rusa_os.Events.Rules.{Rule, Host, events_emit}
use tabla_rusa_os.Security.Table.{Sec}
use tabla_rusa_os.Services.Table.{Service}
use tabla_rusa_os.Policy.Table.{FirewallRule, Privacy}
use tabla_rusa_os.Net.Table.{Net}

pub record System : Type 0 where
  pub net : Net
  pub services : List Service
  pub privacy : Privacy
  pub firewall : List FirewallRule
  pub next_firewall_rule_id : ℕ
  pub rules : List Rule
  pub sec : Sec
  pub sys : Sys
  pub jobs : List Job

-- `fs_append_line(path, line)`
abbrev pub append_to : Text → Text → System → System
append_to path line y = record y {
  sec = record (y.sec) { fs = (append_line path line y.sec.fs).1 };
}

abbrev pub network_log : Text
network_log = codes "/var/log/network.log"

abbrev pub security_log : Text
security_log = codes "/var/log/security.log"

-- The bus is the rules with the file system.
abbrev pub system_host : Host System
system_host = record {
  bus = λ y. record { rules = y.rules; fs = y.sec.fs };
  set_bus = λ b y. record y { rules = b.rules; sec = record (y.sec) { fs = b.fs } };
  bus-set_bus = λ b y. refl;
  set_bus_twice = λ b c y. refl;
  set_bus_same = λ y. refl;
}

-- A call of `events_emit`, whose handler may change whatever the system keeps.
abbrev pub emit : (Text → System → System) → Text → System → System
emit handler trigger y = events_emit system_host handler trigger y

abbrev pub on_net : (Net → Net) → System → System
on_net f y = record y { net = f y.net }

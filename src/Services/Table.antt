-- ===== src/Services/Table.antt =====
-- The service table of src/service.c.
use tabla_rusa_os.Base.{
  ℕ, Text, Bool, true, false, Option, List, [], ◌∷◌, find_index, str_eq, codes,
}

-- `struct service_info`
pub record Service : Type 0 where
  pub name : Text
  pub running : Bool
  pub provides : Text
  pub port : ℕ
  pub owner_pid : ℕ
  pub enabled : Bool
  pub permission : Text
  pub health : Text

abbrev pub no_service : Service
no_service = record {
  name = [];
  running = false;
  provides = [];
  port = 0;
  owner_pid = 0;
  enabled = false;
  permission = [];
  health = [];
}

-- A line of the initial table, in its order.
abbrev pub service : Text → Bool → Text → ℕ → ℕ → Text → Text → Service
service name running provides port owner permission health = record {
  name = name;
  running = running;
  provides = provides;
  port = port;
  owner_pid = owner;
  enabled = true;
  permission = permission;
  health = health;
}

abbrev pub boot_services : List Service
boot_services =
    service (codes "logger") true (codes "audit and system logs") 0 3 (codes "security.view")
      (codes "ok")
    ∷ service (codes "network") false (codes "TCP/IP stack foundation") 9999 4
        (codes "network.server") (codes "idle")
    ∷ service (codes "gui") false (codes "window compositor foundation") 0 1
        (codes "device.framebuffer") (codes "ok")
    ∷ service (codes "package") true (codes "package registry manifests") 0 1
        (codes "filesystem.read") (codes "ok")
    ∷ service (codes "security") true (codes "capability policy and audit") 0 1
        (codes "security.modify") (codes "ok")
    ∷ service (codes "events") true (codes "reactive rule dispatcher") 0 1 (codes "settings.modify")
        (codes "ok")
    ∷ []

-- `service_find_local`
unfoldable pub service_find : Text → List Service → Option ℕ
service_find name ss = find_index (λ (s : Service). str_eq s.name name) ss

-- ===== src/Tests/Security.antt =====
-- Witnesses for the tables of src/security.c.
use tabla_rusa_os.Base.{◌≡◌, refl, true, [], ◌∷◌, arith, codes, replicate, find_index}
use tabla_rusa_os.Fs.Node.{blank, max_nodes}
use tabla_rusa_os.Security.Table.{
  Sec, warning, deny, no_permission, no_event, event_max, permission_max, security_set_permission,
  security_check_permission,
}
use tabla_rusa_os.Security.Permissions.{set-check}
use tabla_rusa_os.Security.Log.{Report}

abbrev sec : Sec
sec = record {
  users =
      record { name = codes "root"; caps = codes "all"; active = true }
      ∷ record { name = codes "guest"; caps = codes "fs.read,shell.run"; active = true }
      ∷ [];
  apps = [];
  caps = [];
  permissions = replicate permission_max no_permission;
  events = replicate event_max no_event;
  next_event_id = 17;
  current_user = codes "root";
  secure_mode = true;
  ticks = 5;
  fs = record { nodes = replicate max_nodes blank; cwd = 0 };
}

set-check_example :
    (security_check_permission
      (codes "editor")
      (codes "filesystem.write")
      (security_set_permission (codes "editor") (codes "filesystem.write") deny sec).1).0
    ≡ deny
unfolding security_set_permission find_index
set-check_example =
    set-check (codes "editor") (codes "filesystem.write") deny sec (omega arith) (omega arith) refl

-- The failed write of a guest.
abbrev report : Report
report = record {
  severity = warning;
  category = codes "permission";
  app = codes "guest";
  resource = codes "/home/a";
  action = codes "write";
  decision = codes "deny";
  explanation = codes "why";
  suggestion = codes "how";
}

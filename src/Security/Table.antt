-- ===== src/Security/Table.antt =====
-- The tables of src/security.c and the operations on them.
use tabla_rusa_os.Base.{
  ℕ, ◌+◌, ◌-◌, ◌%◌, Text, Bool, true, false, not, Option, none, some, List, [], ◌&&◌, ◌||◌,
  if◌then◌else◌, modify, get_or, find_index, str_eq, str_copy, codes, add32, u32, Result, ok, err,
}
use tabla_rusa_os.Fs.Node.{Fs}
use tabla_rusa_os.Fs.Ops.{append_line}
use tabla_rusa_os.Vfs.{is_protected, str_starts}

-- `enum security_severity`
pub data Severity : Type 0 where
  info warning critical : Severity

-- `enum security_permission_decision`
pub data Decision : Type 0 where
  allow deny ask inherited default_deny : Decision

-- `enum security_scan_result`
pub data Scan : Type 0 where
  clean suspicious blocked unknown : Scan

-- `struct user_info`
pub record User : Type 0 where
  pub name : Text
  pub caps : Text
  pub active : Bool

-- `struct app_info`
pub record App : Type 0 where
  pub name : Text
  pub summary : Text
  pub active : Bool

-- `struct cap_info`
pub record Cap : Type 0 where
  pub app : Text
  pub capability : Text
  pub explanation : Text
  pub active : Bool

-- `struct permission_info`
pub record Permission : Type 0 where
  pub app : Text
  pub resource : Text
  pub decision : Decision
  pub active : Bool

-- `struct security_event_info`
pub record Event : Type 0 where
  pub id : ℕ
  pub tick : ℕ
  pub severity : Severity
  pub category : Text
  pub app : Text
  pub resource : Text
  pub action : Text
  pub decision : Text
  pub explanation : Text
  pub suggestion : Text

-- The static variables, with the timer's ticks and the file system that holds the log.
pub record Sec : Type 0 where
  pub users : List User
  pub apps : List App
  pub caps : List Cap
  pub permissions : List Permission
  pub events : List Event
  pub next_event_id : ℕ
  pub current_user : Text
  pub secure_mode : Bool
  pub ticks : ℕ
  pub fs : Fs

abbrev pub event_max : ℕ
event_max = 16

abbrev pub permission_max : ℕ
permission_max = 24

abbrev pub app_len : ℕ
app_len = 24

abbrev pub resource_len : ℕ
resource_len = 40

abbrev pub no_permission : Permission
no_permission = record { app = []; resource = []; decision = allow; active = false }

abbrev pub no_event : Event
no_event = record {
  id = 0;
  tick = 0;
  severity = info;
  category = [];
  app = [];
  resource = [];
  action = [];
  decision = [];
  explanation = [];
  suggestion = [];
}

unfoldable pub security_audit : Text → Sec → Sec
security_audit message s = record s {
  fs = (append_line (codes "/var/log/security.log") message s.fs).1;
}

-- The texts that are passed are not null.
unfoldable pub security_log_event :
    Severity → Text → Text → Text → Text → Text → Text → Text → Sec → Sec
security_log_event severity category app resource action decision explanation suggestion s =
    let slot = ((s.next_event_id + u32 - 1) % u32) % event_max in
    security_audit explanation (record s {
      events =
          modify
            (λ (e : Event). record {
              id = s.next_event_id;
              tick = s.ticks;
              severity = severity;
              category = category;
              app = app;
              resource = resource;
              action = action;
              decision = decision;
              explanation = explanation;
              suggestion = suggestion;
            })
            slot s.events;
      next_event_id = add32 s.next_event_id 1;
    })

unfoldable pub security_register_app : Text → Text → Sec → Result (Unit {0}) × Sec
security_register_app app summary s =
    elim (find_index (λ (a : App). a.active && str_eq a.name app) s.apps) [
      | some i ↦ (ok tt, s)
      | none ↦ elim (find_index (λ (a : App). not a.active) s.apps) [
        | none ↦ (err 1, s)
        | some i ↦ (
          ok tt,
          record s {
            apps =
                modify
                  (λ (a : App). record {
                    name = str_copy app app_len;
                    summary = str_copy summary 72;
                    active = true;
                  })
                  i s.apps;
          },
        )
      ]
    ]

abbrev pub is_cap : Text → Text → Cap → Bool
is_cap app capability c = c.active && (str_eq c.app app && str_eq c.capability capability)

unfoldable pub security_register_capability : Text → Text → Text → Sec → Result (Unit {0}) × Sec
security_register_capability app capability explanation s =
    elim (find_index (is_cap app capability) s.caps) [
      | some i ↦ (ok tt, s)
      | none ↦ elim (find_index (λ (c : Cap). not c.active) s.caps) [
        | none ↦ (err 1, s)
        | some i ↦ (
          ok tt,
          record s {
            caps =
                modify
                  (λ (c : Cap). record {
                    app = str_copy app app_len;
                    capability = str_copy capability 32;
                    explanation = str_copy explanation 96;
                    active = true;
                  })
                  i s.caps;
          },
        )
      ]
    ]

-- The test of `security_set_permission` and `security_check_permission`.
abbrev pub is_permission : Text → Text → Permission → Bool
is_permission app resource p = p.active && (str_eq p.app app && str_eq p.resource resource)

abbrev pub granted : Text → Text → Decision → Permission
granted app resource decision = record {
  app = str_copy app app_len;
  resource = str_copy resource resource_len;
  decision = decision;
  active = true;
}

unfoldable pub security_set_permission : Text → Text → Decision → Sec → Result (Unit {0}) × Sec
security_set_permission app resource decision s =
    elim (find_index (is_permission app resource) s.permissions) [
      | some i ↦ (
        ok tt,
        record s {
          permissions =
              modify (λ (p : Permission). record p { decision = decision }) i s.permissions;
        },
      )
      | none ↦ elim (find_index (λ (p : Permission). not p.active) s.permissions) [
        | none ↦ (err 1, s)
        | some i ↦ (
          ok tt,
          record s {
            permissions =
                modify (λ (p : Permission). granted app resource decision) i s.permissions;
          },
        )
      ]
    ]

-- Where no entry says otherwise, the answer is no, and an event is logged.
unfoldable pub security_check_permission : Text → Text → Sec → Decision × Sec
security_check_permission app resource s =
    elim (find_index (is_permission app resource) s.permissions) [
      | some i ↦ ((get_or s.permissions i no_permission).decision, s)
      | none ↦ (
        default_deny,
        security_log_event warning (codes "permission") app resource (codes "check")
            (codes "default-deny")
            (codes "No explicit permission exists, so the safe default is deny.")
            (codes "Set allow/ask only for apps you trust.") s,
      )
    ]

unfoldable pub current_is_root : Sec → Bool
current_is_root s = str_eq s.current_user (codes "root")

-- `user && str_eq(user->caps, ...)`
unfoldable pub has_write_caps : Sec → Bool
has_write_caps s =
    elim (find_index (λ (u : User). u.active && str_eq u.name s.current_user) s.users) [
      | none ↦ false
      | some i ↦
          str_eq (get_or s.users i (record { name = []; caps = []; active = false })).caps
            (codes "fs.read,fs.write,shell.run,service.control")
    ]

unfoldable pub security_can_write : Text → Sec → Bool × Sec
security_can_write path s =
    if current_is_root s
    then (true, s)
    else if is_protected path
    then (false, security_audit (codes "security: blocked protected namespace write") s)
    else (has_write_caps s, s)

unfoldable pub security_can_service_control : Sec → Bool
security_can_service_control s = if current_is_root s then true else has_write_caps s

unfoldable pub security_can_install_kernel_package : Text → Sec → Bool × Sec
security_can_install_kernel_package name s =
    if not s.secure_mode
    then (true, s)
    else if str_eq name (codes "gui-core") || str_eq name (codes "net-tcpip")
    then (false, security_audit (codes "security: blocked unsigned kernel package install") s)
    else (true, s)

-- The verdict of `security_scan_app` on the text of a file; `none` for a file that is not read.
unfoldable pub scan_text : Option Text → Scan
scan_text none = unknown
scan_text (some text) =
    if str_starts text (codes "net scan")
      || (str_starts text (codes "while true")
          || (str_starts text (codes "security unlock") || str_starts text (codes "process kill")))
    then suspicious
    else if str_starts text (codes "write /system") || str_starts text (codes "device raw")
    then blocked
    else clean

-- ===== src/Services/Control.antt =====
-- The operations of src/service.c. `handler` is the source handler of the event bus.
use tabla_rusa_os.Base.{
  ℕ, Text, Bool, true, false, not, none, some, modify, get_or, str_eq, codes, if◌then◌else◌, Result,
  ok, err,
}
use tabla_rusa_os.Process.Lifecycle.{process_set_running}
use tabla_rusa_os.Events.Rules.{system_log}
use tabla_rusa_os.Security.Table.{security_can_service_control, security_audit}
use tabla_rusa_os.Services.Table.{Service, no_service, service_find}
use tabla_rusa_os.System.{System, append_to, emit}

abbrev pub service_at : System → ℕ → Service
service_at y i = get_or y.services i no_service

abbrev pub modify_service : (Service → Service) → ℕ → System → System
modify_service f i y = record y { services = modify f i y.services }

abbrev pub set_process : Text → Bool → System → System
set_process name running y = record y { sys = process_set_running name running y.sys }

unfoldable pub service_init : System → System
service_init y = append_to system_log (codes "service: manager online") y

unfoldable pub service_register : Text → ℕ → ℕ → Text → Text → System → Result (Unit {0}) × System
service_register name port owner description permission y = elim (service_find name y.services) [
  | none ↦ (err 1, y)
  | some i ↦ (
    ok tt,
    modify_service
        (λ (s : Service). record s {
          port = port;
          owner_pid = owner;
          provides = description;
          permission = permission;
          enabled = true;
          health = codes "registered";
        })
        i y,
  )
]

unfoldable pub service_is_running : Text → System → Bool
service_is_running name y = elim (service_find name y.services) [
  | none ↦ false
  | some i ↦ (service_at y i).running
]

-- What `service_set_running` does to the entry that it found, before it emits the event.
unfoldable pub mark_running : Text → Bool → ℕ → System → System
mark_running name running i y =
    let y1 = modify_service (λ (s : Service). record s { running = running }) i y in
    let y2 =
      if str_eq name (codes "network") then set_process (codes "network") running y1 else y1 in
    if str_eq name (codes "gui") then set_process (codes "gui") running y2 else y2

module _ (handler : Text → System → System) where
  unfoldable pub service_set_running : Text → Bool → System → System
  unfolding mark_running
  service_set_running name running y = elim (service_find name y.services) [
    | none ↦ y
    | some i ↦ emit handler (codes "service.state:change") (mark_running name running i y)
  ]

  -- What the commands `start`, `stop` and `restart` do behind their guard, and `disable`, to the
  -- service of index `i`.
  unfoldable pub start_at : ℕ → System → System
  start_at i y =
      let y' = modify_service (λ (s : Service). record s { enabled = true }) i y in
      append_to system_log (codes "service: started")
        (service_set_running (service_at y i).name true y')

  unfoldable pub stop_at : ℕ → System → System
  stop_at i y =
      append_to system_log (codes "service: stopped")
        (service_set_running (service_at y i).name false y)

  unfoldable pub restart_at : ℕ → System → System
  restart_at i y =
      let y' = modify_service (λ (s : Service). record s { enabled = true }) i y in
      let stopped = service_set_running (service_at y i).name false y' in
      append_to system_log (codes "service: restarted")
        (service_set_running (service_at stopped i).name true stopped)

  unfoldable pub disable_at : ℕ → System → System
  disable_at i y =
      modify_service (λ (s : Service). record s { enabled = false; health = codes "disabled" }) i
        (service_set_running (service_at y i).name false y)

  -- The guard of `service_cmd`: who may not control services leaves a line in the log.
  unfoldable pub guarded : (ℕ → System → System) → Text → System → System
  guarded act name y = elim (service_find name y.services) [
    | none ↦ y
    | some i ↦
        if not (security_can_service_control y.sec)
        then record y { sec = security_audit (codes "service: blocked control attempt") y.sec }
        else act i y
  ]

  -- `service start NAME`, `service stop NAME` and `service restart NAME`
  unfoldable pub service_start : Text → System → System
  unfolding start_at guarded
  service_start name y = guarded start_at name y

  unfoldable pub service_stop : Text → System → System
  unfolding stop_at guarded
  service_stop name y = guarded stop_at name y

  unfoldable pub service_restart : Text → System → System
  unfolding restart_at guarded
  service_restart name y = guarded restart_at name y

  -- `service disable NAME`, which the guard does not name.
  unfoldable pub service_disable : Text → System → System
  unfolding disable_at
  service_disable name y = elim (service_find name y.services) [
    | none ↦ y
    | some i ↦ disable_at i y
  ]

-- `service enable NAME`
unfoldable pub service_enable : Text → System → System
service_enable name y = elim (service_find name y.services) [
  | none ↦ y
  | some i ↦
      modify_service (λ (s : Service). record s { enabled = true; health = codes "enabled" }) i y
]

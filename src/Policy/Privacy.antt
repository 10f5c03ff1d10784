-- ===== src/Policy/Privacy.antt =====
-- The switches of src/privacy.c. `handler` is the source handler of the event bus.
use tabla_rusa_os.Base.{Text, Bool, true, false, codes, str_eq, if◌then◌else◌}
use tabla_rusa_os.Fs.Ops.{write}
use tabla_rusa_os.Services.Control.{service_set_running, set_process}
use tabla_rusa_os.Policy.Table.{Privacy}
use tabla_rusa_os.Net.Closing.{net_disconnect_all}
use tabla_rusa_os.System.{System, append_to, security_log, emit, on_net}

abbrev pub on_privacy : (Privacy → Privacy) → System → System
on_privacy f y = record y { privacy = f y.privacy }

-- The text that `privacy_init` writes.
abbrev pub boot_text : Text
boot_text = codes "master_privacy=on\nnetwork=on\ndevices=on\ntelemetry=off\ncookies=ask\n"

unfoldable pub privacy_init : System → System
privacy_init y = append_to security_log (codes "privacy: control center online") (record y {
  sec = record (y.sec) { fs = (write (codes "/system/security/privacy.txt") boot_text y.sec.fs).1 };
})

module _ (handler : Text → System → System) where
  unfoldable pub privacy_disconnect : System → System
  privacy_disconnect y =
      let y1 = on_privacy (λ (p : Privacy). record p { network_allowed = false }) y in
      let y2 =
        set_process (codes "network") false
          (service_set_running handler (codes "network") false y1) in
      emit handler (codes "privacy.network:off") (
        append_to security_log (codes "privacy: network disconnected")
          (on_net net_disconnect_all y2))

  unfoldable pub privacy_connect : System → System
  privacy_connect y = emit handler (codes "privacy.network:on") (
      append_to security_log (codes "privacy: network allowed")
        (on_privacy (λ (p : Privacy). record p { network_allowed = true }) y))

  unfoldable pub privacy_set_master : Bool → System → System
  unfolding privacy_disconnect
  privacy_set_master enabled y =
      let y1 = on_privacy (λ (p : Privacy). record p { master_privacy = enabled }) y in
      append_to security_log
        (if enabled then codes "privacy: master switch on" else codes "privacy: master switch off")
        (if enabled then y1 else privacy_disconnect y1)

  unfoldable pub privacy_set_network : Bool → System → System
  unfolding privacy_connect privacy_disconnect
  privacy_set_network enabled y = if enabled then privacy_connect y else privacy_disconnect y

unfoldable pub privacy_set_devices : Bool → System → System
privacy_set_devices enabled y =
    append_to security_log
      (if enabled then codes "privacy: devices allowed" else codes "privacy: devices blocked")
      (on_privacy (λ (p : Privacy). record p { devices_allowed = enabled }) y)

unfoldable pub privacy_set_telemetry : Bool → System → System
privacy_set_telemetry enabled y =
    append_to security_log
      (if enabled then codes "privacy: telemetry allowed" else codes "privacy: telemetry off")
      (on_privacy (λ (p : Privacy). record p { telemetry_allowed = enabled }) y)

unfoldable pub privacy_set_cookie_policy : Text → System → System
privacy_set_cookie_policy policy y =
    append_to security_log (codes "privacy: cookie policy changed") (
      on_privacy
        (λ (p : Privacy). record p {
          cookie_policy =
              if str_eq policy (codes "block")
              then codes "block"
              else if str_eq policy (codes "allow")
              then codes "allow"
              else codes "ask";
        })
        y)

-- ===== src/Policy/Offline.antt =====
-- What the master switch of src/privacy.c does to the network of src/net.c.
use tabla_rusa_os.Base.{
  ℕ, zero, suc, ◌+◌, ◌≡◌, ◌<◌, ◌∙◌, get_or, refl, ap, inl, inr, Text, Bool, true, false, Bool-cases,
  Option-cases, err, codes, str_eq,
}
use tabla_rusa_os.Fs.Node.{Fs}
use tabla_rusa_os.Events.Rules.{no_rule, log, fires, emit_rule, emit_loop, events_emit, rule_max}
use tabla_rusa_os.Events.Dispatch.{NoSource}
use tabla_rusa_os.Services.Table.{service_find}
use tabla_rusa_os.Services.Control.{mark_running, service_set_running, set_process}
use tabla_rusa_os.Policy.Table.{Privacy, privacy_allows_network}
use tabla_rusa_os.Policy.Privacy.{privacy_disconnect, privacy_set_master, on_privacy}
use tabla_rusa_os.Net.Table.{closed, socket_at, is_tcp, socket_max}
use tabla_rusa_os.Net.Sockets.{net_listen, net_connect, net_send}
use tabla_rusa_os.Net.Closing.{net_fd_write, net_disconnect_all}
use tabla_rusa_os.Net.Gate.{
  net_disconnect_all-closed, net_connect-off, net_send-off, net_listen-off, net_fd_write-off,
}
use tabla_rusa_os.System.{System, system_host, emit, append_to, security_log, on_net}

-- A service that is marked running or stopped changes no network, switch or rule.
pub mark_running-net :
    (name : Text) (running : Bool) (i : ℕ) (y : System)
    → ((mark_running name running i y).net ≡ y.net)
      × ((mark_running name running i y).privacy ≡ y.privacy)
      × ((mark_running name running i y).rules ≡ y.rules)
unfolding mark_running
mark_running-net name running i y = elim (Bool-cases (str_eq name (codes "network"))) [
  | inl r ↦ elim (Bool-cases (str_eq name (codes "gui"))) [
    | inl t ↦ rw (r, t) (refl, refl, refl)
    | inr t ↦ rw (r, t) (refl, refl, refl)
  ]
  | inr r ↦ elim (Bool-cases (str_eq name (codes "gui"))) [
    | inl t ↦ rw (r, t) (refl, refl, refl)
    | inr t ↦ rw (r, t) (refl, refl, refl)
  ]
]

module _ (handler : Text → System → System) where
  -- Rules without a source handler change nothing but the file system.
  loop-quiet :
      (n i : ℕ) (trigger : Text) (y : System)
      → NoSource trigger y.rules
      → (fs : Fs) × (emit_loop system_host handler n i trigger y
          ≡ record y { sec = record (y.sec) { fs = fs } })
  unfolding emit_loop emit_rule
  loop-quiet zero i trigger y plain = (y.sec.fs, refl)
  loop-quiet (suc n) i trigger y plain =
      let r = get_or y.rules i no_rule in
      elim (Bool-cases (fires trigger r)) [
        | inl q ↦
            let next = record y {
              sec = record (y.sec) {
                fs = (log r.action (record { rules = y.rules; fs = y.sec.fs })).fs;
              };
            } in
            let (fs, e) = loop-quiet n (i + 1) trigger next plain in (fs, rw (q, plain i q) e)
        | inr q ↦ let (fs, e) = loop-quiet n (i + 1) trigger y plain in (fs, rw q e)
      ]

  pub emit-quiet :
      (trigger : Text) (y : System)
      → NoSource trigger y.rules
      → ((emit handler trigger y).net ≡ y.net)
        × ((emit handler trigger y).privacy ≡ y.privacy)
        × ((emit handler trigger y).rules ≡ y.rules)
  unfolding events_emit
  emit-quiet trigger y plain =
      let (fs, e) = loop-quiet rule_max 0 trigger y plain in
      (
        ap (λ (z : System). z.net) e,
        ap (λ (z : System). z.privacy) e,
        ap (λ (z : System). z.rules) e,
      )

  -- Whether the service is in the table or not, the network, the switches and the rules stay.
  service_set_running-net :
      (name : Text) (running : Bool) (y : System)
      → NoSource (codes "service.state:change") y.rules
      → ((service_set_running handler name running y).net ≡ y.net)
        × ((service_set_running handler name running y).privacy ≡ y.privacy)
        × ((service_set_running handler name running y).rules ≡ y.rules)
  unfolding service_set_running
  service_set_running-net name running y plain =
      elim (Option-cases (service_find name y.services)) [
        | inl q ↦ rw (q, service_set_running) (refl, refl, refl)
        | inr (i, q) ↦
            let (net, privacy, rules) = mark_running-net name running i y in
            let (net', privacy', rules') =
              emit-quiet (codes "service.state:change") (mark_running name running i y)
                (rw rules plain) in
            rw (q, service_set_running) (net' ∙ net, privacy' ∙ privacy, rules' ∙ rules)
      ]

  set_master-net :
      (y : System)
      → NoSource (codes "service.state:change") y.rules
      → NoSource (codes "privacy.network:off") y.rules
      → ((privacy_set_master handler false y).net ≡ net_disconnect_all y.net)
        × (privacy_allows_network (privacy_set_master handler false y).privacy ≡ false)
  unfolding privacy_set_master privacy_disconnect privacy_allows_network
  set_master-net y plain plain' =
      let y1 : System = on_privacy (λ (p : Privacy). record p { master_privacy = false }) y in
      let y2 : System = on_privacy (λ (p : Privacy). record p { network_allowed = false }) y1 in
      let (net, privacy, rules) = service_set_running-net (codes "network") false y2 plain in
      let y3 : System = append_to security_log (codes "privacy: network disconnected") (
        on_net net_disconnect_all (
          set_process (codes "network") false
            (service_set_running handler (codes "network") false y2))) in
      let (net', privacy', _) = emit-quiet (codes "privacy.network:off") y3 (rw rules plain') in
      (net' ∙ ap net_disconnect_all net, rw (privacy', privacy) refl)

  -- If no enabled rule for the two events that switching off causes, "service.state:change" and
  -- "privacy.network:off", has a source handler, then after the master switch is set to off every
  -- tcp socket in use is in the state closed, and connecting, sending, listening and a write to a
  -- socket's descriptor fail for every socket, port, process and text. A source handler that
  -- one of these events runs may turn the switches on again, and is excluded.
  pub set_master-offline :
      (y : System)
      → NoSource (codes "service.state:change") y.rules
      → NoSource (codes "privacy.network:off") y.rules
      → ((k : ℕ)
          → k < socket_max
          → (socket_at (privacy_set_master handler false y).net k).used ≡ true
          → is_tcp (socket_at (privacy_set_master handler false y).net k).proto ≡ true
          → (socket_at (privacy_set_master handler false y).net k).state ≡ closed)
        × ((id port : ℕ) → (net_connect id port (privacy_set_master handler false y)).0 ≡ err 1)
        × ((id : ℕ) (text : Text)
            → (net_send id text (privacy_set_master handler false y)).0 ≡ err 1)
        × ((id : ℕ) → (net_listen id (privacy_set_master handler false y)).0 ≡ err 1)
        × ((pid fd : ℕ) (text : Text)
            → (net_fd_write pid fd text (privacy_set_master handler false y)).0 ≡ err 1)
  set_master-offline y plain plain' =
      let y' : System = privacy_set_master handler false y in
      let (net, off) = set_master-net y plain plain' in
      (
        λ k h. rw net (net_disconnect_all-closed k y.net h),
        λ id port. ap (λ r. r.0) (net_connect-off id port y' off),
        λ id text. ap (λ r. r.0) (net_send-off id text y' off),
        λ id. net_listen-off id y' off,
        λ pid fd text. net_fd_write-off pid fd text y' off,
      )

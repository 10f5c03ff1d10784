-- ===== src/Net/Steps.antt =====
-- What each call of src/net.c keeps of who holds a port.
use tabla_rusa_os.Base.{
  ℕ, zero, suc, ◌+◌, ◌≡◌, refl, sym, ◌∙◌, subst, inl, inr, Bool, true, false, not, ◌&&◌,
  if◌then◌else◌, ltb, ◌==◌, Bool-cases, Option-cases, find_index, Text, err, add32, [], codes,
  Result, ok, is_ok, str_eq,
}
use tabla_rusa_os.Policy.Table.{privacy_allows_network}
use tabla_rusa_os.Policy.Firewall.{
  policy_check_network_access, policy_firewall_test, check_permissions, blocks, network_decision,
  allowed_or_ask,
}
use tabla_rusa_os.Fd.Table.{fd_open_socket_for_pid}
use tabla_rusa_os.Net.Table.{
  Socket, closed, open_udp, bound, error, Net, socket_at, modify_socket, socket_set_state,
  same_state, is_tcp, socket_by_id, socket_by_fd, drop_one, listener_for_port,
}
use tabla_rusa_os.Net.Packets.{socket_send}
use tabla_rusa_os.Net.Sockets.{
  net_socket_create, net_bind, net_listen, net_connect, net_send, net_recv, bind_port, listen_port,
  connect_port, open_bound, new_socket, opened_fd, socket_label,
}
use tabla_rusa_os.Net.Closing.{net_fd_read, net_fd_write, net_socket_close, shutdown_loop, is_idle}
use tabla_rusa_os.Net.Ports.{
  Exclusive, Quiet, Quiet-refl, Quiet-trans, Quiet-Exclusive, modify-Quiet, ephemeral-Keeps,
}
use tabla_rusa_os.Net.Quiet.{same-Quiet, if-Quiet, socket_set_state-Quiet, socket_send-Quiet}
use tabla_rusa_os.Net.Exclusion.{listen_port-Exclusive, join-Quiet, close_socket-Exclusive}
use tabla_rusa_os.Net.Claims.{bind_port-Exclusive}
use tabla_rusa_os.System.{System, on_net}
use tabla_rusa_os.Net.Boot.{open_at, open_made, socket_open}

policy_firewall_test-net :
    (app : Text) (port : ℕ) (y : System) → (policy_firewall_test app port y).1.net ≡ y.net
unfolding policy_firewall_test
policy_firewall_test-net app port y =
    elim (Option-cases (find_index (blocks app port) y.firewall)) [
      | inl q ↦ rw (q, policy_firewall_test) refl
      | inr (i, q) ↦ rw (q, policy_firewall_test) refl
    ]

check_permissions-net :
    (app : Text) (server : Bool) (y : System) → (check_permissions app server y).1.net ≡ y.net
unfolding check_permissions
check_permissions-net app server y =
    elim (Bool-cases (allowed_or_ask (network_decision app server y.sec).0)) [
      | inl q ↦ rw q refl
      | inr q ↦ rw q refl
    ]

-- The policy's check logs, and leaves the network as it is.
pub policy_check_network_access-net :
    (app : Text) (port : ℕ) (server : Bool) (y : System)
    → (policy_check_network_access app port server y).1.net ≡ y.net
unfolding policy_check_network_access
policy_check_network_access-net app port server y =
    let tested = policy_firewall_test-net app port y in
    elim (Bool-cases (privacy_allows_network y.privacy)) [
      | inr q ↦ rw q refl
      | inl q ↦ elim (Bool-cases (ltb port 1024 && server)) [
        | inl r ↦ rw (q, r) refl
        | inr r ↦ elim (Bool-cases (policy_firewall_test app port y).0) [
          | inr t ↦ rw (q, r, t) tested
          | inl t ↦
              rw (q, r, t)
                (check_permissions-net app server (policy_firewall_test app port y).1 ∙ tested)
        ]
      ]
    ]

-- Both branches of a test.
if-Exclusive {ℓ} :
    {A : Type ℓ} (b : Bool) (r s : A × System)
    → Exclusive r.1.net
    → Exclusive s.1.net
    → Exclusive (if b then r else s).1.net
if-Exclusive true r s p q = p
if-Exclusive false r s p q = q

pub net_socket_create-Quiet :
    (owner : ℕ) (proto : Text) (y : System) → Quiet y.net (net_socket_create owner proto y).1.net
unfolding net_socket_create
net_socket_create-Quiet owner proto y =
    elim (Option-cases (find_index (λ (s : Socket). not s.used) y.net.sockets)) [
      | inl q ↦ rw (q, net_socket_create) Quiet-refl
      | inr (i, q) ↦
          let f : Socket → Socket = λ s.
            new_socket i owner proto
              (opened_fd (fd_open_socket_for_pid 1 (socket_label i) y.sys.fds).0) y.sec.ticks in
          rw (q, net_socket_create)
            (modify-Quiet f i y.net (ephemeral-Keeps i (socket_at y.net i) _ (inl refl)))
    ]

connect_port-Quiet : (i port now : ℕ) (n : Net) → Quiet n (connect_port i port now n).1
unfolding connect_port
connect_port-Quiet i port now n =
    let f : Socket → Socket = λ s. record s { connect_attempts = add32 s.connect_attempts 1 } in
    let n1 : Net = modify_socket f i n in
    let counted = same-Quiet f i n refl refl in
    elim (Bool-cases
      (n1.shield_enabled && ltb n1.flood_threshold (socket_at n1 i).connect_attempts)) [
        | inl q ↦ rw q (Quiet-trans counted (socket_set_state-Quiet closed i n1))
        | inr q ↦ elim (Option-cases (listener_for_port port n)) [
          | inl r ↦ rw (q, r) (Quiet-trans counted (socket_set_state-Quiet error i n1))
          | inr (l, r) ↦ rw (q, r) (Quiet-trans counted (join-Quiet i l port now n1))
        ]
      ]

pub net_socket_close-Exclusive :
    (id : ℕ) (n : Net) → Exclusive n → Exclusive (net_socket_close id n).1
unfolding net_socket_close
net_socket_close-Exclusive id n ex = elim (Option-cases (socket_by_id id n)) [
  | inl q ↦ rw (q, net_socket_close) ex
  | inr (i, q) ↦ rw (q, net_socket_close) (close_socket-Exclusive i n ex)
]

pub shutdown_loop-Exclusive :
    (rounds i max_idle now done : ℕ) (n : Net)
    → Exclusive n
    → Exclusive (shutdown_loop rounds i max_idle now done n).1
unfolding shutdown_loop
shutdown_loop-Exclusive zero i max_idle now done n ex = ex
shutdown_loop-Exclusive (suc rounds) i max_idle now done n ex =
    elim (Bool-cases (is_idle max_idle now (socket_at n i))) [
      | inr q ↦
          rw (q, shutdown_loop) (shutdown_loop-Exclusive rounds (i + 1) max_idle now done n ex)
      | inl q ↦
          rw (q, shutdown_loop)
            (shutdown_loop-Exclusive rounds (i + 1) max_idle now _ _
              (net_socket_close-Exclusive i n ex))
    ]

pub net_bind-Exclusive :
    (id port : ℕ) (y : System) → Exclusive y.net → Exclusive (net_bind id port y).1.net
unfolding net_bind
net_bind-Exclusive id port y ex = elim (Option-cases (socket_by_id id y.net)) [
  | inl q ↦ rw (q, net_bind) ex
  | inr (i, q) ↦
      let done = bind_port i port y.sec.ticks y.net in
      rw (q, net_bind)
        (if-Exclusive (port == 0) (err 1, y) (done.0, record y { net = done.1 }) ex
          (bind_port-Exclusive i port y.sec.ticks y.net ex))
]

pub net_listen-Exclusive :
    (id : ℕ) (y : System) → Exclusive y.net → Exclusive (net_listen id y).1.net
unfolding net_listen
net_listen-Exclusive id y ex = elim (Option-cases (socket_by_id id y.net)) [
  | inl q ↦ rw (q, net_listen) ex
  | inr (i, q) ↦
      let port = (socket_at y.net i).local_port in
      let checked = policy_check_network_access (codes "network") port true y in
      let done = listen_port i y.sec.ticks checked.1.net in
      let ex' : Exclusive checked.1.net =
        subst Exclusive (sym (policy_check_network_access-net (codes "network") port true y)) ex in
      rw (q, net_listen)
        (if-Exclusive (port == 0) (err 1, y) _ ex
          (if-Exclusive (not checked.0) (err 1, checked.1)
            (done.0, record (checked.1) { net = done.1 }) ex'
            (listen_port-Exclusive i y.sec.ticks checked.1.net ex')))
]

pub net_connect-Exclusive :
    (id port : ℕ) (y : System) → Exclusive y.net → Exclusive (net_connect id port y).1.net
unfolding net_connect
net_connect-Exclusive id port y ex = elim (Option-cases (socket_by_id id y.net)) [
  | inl q ↦ rw (q, net_connect) ex
  | inr (i, q) ↦
      let checked = policy_check_network_access (codes "network") port false y in
      let done = connect_port i port y.sec.ticks checked.1.net in
      let ex' : Exclusive checked.1.net =
        subst Exclusive (sym (policy_check_network_access-net (codes "network") port false y)) ex in
      rw (q, net_connect)
        (if-Exclusive (not (privacy_allows_network y.privacy)) (err 1, y) _ ex
          (if-Exclusive (not checked.0) (err 1, checked.1)
            (done.0, record (checked.1) { net = done.1 }) ex'
            (Quiet-Exclusive checked.1.net done.1
              (connect_port-Quiet i port y.sec.ticks checked.1.net) ex')))
]

pub net_send-Exclusive :
    (id : ℕ) (text : Text) (y : System) → Exclusive y.net → Exclusive (net_send id text y).1.net
unfolding net_send open_bound
net_send-Exclusive id text y ex = elim (Option-cases (socket_by_id id y.net)) [
  | inl q ↦ rw (q, net_send) ex
  | inr (i, q) ↦
      let opened = on_net (open_bound i) y in
      let sent = socket_send i text opened in
      let quiet : Quiet y.net sent.1.net =
        Quiet-trans
          (if-Quiet
            (same_state (socket_at y.net i).state bound && not (is_tcp (socket_at y.net i).proto))
            y.net (socket_set_state open_udp i y.net) y.net
            (socket_set_state-Quiet open_udp i y.net) Quiet-refl)
          (socket_send-Quiet i text opened) in
      rw (q, net_send)
        (if-Exclusive (not (privacy_allows_network y.privacy)) (err 1, y) sent ex
          (Quiet-Exclusive y.net sent.1.net quiet ex))
]

pub net_fd_write-Exclusive :
    (pid fd : ℕ) (text : Text) (y : System)
    → Exclusive y.net
    → Exclusive (net_fd_write pid fd text y).1.net
unfolding net_fd_write
net_fd_write-Exclusive pid fd text y ex = elim (Option-cases (socket_by_fd pid fd y.net)) [
  | inl q ↦ rw (q, net_fd_write) ex
  | inr (i, q) ↦
      let sent = socket_send i text y in
      rw (q, net_fd_write)
        (if-Exclusive (not (privacy_allows_network y.privacy)) (err 1, on_net drop_one y) sent
          (Quiet-Exclusive y.net (drop_one y.net) Quiet-refl ex)
          (Quiet-Exclusive y.net sent.1.net (socket_send-Quiet i text y) ex))
]

pub net_recv-Quiet : (id : ℕ) (y : System) → Quiet y.net (net_recv id y).1.net
unfolding net_recv
net_recv-Quiet id y = elim (Option-cases (socket_by_id id y.net)) [
  | inl q ↦ rw (q, net_recv) Quiet-refl
  | inr (i, q) ↦
      rw (q, net_recv)
        (same-Quiet (λ (s : Socket). record s { rx = []; last_activity = y.sec.ticks }) i y.net refl
          refl)
]

pub net_fd_read-Quiet : (pid fd : ℕ) (y : System) → Quiet y.net (net_fd_read pid fd y).1.net
unfolding net_fd_read
net_fd_read-Quiet pid fd y = elim (Option-cases (socket_by_fd pid fd y.net)) [
  | inl q ↦ rw (q, net_fd_read) Quiet-refl
  | inr (i, q) ↦
      rw (q, net_fd_read) (same-Quiet (λ (s : Socket). record s { rx = [] }) i y.net refl refl)
]

open_at-Exclusive :
    (i : ℕ) (proto : Text) (port : ℕ) (y : System)
    → Exclusive y.net
    → Exclusive (open_at i proto port y).net
unfolding open_at
open_at-Exclusive i proto port y ex =
    let done = net_bind i port y in
    let bound = net_bind-Exclusive i port y ex in
    elim (Bool-cases (is_ok (net_bind i port y).0)) [
      | inr q ↦ rw q (net_socket_close-Exclusive i done.1.net bound)
      | inl q ↦ elim (Bool-cases (str_eq proto (codes "tcp"))) [
        | inl t ↦ rw (q, t) (net_listen-Exclusive i done.1 bound)
        | inr t ↦
            rw (q, t)
              (Quiet-Exclusive done.1.net _ (socket_set_state-Quiet open_udp i done.1.net) bound)
      ]
    ]

open_made-Exclusive :
    (proto : Text) (port : ℕ) (made : Result ℕ × System)
    → Exclusive made.1.net
    → Exclusive (open_made proto port made).net
open_made-Exclusive proto port (ok i, y) ex = open_at-Exclusive i proto port y ex
open_made-Exclusive proto port (err k, y) ex = ex

pub socket_open-Exclusive :
    (proto : Text) (port : ℕ) (y : System)
    → Exclusive y.net
    → Exclusive (socket_open proto port y).net
unfolding socket_open
socket_open-Exclusive proto port y ex = elim (Bool-cases (privacy_allows_network y.privacy)) [
  | inr q ↦ rw q (Quiet-Exclusive y.net (drop_one y.net) Quiet-refl ex)
  | inl q ↦ rw q (
      open_made-Exclusive proto port (net_socket_create 1 proto y)
        (Quiet-Exclusive y.net _ (net_socket_create-Quiet 1 proto y) ex))
]

-- ===== src/Net/Sockets.antt =====
-- The socket operations of src/net.c.
use tabla_rusa_os.Base.{
  ℕ, ◌+◌, ◌∷◌, [], ◌++◌, Text, Bool, true, false, not, Option, none, some, ◌==◌, ◌&&◌,
  if◌then◌else◌, ltb, find_index, str_copy, str_eq, codes, is_empty, add32, Result, ok, err,
}
use tabla_rusa_os.Fd.Table.{fd_open_socket_for_pid}
use tabla_rusa_os.Policy.Table.{privacy_allows_network}
use tabla_rusa_os.Policy.Firewall.{policy_check_network_access}
use tabla_rusa_os.Net.Table.{
  tcp, udp, SocketState, closed, bound, open_udp, connecting, connected, error, Socket, PortState,
  blocked, reserved, Port, Net, socket_max, socket_at, modify_socket, port_at, modify_port,
  drop_one, is_tcp, is_listening, is_free, same_state, socket_by_id, port_by_number,
  listener_for_port, port_alloc, socket_set_state,
}
use tabla_rusa_os.Net.Packets.{socket_send}
use tabla_rusa_os.System.{System, on_net}

-- "socket:0" to "socket:3"
abbrev pub socket_label : ℕ → Text
socket_label i = codes "socket:" ++ ((b'0' + i) ∷ [])

abbrev pub new_socket : ℕ → ℕ → Text → Option ℕ → ℕ → Socket
new_socket i owner proto fd now = record {
  used = true;
  id = i;
  owner_pid = if owner == 0 then 1 else owner;
  fd = fd;
  proto = if str_eq proto (codes "udp") then udp else tcp;
  state = closed;
  local_port = 0;
  remote_port = 0;
  rx = [];
  rx_packets = 0;
  tx_packets = 0;
  connect_attempts = 0;
  flood_score = 0;
  peer_id = socket_max;
  bytes_tx = 0;
  bytes_rx = 0;
  last_activity = now;
}

abbrev pub opened_fd : Result ℕ → Option ℕ
opened_fd r = elim r [ ok e ↦ some e | err k ↦ none ]

unfoldable pub net_socket_create : ℕ → Text → System → Result ℕ × System
net_socket_create owner proto y = elim (find_index (λ (s : Socket). not s.used) y.net.sockets) [
  | none ↦ (err 1, on_net drop_one y)
  | some i ↦
      let opened = fd_open_socket_for_pid 1 (socket_label i) y.sys.fds in
      (
        ok i,
        record (on_net
            (modify_socket
              (λ (s : Socket). new_socket i owner proto (opened_fd opened.0) y.sec.ticks) i)
            y) { sys = record (y.sys) { fds = opened.1 } },
      )
]

-- The entry that `net_bind` gives to a socket.
abbrev pub bound_to : ℕ → Socket → Port → Port
bound_to id s e = record e {
  state = PortState.bound;
  owner_pid = s.owner_pid;
  socket_id = id;
  service = if is_tcp s.proto then codes "tcp-loopback" else codes "udp-loopback";
}

-- `net_bind` on the network alone, for the socket of index `i` and a port that is not 0.
unfoldable pub bind_port : ℕ → ℕ → ℕ → Net → Result (Unit {0}) × Net
bind_port i port now n =
    let made = port_alloc port n in
    elim made.0 [
      | none ↦ (err 1, drop_one made.1)
      | some e ↦
          if not (is_free (port_at made.1 e).state) && not ((port_at made.1 e).socket_id == i)
          then (err 1, drop_one made.1)
          else (
            ok tt,
            modify_port (bound_to i (socket_at n i)) e (
                modify_socket
                  (λ (s : Socket). record s {
                    local_port = port;
                    state = SocketState.bound;
                    last_activity = now;
                  })
                  i made.1),
          )
    ]

unfoldable pub net_bind : ℕ → ℕ → System → Result (Unit {0}) × System
unfolding bind_port
net_bind id port y = elim (socket_by_id id y.net) [
  | none ↦ (err 1, y)
  | some i ↦
      let done = bind_port i port y.sec.ticks y.net in
      if port == 0 then (err 1, y) else (done.0, record y { net = done.1 })
]

abbrev pub is_closed_port : PortState → Bool
is_closed_port st = elim st [ blocked ↦ true | reserved ↦ true | _ ↦ false ]

-- The lines of `net_listen` behind the policy's check.
unfoldable pub listen_port : ℕ → ℕ → Net → Result (Unit {0}) × Net
listen_port i now n = elim (port_by_number (socket_at n i).local_port n) [
  | none ↦ (err 1, n)
  | some e ↦ if is_closed_port (port_at n e).state then (err 1, n) else (
    ok tt,
    record (modify_port (λ (q : Port). record q { state = PortState.listening }) e
        (modify_socket
          (λ (s : Socket). record s { state = SocketState.listening; last_activity = now }) i n)) {
            tcp_listen_port = (socket_at n i).local_port;
          },
  )
]

unfoldable pub net_listen : ℕ → System → Result (Unit {0}) × System
unfolding listen_port
net_listen id y = elim (socket_by_id id y.net) [
  | none ↦ (err 1, y)
  | some i ↦
      let port = (socket_at y.net i).local_port in
      let checked = policy_check_network_access (codes "network") port true y in
      let done = listen_port i y.sec.ticks checked.1.net in
      if port == 0
      then (err 1, y)
      else if not checked.0
      then (err 1, checked.1)
      else (done.0, record (checked.1) { net = done.1 })
]

unfoldable pub net_accept : ℕ → System → Result ℕ
net_accept id y = elim (socket_by_id id y.net) [
  | none ↦ err 1
  | some i ↦ if is_listening (socket_at y.net i).state then ok id else err 1
]

-- The assignments of `net_connect` that join socket `i` and the listener `l`.
unfoldable pub join : ℕ → ℕ → ℕ → ℕ → Net → Net
join i l port now n =
    let n1 =
      modify_socket
        (λ (s : Socket). record s {
          remote_port = port;
          local_port = if s.local_port == 0 then 40000 + i else s.local_port;
          peer_id = (socket_at n l).id;
        })
        i n in
    let n2 = modify_socket (λ (s : Socket). record s { peer_id = i }) l n1 in
    let n3 = socket_set_state connected i (socket_set_state connecting i n2) in
    let n4 =
      modify_socket
        (λ (s : Socket). record s {
          remote_port = (socket_at n3 i).local_port;
          last_activity = now;
        })
        l n3 in
    modify_socket (λ (s : Socket). record s { last_activity = now }) i n4

-- The lines of `net_connect` behind the policy's check.
unfoldable pub connect_port : ℕ → ℕ → ℕ → Net → Result (Unit {0}) × Net
connect_port i port now n =
    let n1 =
      modify_socket (λ (s : Socket). record s { connect_attempts = add32 s.connect_attempts 1 }) i
        n in
    let refused = λ (st : SocketState). drop_one (socket_set_state st i n1) in
    if n1.shield_enabled && ltb n1.flood_threshold (socket_at n1 i).connect_attempts
    then (err 1, refused closed)
    else elim (listener_for_port port n) [
      | none ↦ (err 1, refused error)
      | some l ↦ (ok tt, join i l port now n1)
    ]

unfoldable pub net_connect : ℕ → ℕ → System → Result (Unit {0}) × System
unfolding connect_port
net_connect id port y = elim (socket_by_id id y.net) [
  | none ↦ (err 1, y)
  | some i ↦
      let checked = policy_check_network_access (codes "network") port false y in
      let done = connect_port i port y.sec.ticks checked.1.net in
      if not (privacy_allows_network y.privacy)
      then (err 1, y)
      else if not checked.0
      then (err 1, checked.1)
      else (done.0, record (checked.1) { net = done.1 })
]

-- A bound udp socket opens with its first packet.
unfoldable pub open_bound : ℕ → Net → Net
open_bound i n =
    if same_state (socket_at n i).state bound && not (is_tcp (socket_at n i).proto)
    then socket_set_state open_udp i n
    else n

unfoldable pub net_send : ℕ → Text → System → Result (Unit {0}) × System
unfolding open_bound
net_send id text y = elim (socket_by_id id y.net) [
  | none ↦ (err 1, y)
  | some i ↦
      let sent = socket_send i text (on_net (open_bound i) y) in
      if not (privacy_allows_network y.privacy) then (err 1, y) else sent
]

-- What a read finds in the socket.
abbrev pub pending_text : Socket → Text
pending_text s = if is_empty s.rx then codes "<empty>" else s.rx

unfoldable pub net_recv : ℕ → System → Result Text × System
net_recv id y = elim (socket_by_id id y.net) [
  | none ↦ (err 1, y)
  | some i ↦ (
    ok (str_copy (pending_text (socket_at y.net i)) 96),
    on_net (modify_socket (λ (s : Socket). record s { rx = []; last_activity = y.sec.ticks }) i) y,
  )
]

unfoldable pub net_poll : ℕ → Net → Result Bool
net_poll id n = elim (socket_by_id id n) [
  | none ↦ err 1
  | some i ↦ ok (not (is_empty (socket_at n i).rx))
]

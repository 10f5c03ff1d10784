-- ===== src/Net/Boot.antt =====
-- `net_init` of src/net.c, and the command that opens a socket at a port.
use tabla_rusa_os.Base.{
  ℕ, [], Text, false, not, none, if◌then◌else◌, map, codes, str_eq, Result, ok, err, is_ok, List,
  suc, ◌∷◌,
}
use tabla_rusa_os.Fs.Ops.{write}
use tabla_rusa_os.Policy.Table.{privacy_allows_network}
use tabla_rusa_os.Net.Table.{
  Socket, closed, open_udp, free, Port, Packet, Net, socket_max, socket_set_state, drop_one,
}
use tabla_rusa_os.Net.Sockets.{net_socket_create, net_bind, net_listen}
use tabla_rusa_os.Net.Closing.{net_socket_close}
use tabla_rusa_os.System.{System, append_to, network_log, on_net}

-- The assignments to the socket of index `i`.
abbrev pub init_socket : ℕ → Socket → Socket
init_socket i s = record s {
  used = false;
  id = i;
  owner_pid = 0;
  rx = [];
  fd = none;
  state = closed;
  connect_attempts = 0;
  flood_score = 0;
  peer_id = socket_max;
  bytes_tx = 0;
  bytes_rx = 0;
  last_activity = 0;
}

-- The loop over the sockets, from index `i` on.
unfoldable pub init_sockets : ℕ → List Socket → List Socket
init_sockets i [] = []
init_sockets i (s ∷ ss) = init_socket i s ∷ init_sockets (suc i) ss

abbrev pub init_port : Port → Port
init_port p = record p {
  used = false;
  port = 0;
  state = free;
  owner_pid = 0;
  socket_id = 0;
  service = codes "free";
}

abbrev pub reset_net : Net → Net
reset_net n = record n {
  sockets = init_sockets 0 n.sockets;
  ports = map init_port n.ports;
  packets = map (λ (p : Packet). record p { used = false }) n.packets;
  tx_packets = 0;
  rx_packets = 0;
  drops = 0;
  checksum_errors = 0;
  state_changes = 0;
}

abbrev pub stack_text : Text
stack_text =
    codes
      "layers=link,arp,ipv4,icmp,udp,tcp,sockets\nloopback=127.0.0.1/8\nqueues=tx,rx\npacket_max=12\nsocket_max=4\n"

unfoldable pub net_init : System → System
unfolding init_sockets
net_init y =
    append_to network_log (codes "net: packet queues and loopback stack online") (record y {
      net = reset_net y.net;
      sec = record (y.sec) { fs = (write (codes "/system/net/stack.txt") stack_text y.sec.fs).1 };
    })

-- The lines of `socket_open` behind the creation of socket `i`.
unfoldable pub open_at : ℕ → Text → ℕ → System → System
open_at i proto port y =
    let done = net_bind i port y in
    if not (is_ok done.0)
    then record (done.1) { net = (net_socket_close i done.1.net).1 }
    else if str_eq proto (codes "tcp")
    then (net_listen i done.1).1
    else on_net (socket_set_state open_udp i) done.1

-- What `socket_open` does with the answer of `net_socket_create`.
abbrev pub open_made : Text → ℕ → Result ℕ × System → System
open_made proto port (ok i, y) = open_at i proto port y
open_made proto port (err k, y) = y

-- `net open tcp|udp PORT`
unfoldable pub socket_open : Text → ℕ → System → System
unfolding open_at
socket_open proto port y =
    let opened = open_made proto port (net_socket_create 1 proto y) in
    if not (privacy_allows_network y.privacy) then on_net drop_one y else opened

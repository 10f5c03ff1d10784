-- ===== src/Net/Table.antt =====
-- The static variables of src/net.c, and the scans of its tables.
use Prim.Native.Nat.{bit_xor}
use tabla_rusa_os.Base.{
  ℕ, ◌+◌, ◌*◌, ◌/◌, ◌%◌, Text, Bool, true, false, not, Option, none, some, List, [], ◌∷◌, ◌==◌,
  ◌&&◌, if◌then◌else◌, ltb, get_or, modify, find_index, codes, u32, add32,
}

-- `enum packet_dir`
pub data PacketDir : Type 0 where
  tx rx : PacketDir

-- `struct net_packet`. The interface is always "lo" and both addresses are the loopback's.
pub record Packet : Type 0 where
  pub used : Bool
  pub id : ℕ
  pub dir : PacketDir
  pub proto : Text
  pub src_port : ℕ
  pub dst_port : ℕ
  pub checksum : ℕ
  pub len : ℕ
  pub payload : Text

-- The two literals that `proto` of a socket points to.
pub data Proto : Type 0 where
  tcp udp : Proto

-- The literals that `state` of a socket points to: "CLOSED", "BOUND", "OPEN", "LISTENING",
-- "CONNECTING", "CONNECTED" and "ERROR". The texts "LISTEN" and "ESTABLISHED" are only compared
-- with.
pub data SocketState : Type 0 where
  closed bound open_udp listening connecting connected error : SocketState

-- `struct socket_entry`. `fd` is `none` for -1.
pub record Socket : Type 0 where
  pub used : Bool
  pub id : ℕ
  pub owner_pid : ℕ
  pub fd : Option ℕ
  pub proto : Proto
  pub state : SocketState
  pub local_port : ℕ
  pub remote_port : ℕ
  pub rx : Text
  pub rx_packets : ℕ
  pub tx_packets : ℕ
  pub connect_attempts : ℕ
  pub flood_score : ℕ
  pub peer_id : ℕ
  pub bytes_tx : ℕ
  pub bytes_rx : ℕ
  pub last_activity : ℕ

-- `enum net_port_state`
pub data PortState : Type 0 where
  free bound listening blocked reserved : PortState

-- `struct port_entry`
pub record Port : Type 0 where
  pub used : Bool
  pub port : ℕ
  pub state : PortState
  pub owner_pid : ℕ
  pub socket_id : ℕ
  pub service : Text

-- The static variables, with the fields of `stats` beside the others.
pub record Net : Type 0 where
  pub link_up : Bool
  pub tcp_listen_port : ℕ
  pub shield_enabled : Bool
  pub ip_masking : Bool
  pub flood_threshold : ℕ
  pub sockets : List Socket
  pub packets : List Packet
  pub ports : List Port
  pub next_packet_id : ℕ
  pub tx_packets : ℕ
  pub rx_packets : ℕ
  pub drops : ℕ
  pub checksum_errors : ℕ
  pub state_changes : ℕ

abbrev pub socket_max : ℕ
socket_max = 4

abbrev pub packet_max : ℕ
packet_max = 12

abbrev pub payload_max : ℕ
payload_max = 64

abbrev pub port_max : ℕ
port_max = 8

abbrev pub no_socket : Socket
no_socket = record {
  used = false;
  id = 0;
  owner_pid = 0;
  fd = none;
  proto = tcp;
  state = closed;
  local_port = 0;
  remote_port = 0;
  rx = [];
  rx_packets = 0;
  tx_packets = 0;
  connect_attempts = 0;
  flood_score = 0;
  peer_id = 0;
  bytes_tx = 0;
  bytes_rx = 0;
  last_activity = 0;
}

abbrev pub no_packet : Packet
no_packet = record {
  used = false;
  id = 0;
  dir = tx;
  proto = [];
  src_port = 0;
  dst_port = 0;
  checksum = 0;
  len = 0;
  payload = [];
}

abbrev pub no_port : Port
no_port = record {
  used = false;
  port = 0;
  state = free;
  owner_pid = 0;
  socket_id = 0;
  service = [];
}

abbrev pub socket_at : Net → ℕ → Socket
socket_at n i = get_or n.sockets i no_socket

abbrev pub modify_socket : (Socket → Socket) → ℕ → Net → Net
modify_socket f i n = record n { sockets = modify f i n.sockets }

abbrev pub port_at : Net → ℕ → Port
port_at n e = get_or n.ports e no_port

abbrev pub modify_port : (Port → Port) → ℕ → Net → Net
modify_port f e n = record n { ports = modify f e n.ports }

abbrev pub drop_one : Net → Net
drop_one n = record n { drops = add32 n.drops 1 }

abbrev pub proto_text : Proto → Text
proto_text tcp = codes "tcp"
proto_text udp = codes "udp"

abbrev pub is_tcp : Proto → Bool
is_tcp p = elim p [ tcp ↦ true | udp ↦ false ]

abbrev pub same_state : SocketState → SocketState → Bool
same_state s t = elim s [
  | closed ↦ elim t [ closed ↦ true | _ ↦ false ]
  | bound ↦ elim t [ bound ↦ true | _ ↦ false ]
  | open_udp ↦ elim t [ open_udp ↦ true | _ ↦ false ]
  | listening ↦ elim t [ listening ↦ true | _ ↦ false ]
  | connecting ↦ elim t [ connecting ↦ true | _ ↦ false ]
  | connected ↦ elim t [ connected ↦ true | _ ↦ false ]
  | error ↦ elim t [ error ↦ true | _ ↦ false ]
]

abbrev pub is_listening : SocketState → Bool
is_listening s = elim s [ listening ↦ true | _ ↦ false ]

abbrev pub is_free : PortState → Bool
is_free s = elim s [ free ↦ true | _ ↦ false ]

-- `(uint32_t)c` of a signed `char`.
abbrev pub byte_u32 : ℕ → ℕ
byte_u32 c = if ltb c 128 then c else c + 0xffff_ff00

-- The loop of `checksum_packet`.
unfoldable pub checksum_loop : ℕ → Text → ℕ
checksum_loop sum [] = sum
checksum_loop sum (c ∷ cs) =
    checksum_loop (bit_xor (bit_xor ((sum * 32) % u32) (sum / 4)) (byte_u32 c)) cs

unfoldable pub checksum_packet : Text → ℕ → ℕ → ℕ
unfolding checksum_loop
checksum_packet payload src_port dst_port =
    checksum_loop (bit_xor (bit_xor src_port ((dst_port * 0x1_0000) % u32)) 0xc0de_c0de) payload

-- The socket of that number, if it is in use: its index is the number.
unfoldable pub socket_by_id : ℕ → Net → Option ℕ
socket_by_id id n = if ltb id socket_max && (socket_at n id).used then some id else none

abbrev pub has_fd : ℕ → Option ℕ → Bool
has_fd fd o = elim o [ none ↦ false | some k ↦ k == fd ]

unfoldable pub socket_by_fd : ℕ → ℕ → Net → Option ℕ
socket_by_fd pid fd n =
    find_index (λ (s : Socket). s.used && ((s.owner_pid == pid) && has_fd fd s.fd)) n.sockets

abbrev pub is_port : ℕ → Port → Bool
is_port p e = e.used && (e.port == p)

unfoldable pub port_by_number : ℕ → Net → Option ℕ
port_by_number p n = find_index (is_port p) n.ports

unfoldable pub listener_for_port : ℕ → Net → Option ℕ
listener_for_port p n =
    find_index (λ (s : Socket). s.used && ((s.local_port == p) && is_listening s.state)) n.sockets

-- The entry that `port_alloc` sets up.
abbrev pub fresh_port : ℕ → Port
fresh_port p = record {
  used = true;
  port = p;
  state = free;
  owner_pid = 0;
  socket_id = 0;
  service = codes "loopback";
}

unfoldable pub port_alloc : ℕ → Net → Option ℕ × Net
port_alloc p n = elim (port_by_number p n) [
  | some e ↦ (some e, n)
  | none ↦ elim (find_index (λ (e : Port). not e.used) n.ports) [
    | none ↦ (none, n)
    | some e ↦ (some e, modify_port (λ (q : Port). fresh_port p) e n)
  ]
]

-- `socket_set_state(&sockets[i], state)`
unfoldable pub socket_set_state : SocketState → ℕ → Net → Net
socket_set_state st i n =
    if same_state (socket_at n i).state st
    then n
    else record (modify_socket (λ (s : Socket). record s { state = st }) i n) {
      state_changes = add32 n.state_changes 1;
    }

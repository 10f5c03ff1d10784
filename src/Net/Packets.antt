-- ===== src/Net/Packets.antt =====
-- The packet queue of src/net.c and what is sent through it. `i` is the index of the socket that
-- the source passes a pointer to.
use tabla_rusa_os.Base.{
  ℕ, Text, Bool, true, false, not, Option, none, some, ◌==◌, ◌&&◌, if◌then◌else◌, ltb, get_or,
  modify, length, find_index, count_if, str_copy, codes, add32, map, Result, ok, err,
}
use tabla_rusa_os.Jobs.Table.{jobs_account}
use tabla_rusa_os.Net.Table.{
  PacketDir, tx, rx, Packet, no_packet, Socket, closed, connected, listening, Net, socket_at,
  modify_socket, drop_one, proto_text, is_tcp, same_state, payload_max, checksum_packet,
  socket_by_id, socket_set_state,
}
use tabla_rusa_os.System.{System, append_to, network_log, on_net}

abbrev pub packet_at : Net → ℕ → Packet
packet_at n k = get_or n.packets k no_packet

unfoldable pub alloc_packet : Net → Option ℕ × Net
alloc_packet n = elim (find_index (λ (p : Packet). not p.used) n.packets) [
  | none ↦ (none, drop_one n)
  | some k ↦ (
    some k,
    record n {
      packets =
          modify (λ (p : Packet). record p { used = true; id = n.next_packet_id }) k n.packets;
      next_packet_id = add32 n.next_packet_id 1;
    },
  )
]

abbrev pub filled : PacketDir → Text → ℕ → ℕ → Text → Packet → Packet
filled dir proto src_port dst_port payload p = record p {
  dir = dir;
  proto = proto;
  src_port = src_port;
  dst_port = dst_port;
  payload = str_copy payload payload_max;
  len = length (str_copy payload payload_max);
  checksum = checksum_packet (str_copy payload payload_max) src_port dst_port;
}

unfoldable pub packet_fill : PacketDir → Text → ℕ → ℕ → Text → ℕ → Net → Net
packet_fill dir proto src_port dst_port payload k n = record n {
  packets = modify (filled dir proto src_port dst_port payload) k n.packets;
}

-- The socket that a packet of socket `i` goes to: its peer, or itself without one.
unfoldable pub destination : ℕ → Net → ℕ
unfolding socket_by_id
destination i n = elim (socket_by_id (socket_at n i).peer_id n) [ none ↦ i | some d ↦ d ]

-- What a packet leaves in the socket that it reaches.
abbrev pub received : Packet → ℕ → Socket → Socket
received p now s = record s {
  rx = str_copy p.payload payload_max;
  rx_packets = add32 s.rx_packets 1;
  bytes_rx = add32 s.bytes_rx p.len;
  last_activity = now;
}

-- The lines of `deliver_loopback` behind `packet_fill`, for the packet of index `k`.
unfoldable pub accept_packet : ℕ → ℕ → ℕ → Net → Net
accept_packet k d now n =
    let p = packet_at n k in
    if not (p.checksum == checksum_packet p.payload p.src_port p.dst_port)
    then record n { checksum_errors = add32 n.checksum_errors 1 }
    else record (modify_socket (received p now) d n) { rx_packets = add32 n.rx_packets 1 }

unfoldable pub deliver_loopback : ℕ → Text → ℕ → Net → Net
unfolding accept_packet
deliver_loopback i payload now n =
    let s = socket_at n i in
    let made = alloc_packet n in
    elim made.0 [
      | none ↦ made.1
      | some k ↦
          accept_packet k (destination i n) now
            (packet_fill rx (proto_text s.proto) s.remote_port s.local_port payload k made.1)
    ]

-- The socket's counters once a packet was filled, in which `len` bytes fit.
abbrev pub counted : ℕ → ℕ → Socket → Socket
counted len now s = record s {
  tx_packets = add32 s.tx_packets 1;
  bytes_tx = add32 s.bytes_tx len;
  last_activity = now;
}

-- The network's part of `socket_send` behind the flood test, with the packet `k`.
unfoldable pub transmit : ℕ → ℕ → Text → ℕ → Net → Net
transmit i k payload now n =
    let s = socket_at n i in
    let n1 = packet_fill tx (proto_text s.proto) s.local_port s.remote_port payload k n in
    let n2 = modify_socket (counted (packet_at n1 k).len now) i n1 in
    deliver_loopback i payload now (record n2 { tx_packets = add32 n2.tx_packets 1 })

abbrev pub raise_flood : ℕ → Net → Net
raise_flood i n =
    modify_socket (λ (s : Socket). record s { flood_score = add32 s.flood_score 1 }) i n

-- The shield's test, once the score was raised.
abbrev pub is_flood : ℕ → Net → Bool
is_flood i n = n.shield_enabled && ltb n.flood_threshold (socket_at n i).flood_score

-- A tcp socket sends in these states only.
abbrev pub may_send : Socket → Bool
may_send s =
    not (is_tcp s.proto && not (same_state s.state connected) && not (same_state s.state listening))

-- The lines of `socket_send` behind the allocation of the packet `k`.
unfoldable pub send_packet : ℕ → ℕ → Text → System → Result (Unit {0}) × System
send_packet i k payload y =
    let n = raise_flood i y.net in
    if is_flood i n
    then (
      err 1,
      append_to network_log (codes "net shield: port closed after flood pattern")
          (record y { net = drop_one (socket_set_state closed i n) }),
    )
    else (
      ok tt,
      record (append_to network_log (codes "net: loopback packet queued")
          (record y { net = transmit i k payload y.sec.ticks n })) {
            jobs = jobs_account (codes "network-packet") 2 y.jobs;
          },
    )

unfoldable pub socket_send : ℕ → Text → System → Result (Unit {0}) × System
unfolding send_packet
socket_send i payload y =
    let made = alloc_packet y.net in
    if not (may_send (socket_at y.net i)) then (err 1, on_net drop_one y) else elim made.0 [
      | none ↦ (err 1, record y { net = made.1 })
      | some k ↦ send_packet i k payload (record y { net = made.1 })
    ]

unfoldable pub net_packet_count : Net → ℕ
net_packet_count n = count_if (λ (p : Packet). p.used) n.packets

-- `net flush`
unfoldable pub net_flush : Net → Net
net_flush n = record n { packets = map (λ (p : Packet). record p { used = false }) n.packets }

-- ===== src/Net/Arrival.antt =====
-- What a packet that src/net.c delivers leaves with its receiver.
use tabla_rusa_os.Base.{
  ℕ, ◌≡◌, ◌<◌, refl, ap, ◌∙◌, Text, Bool, true, not, ltb, ==_iff, some, find_index, find_index-lt,
  find_index-modify, get_or, modify, modify-field, length, length-modify, get_or-modify_self,
  str_copy, str_copy_fits, length-str_copy, add32, arith,
}
use tabla_rusa_os.Net.Table.{
  PacketDir, tx, rx, Packet, no_packet, Socket, no_socket, Net, socket_at, modify_socket,
  socket_by_id, checksum_packet, proto_text, payload_max, socket_max,
}
use tabla_rusa_os.Net.Packets.{
  packet_at, alloc_packet, filled, packet_fill, destination, received, accept_packet,
  deliver_loopback, counted, transmit, raise_flood, is_flood,
}

-- Some packet of the queue is free.
abbrev pub free_packet : Packet → Bool
free_packet p = not p.used

cut_twice :
    (payload : Text)
    → str_copy (str_copy payload payload_max) payload_max ≡ str_copy payload payload_max
cut_twice payload =
    str_copy_fits (str_copy payload payload_max) payload_max
      (omega (arith, length-str_copy payload payload_max))

-- The socket `d` has the text, cut to the payload's size, and is in use if it was.
unfoldable pub Arrived : Text → Net → ℕ → Net → Type 0
Arrived payload n d n' =
    ((socket_at n' d).rx ≡ str_copy payload payload_max)
    × ((socket_at n' d).used ≡ (socket_at n d).used)

-- A packet just filled passes its checksum, so its text reaches the socket `d`.
accept_packet-filled :
    (dir : PacketDir) (proto : Text) (src_port dst_port : ℕ) (payload : Text) (k d now : ℕ)
    (n : Net)
    → k < length n.packets
    → d < length n.sockets
    → Arrived payload n d
        (accept_packet k d now (packet_fill dir proto src_port dst_port payload k n))
unfolding accept_packet packet_fill Arrived
accept_packet-filled dir proto src_port dst_port payload k d now n hk hd =
    let f : Packet → Packet = filled dir proto src_port dst_port payload in
    let at : get_or (modify f k n.packets) k no_packet ≡ f (packet_at n k) =
      get_or-modify_self f k n.packets no_packet hk in
    let sum = checksum_packet (str_copy payload payload_max) src_port dst_port in
    let self = get_or-modify_self (received (f (packet_at n k)) now) d n.sockets no_socket hd in
    rw (at, (==_iff sum sum).1 refl)
      (ap (λ s. s.rx) self ∙ cut_twice payload, ap (λ s. s.used) self)

pub alloc_packet-some :
    (k : ℕ) (n : Net)
    → find_index free_packet n.packets ≡ some k
    → ((alloc_packet n).0 ≡ some k)
      × (length (alloc_packet n).1.packets ≡ length n.packets)
      × ((alloc_packet n).1.sockets ≡ n.sockets)
      × ((i : ℕ) → is_flood i (raise_flood i (alloc_packet n).1) ≡ is_flood i (raise_flood i n))
unfolding alloc_packet
alloc_packet-some k n q = rw (q, alloc_packet) (refl, length-modify _ k n.packets, refl, λ i. refl)

-- With a free packet, the text reaches the destination.
deliver_loopback-rx :
    (i k d : ℕ) (payload : Text) (now : ℕ) (n : Net)
    → find_index free_packet n.packets ≡ some k
    → destination i n ≡ d
    → d < length n.sockets
    → Arrived payload n d (deliver_loopback i payload now n)
unfolding deliver_loopback Arrived
deliver_loopback-rx i k d payload now n q at h =
    let (a, b, c, flood) = alloc_packet-some k n q in
    let lt = find_index-lt free_packet n.packets k q in
    let s = socket_at n i in
    let arrived =
      accept_packet-filled rx (proto_text s.proto) s.remote_port s.local_port payload k d now
        (alloc_packet n).1 (omega arith) (rw c h) in
    rw (a, deliver_loopback, at) (arrived.0, arrived.1 ∙ ap (λ ss. (get_or ss d no_socket).used) c)

destination-peer :
    (i d : ℕ) (n : Net)
    → (socket_at n i).peer_id ≡ d
    → d < socket_max
    → (socket_at n d).used ≡ true
    → destination i n ≡ d
unfolding destination socket_by_id
destination-peer i d n at lt used =
    let q : ltb d socket_max ≡ true = ground arith in rw (at, destination, q, used) refl

pub transmit-Arrived :
    (i k b d : ℕ) (payload : Text) (now : ℕ) (n : Net)
    → find_index free_packet n.packets ≡ some b
    → (socket_at n i).peer_id ≡ d
    → d < socket_max
    → d < length n.sockets
    → (socket_at n d).used ≡ true
    → Arrived payload n d (transmit i k payload now n)
unfolding transmit packet_fill Arrived
transmit-Arrived i k b d payload now n free at lt h used =
    let s = socket_at n i in
    let n1 : Net = packet_fill tx (proto_text s.proto) s.local_port s.remote_port payload k n in
    let g : Socket → Socket = counted (packet_at n1 k).len now in
    let n3 : Net = record (modify_socket g i n1) {
      tx_packets = add32 (modify_socket g i n1).tx_packets 1;
    } in
    let same =
      find_index-modify free_packet
        (filled tx (proto_text s.proto) s.local_port s.remote_port payload) k n.packets no_packet
        refl in
    let used' = modify-field (λ (x : Socket). x.used) g i d n.sockets no_socket (λ x. refl) in
    let peer' = modify-field (λ (x : Socket). x.peer_id) g i i n.sockets no_socket (λ x. refl) in
    let arrived =
      deliver_loopback-rx i b d payload now n3 (same ∙ free)
        (destination-peer i d n3 (peer' ∙ at) lt (used' ∙ used))
        (rw (length-modify g i n.sockets) h) in
    (arrived.0, arrived.1 ∙ used')

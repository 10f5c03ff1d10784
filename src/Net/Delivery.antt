-- ===== src/Net/Delivery.antt =====
-- What a text that src/net.c sends leaves with its receiver.
use tabla_rusa_os.Base.{
  ℕ, ◌≡◌, ◌≢◌, ◌<◌, refl, ap, ◌∙◌, inl, inr, Text, [], ◌∷◌, true, false, ◌==◌, if◌then◌else◌, ltb,
  Bool-cases, some, find_index, find_index-total, get_or, modify, modify-field, length,
  length-modify, get_or-modify_ne, str_copy, str_copy_fits, length-str_copy, is_empty, ok, add32,
  arith, codes,
}
use tabla_rusa_os.Policy.Table.{privacy_allows_network}
use tabla_rusa_os.Net.Table.{
  Packet, no_packet, Socket, no_socket, connected, Net, socket_at, socket_by_id, payload_max,
  socket_max, is_tcp,
}
use tabla_rusa_os.Net.Packets.{
  packet_at, alloc_packet, raise_flood, is_flood, may_send, send_packet, socket_send,
}
use tabla_rusa_os.Net.Sockets.{open_bound, net_send, net_recv, pending_text}
use tabla_rusa_os.System.{System}
use tabla_rusa_os.Net.Arrival.{free_packet, Arrived, alloc_packet-some, transmit-Arrived}

send_packet-Arrived :
    (i k b d : ℕ) (payload : Text) (y : System)
    → find_index free_packet y.net.packets ≡ some b
    → (socket_at y.net i).peer_id ≡ d
    → d < socket_max
    → d < length y.net.sockets
    → (socket_at y.net d).used ≡ true
    → is_flood i (raise_flood i y.net) ≡ false
    → ((send_packet i k payload y).0 ≡ ok tt)
      × Arrived payload y.net d (send_packet i k payload y).1.net
unfolding send_packet Arrived
send_packet-Arrived i k b d payload y free at lt h used calm =
    let f : Socket → Socket = λ s. record s { flood_score = add32 s.flood_score 1 } in
    let used' = modify-field (λ (x : Socket). x.used) f i d y.net.sockets no_socket (λ x. refl) in
    let peer' =
      modify-field (λ (x : Socket). x.peer_id) f i i y.net.sockets no_socket (λ x. refl) in
    let arrived =
      transmit-Arrived i k b d payload y.sec.ticks (raise_flood i y.net) free (peer' ∙ at) lt
        (rw (length-modify f i y.net.sockets) h) (used' ∙ used) in
    rw calm (refl, (arrived.0, arrived.1 ∙ used'))

-- Behind the first allocation there is a second free packet.
alloc_packet-second :
    (k k' : ℕ) (n : Net)
    → k ≢ k'
    → k < length n.packets
    → k' < length n.packets
    → (packet_at n k).used ≡ false
    → (packet_at n k').used ≡ false
    → (a : ℕ) × (b : ℕ) × (find_index free_packet n.packets ≡ some a)
      × (find_index free_packet (alloc_packet n).1.packets ≡ some b)
unfolding alloc_packet
alloc_packet-second k k' n differs lt lt' free free' =
    let g : Packet → Packet = λ p. record p { used = true; id = n.next_packet_id } in
    let (a, found) = find_index-total free_packet n.packets k no_packet lt (rw free refl) in
    let other : (j : ℕ)
        → a ≢ j
        → j < length n.packets
        → (packet_at n j).used ≡ false
        → (b : ℕ) × (find_index free_packet (modify g a n.packets) ≡ some b) =
      λ j ne l u.
        find_index-total free_packet (modify g a n.packets) j no_packet
          (rw (length-modify g a n.packets) l)
          (rw (get_or-modify_ne g a j n.packets no_packet ne, u) refl) in
    elim (Bool-cases (a == k)) [
      | inr q ↦
          let (b, second) = other k (ground arith) lt free in
          (a, b, found, rw (found, alloc_packet) second)
      | inl q ↦
          let (b, second) = other k' (ground arith) lt' free' in
          (a, b, found, rw (found, alloc_packet) second)
    ]

socket_send-Arrived :
    (i k k' d : ℕ) (payload : Text) (y : System)
    → k ≢ k'
    → k < length y.net.packets
    → k' < length y.net.packets
    → (packet_at y.net k).used ≡ false
    → (packet_at y.net k').used ≡ false
    → may_send (socket_at y.net i) ≡ true
    → (socket_at y.net i).peer_id ≡ d
    → d < socket_max
    → d < length y.net.sockets
    → (socket_at y.net d).used ≡ true
    → is_flood i (raise_flood i y.net) ≡ false
    → ((socket_send i payload y).0 ≡ ok tt)
      × Arrived payload y.net d (socket_send i payload y).1.net
unfolding socket_send Arrived
socket_send-Arrived i k k' d payload y differs lt lt' free free' may at small h used calm =
    let (a, b, found, second) = alloc_packet-second k k' y.net differs lt lt' free free' in
    let n : Net = (alloc_packet y.net).1 in
    let (taken, packets, sockets, flood) = alloc_packet-some a y.net found in
    let (sent, arrived) =
      send_packet-Arrived i a b d payload (record y { net = n }) second (rw sockets at) small
        (rw sockets h) (rw sockets used) (flood i ∙ calm) in
    rw (may, taken) (sent, (arrived.0, arrived.1 ∙ ap (λ ss. (get_or ss d no_socket).used) sockets))

socket_by_id-used :
    (d : ℕ) (n : Net) → d < socket_max → (socket_at n d).used ≡ true → socket_by_id d n ≡ some d
unfolding socket_by_id
socket_by_id-used d n small used =
    let q : ltb d socket_max ≡ true = ground arith in rw (q, used) refl

net_send-connected :
    (i : ℕ) (text : Text) (y : System)
    → privacy_allows_network y.privacy ≡ true
    → socket_by_id i y.net ≡ some i
    → (socket_at y.net i).state ≡ connected
    → net_send i text y ≡ socket_send i text y
unfolding net_send open_bound
net_send-connected i text y on self state = rw (self, net_send, on, state) refl

may_send-connected : (s : Socket) → s.state ≡ connected → may_send s ≡ true
may_send-connected s e = elim (Bool-cases (is_tcp s.proto)) [
  | inl q ↦ rw (e, q) refl
  | inr q ↦ rw (e, q) refl
]

-- What the receiver reads of a text of at most 63 characters, in a buffer of 96.
pending-text :
    (s : Socket) (text : Text)
    → s.rx ≡ str_copy text payload_max
    → str_copy (pending_text s) 96
      ≡ (if is_empty text then codes "<empty>" else str_copy text payload_max)
unfolding str_copy
pending-text s [] e = rw e refl
pending-text s (c ∷ cs) e = rw e (
    str_copy_fits (str_copy (c ∷ cs) payload_max) 96
      (omega (arith, length-str_copy (c ∷ cs) payload_max)))

-- A text that a connected socket sends to its peer, with both switches on, two free packets and a
-- flood score that the shield lets pass, is what the peer receives next, cut to 63 characters, or
-- "<empty>" for the empty text; the send succeeds.
pub net_send-net_recv :
    (i k k' d : ℕ) (text : Text) (y : System)
    → privacy_allows_network y.privacy ≡ true
    → socket_by_id i y.net ≡ some i
    → (socket_at y.net i).state ≡ connected
    → (socket_at y.net i).peer_id ≡ d
    → d < socket_max
    → d < length y.net.sockets
    → (socket_at y.net d).used ≡ true
    → k ≢ k'
    → k < length y.net.packets
    → k' < length y.net.packets
    → (packet_at y.net k).used ≡ false
    → (packet_at y.net k').used ≡ false
    → is_flood i (raise_flood i y.net) ≡ false
    → ((net_send i text y).0 ≡ ok tt)
      × ((net_recv d (net_send i text y).1).0
          ≡ ok (if is_empty text then codes "<empty>" else str_copy text payload_max))
unfolding net_recv Arrived
net_send-net_recv i k k' d text y on self state at small h used differs lt lt' free free' calm =
    let may = may_send-connected (socket_at y.net i) state in
    let (sent, arrived) =
      socket_send-Arrived i k k' d text y differs lt lt' free free' may at small h used calm in
    let z : System = (socket_send i text y).1 in
    let found = socket_by_id-used d z.net small (arrived.1 ∙ used) in
    rw (net_send-connected i text y on self state)
      (sent, rw (found, net_recv) (ap ok (pending-text (socket_at z.net d) text arrived.0)))

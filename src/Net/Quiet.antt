-- ===== src/Net/Quiet.antt =====
-- The operations of src/net.c that leave every port with its holder.
use tabla_rusa_os.Base.{
  ℕ, ◌≡◌, refl, inl, inr, Bool, true, false, not, if◌then◌else◌, ◌==◌, Bool-cases, Option-cases,
  find_index, Text, add32,
}
use tabla_rusa_os.Net.Table.{
  Socket, SocketState, closed, Packet, Net, socket_at, modify_socket, checksum_packet,
  socket_set_state, same_state, proto_text, tx,
}
use tabla_rusa_os.Net.Packets.{
  alloc_packet, packet_fill, accept_packet, deliver_loopback, transmit, raise_flood, is_flood,
  may_send, send_packet, socket_send, destination, packet_at, received, counted,
}
use tabla_rusa_os.Net.Ports.{Quiet, Quiet-refl, Quiet-trans, modify-Quiet, same-Keeps}
use tabla_rusa_os.System.{System}

-- An assignment that touches neither `used` nor `local_port`.
pub same-Quiet :
    (f : Socket → Socket) (i : ℕ) (n : Net)
    → (f (socket_at n i)).used ≡ (socket_at n i).used
    → (f (socket_at n i)).local_port ≡ (socket_at n i).local_port
    → Quiet n (modify_socket f i n)
same-Quiet f i n u p = modify-Quiet f i n (same-Keeps i (socket_at n i) (f (socket_at n i)) u p)

-- Both branches of a test.
pub if-Quiet : (b : Bool) (n x y : Net) → Quiet n x → Quiet n y → Quiet n (if b then x else y)
if-Quiet true n x y p q = p
if-Quiet false n x y p q = q

pub socket_set_state-Quiet :
    (st : SocketState) (i : ℕ) (n : Net) → Quiet n (socket_set_state st i n)
unfolding socket_set_state
socket_set_state-Quiet st i n = elim (Bool-cases (same_state (socket_at n i).state st)) [
  | inl q ↦ rw q Quiet-refl
  | inr q ↦ rw q (same-Quiet (λ (s : Socket). record s { state = st }) i n refl refl)
]

accept_packet-Quiet : (k d now : ℕ) (n : Net) → Quiet n (accept_packet k d now n)
unfolding accept_packet
accept_packet-Quiet k d now n =
    let p = packet_at n k in
    elim (Bool-cases (p.checksum == checksum_packet p.payload p.src_port p.dst_port)) [
      | inl q ↦ rw q (same-Quiet (received p now) d n refl refl)
      | inr q ↦ rw q Quiet-refl
    ]

alloc_packet-Quiet : (n : Net) → Quiet n (alloc_packet n).1
unfolding alloc_packet
alloc_packet-Quiet n = elim (Option-cases (find_index (λ (p : Packet). not p.used) n.packets)) [
  | inl q ↦ rw (q, alloc_packet) Quiet-refl
  | inr (k, q) ↦ rw (q, alloc_packet) Quiet-refl
]

deliver_loopback-Quiet :
    (i : ℕ) (payload : Text) (now : ℕ) (n : Net) → Quiet n (deliver_loopback i payload now n)
unfolding deliver_loopback packet_fill
deliver_loopback-Quiet i payload now n = elim (Option-cases (alloc_packet n).0) [
  | inl q ↦ rw (q, deliver_loopback) (alloc_packet-Quiet n)
  | inr (k, q) ↦
      rw (q, deliver_loopback)
        (Quiet-trans (alloc_packet-Quiet n) (accept_packet-Quiet k (destination i n) now _))
]

transmit-Quiet :
    (i k : ℕ) (payload : Text) (now : ℕ) (n : Net) → Quiet n (transmit i k payload now n)
unfolding transmit packet_fill
transmit-Quiet i k payload now n =
    let s = socket_at n i in
    let n1 : Net = packet_fill tx (proto_text s.proto) s.local_port s.remote_port payload k n in
    Quiet-trans (same-Quiet (counted (packet_at n1 k).len now) i n1 refl refl)
      (deliver_loopback-Quiet i payload now _)

raise_flood-Quiet : (i : ℕ) (n : Net) → Quiet n (raise_flood i n)
raise_flood-Quiet i n =
    same-Quiet (λ (s : Socket). record s { flood_score = add32 s.flood_score 1 }) i n refl refl

send_packet-Quiet :
    (i k : ℕ) (payload : Text) (y : System) → Quiet y.net (send_packet i k payload y).1.net
unfolding send_packet
send_packet-Quiet i k payload y =
    let n : Net = raise_flood i y.net in
    elim (Bool-cases (is_flood i n)) [
      | inl q ↦ rw q (Quiet-trans (raise_flood-Quiet i y.net) (socket_set_state-Quiet closed i n))
      | inr q ↦
          rw q (Quiet-trans (raise_flood-Quiet i y.net) (transmit-Quiet i k payload y.sec.ticks n))
    ]

pub socket_send-Quiet :
    (i : ℕ) (payload : Text) (y : System) → Quiet y.net (socket_send i payload y).1.net
unfolding socket_send
socket_send-Quiet i payload y = elim (Bool-cases (may_send (socket_at y.net i))) [
  | inr q ↦ rw q Quiet-refl
  | inl q ↦ elim (Option-cases (alloc_packet y.net).0) [
    | inl r ↦ rw (q, r) (alloc_packet-Quiet y.net)
    | inr (k, r) ↦
        rw (q, r) (Quiet-trans (alloc_packet-Quiet y.net) (send_packet-Quiet i k payload _))
  ]
]

-- ===== src/Net/States.antt =====
-- What the assignments of a socket's state in src/net.c leave in the tables.
use tabla_rusa_os.Base.{
  ℕ, ◌<◌, ◌≡◌, ap, ◌≢◌, inl, inr, true, length, length-modify, get_or-modify_self, get_or-modify_ne,
  arith, Bool-cases,
}
use tabla_rusa_os.Net.Table.{
  SocketState, closed, bound, open_udp, listening, connecting, connected, error, Socket, no_socket,
  Net, socket_at, socket_set_state, same_state,
}

same_state-eq : (s t : SocketState) → same_state s t ≡ true → s ≡ t
same_state-eq closed t e = ground arith
same_state-eq bound t e = ground arith
same_state-eq open_udp t e = ground arith
same_state-eq listening t e = ground arith
same_state-eq connecting t e = ground arith
same_state-eq connected t e = ground arith
same_state-eq error t e = ground arith

-- The socket has the new state, and its other fields are as before.
pub socket_set_state_self :
    (st : SocketState) (i : ℕ) (n : Net)
    → i < length n.sockets
    → socket_at (socket_set_state st i n) i ≡ record (socket_at n i) { state = st }
unfolding socket_set_state
socket_set_state_self st i n h = elim (Bool-cases (same_state (socket_at n i).state st)) [
  | inl q ↦
      rw q
        (ap (λ t. record (socket_at n i) { state = t }) (same_state-eq (socket_at n i).state st q))
  | inr q ↦
      rw q (get_or-modify_self (λ (s : Socket). record s { state = st }) i n.sockets no_socket h)
]

pub socket_set_state-ne :
    (st : SocketState) (i j : ℕ) (n : Net)
    → i ≢ j
    → socket_at (socket_set_state st i n) j ≡ socket_at n j
unfolding socket_set_state
socket_set_state-ne st i j n h = elim (Bool-cases (same_state (socket_at n i).state st)) [
  | inl q ↦ rw q
  | inr q ↦
      rw q (get_or-modify_ne (λ (s : Socket). record s { state = st }) i j n.sockets no_socket h)
]

pub socket_set_state-length :
    (st : SocketState) (i : ℕ) (n : Net)
    → length (socket_set_state st i n).sockets ≡ length n.sockets
unfolding socket_set_state
socket_set_state-length st i n = elim (Bool-cases (same_state (socket_at n i).state st)) [
  | inl q ↦ rw q
  | inr q ↦ rw q (length-modify (λ (s : Socket). record s { state = st }) i n.sockets)
]

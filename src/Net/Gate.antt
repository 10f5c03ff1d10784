-- ===== src/Net/Gate.antt =====
-- `net_disconnect_all` of src/net.c, and the calls that the switches of src/privacy.c refuse.
use tabla_rusa_os.Base.{
  ℕ, zero, suc, ◌+◌, ◌≡◌, ◌≢◌, ◌<◌, ◌≤◌, refl, sym, ap, ◌∙◌, inl, inr, true, false, ◌&&◌,
  if◌then◌else◌, ltb, ◌==◌, Bool-cases, Option-cases, Text, err, length, get_or-past, arith,
}
use tabla_rusa_os.Policy.Table.{privacy_allows_network}
use tabla_rusa_os.Policy.Firewall.{policy_check_network_access}
use tabla_rusa_os.Net.Table.{
  no_socket, closed, Net, socket_at, socket_set_state, is_tcp, socket_by_id, socket_by_fd,
  socket_max,
}
use tabla_rusa_os.Net.Sockets.{net_listen, net_connect, net_send}
use tabla_rusa_os.Net.Closing.{net_fd_write, disconnect_loop, net_disconnect_all}
use tabla_rusa_os.Net.States.{socket_set_state_self, socket_set_state-ne}
use tabla_rusa_os.System.{System}

-- One round of the loop.
round : ℕ → Net → Net
round i n =
    if (socket_at n i).used && is_tcp (socket_at n i).proto then socket_set_state closed i n else n

used-lt : (i : ℕ) (n : Net) → (socket_at n i).used ≡ true → i < length n.sockets
used-lt i n u = elim (Bool-cases (ltb i (length n.sockets))) [
  | inl q ↦ ground arith
  | inr q ↦
      let past : length n.sockets ≤ i = ground arith in
      let e = get_or-past n.sockets i no_socket past in
      let f : true ≡ false = sym u ∙ ap (λ s. s.used) e in absurd cc
]

round-ne : (i k : ℕ) (n : Net) → i ≢ k → socket_at (round i n) k ≡ socket_at n k
unfolding round
round-ne i k n h = elim (Bool-cases ((socket_at n i).used && is_tcp (socket_at n i).proto)) [
  | inl q ↦ rw q (socket_set_state-ne closed i k n h)
  | inr q ↦ rw q refl
]

-- A tcp socket in use is closed after its round.
round_self :
    (i : ℕ) (n : Net)
    → (socket_at (round i n) i).used ≡ true
    → is_tcp (socket_at (round i n) i).proto ≡ true
    → (socket_at (round i n) i).state ≡ closed
unfolding round
round_self i n = elim (Bool-cases ((socket_at n i).used && is_tcp (socket_at n i).proto)) [
  | inl q ↦
      let lt = used-lt i n (ground arith) in
      rw q (λ u t. ap (λ s. s.state) (socket_set_state_self closed i n lt))
  | inr q ↦ rw q (λ u t. absurd (ground arith))
]

loop-before :
    (rounds i k : ℕ) (n : Net) → k < i → socket_at (disconnect_loop rounds i n) k ≡ socket_at n k
unfolding disconnect_loop round
loop-before zero i k n h = refl
loop-before (suc rounds) i k n h =
    loop-before rounds (i + 1) k (round i n) (omega arith) ∙ round-ne i k n (omega arith)

loop-closed :
    (rounds i k : ℕ) (n : Net)
    → i ≤ k
    → k < i + rounds
    → (socket_at (disconnect_loop rounds i n) k).used ≡ true
    → is_tcp (socket_at (disconnect_loop rounds i n) k).proto ≡ true
    → (socket_at (disconnect_loop rounds i n) k).state ≡ closed
unfolding disconnect_loop round
loop-closed zero i k n h l = absurd (omega arith)
loop-closed (suc rounds) i k n h l = elim (Bool-cases (i == k)) [
  | inr q ↦ loop-closed rounds (i + 1) k (round i n) (ground arith) (omega arith)
  | inl q ↦
      let at : i ≡ k = ground arith in
      let kept : socket_at (disconnect_loop rounds (i + 1) (round i n)) k
          ≡ socket_at (round k n) k =
        loop-before rounds (i + 1) k (round i n) (omega arith)
        ∙ ap (λ j. socket_at (round j n) k) at in
      λ u t.
        ap (λ s. s.state) kept
        ∙ round_self k n (sym (ap (λ s. s.used) kept) ∙ u) (sym (ap (λ s. is_tcp s.proto) kept) ∙ t)
]

pub net_disconnect_all-closed :
    (k : ℕ) (n : Net)
    → k < socket_max
    → (socket_at (net_disconnect_all n) k).used ≡ true
    → is_tcp (socket_at (net_disconnect_all n) k).proto ≡ true
    → (socket_at (net_disconnect_all n) k).state ≡ closed
unfolding net_disconnect_all
net_disconnect_all-closed k n h = loop-closed socket_max 0 k n (omega arith) (omega arith)

pub net_connect-off :
    (id port : ℕ) (y : System)
    → privacy_allows_network y.privacy ≡ false
    → net_connect id port y ≡ (err 1, y)
unfolding net_connect
net_connect-off id port y off = elim (Option-cases (socket_by_id id y.net)) [
  | inl q ↦ rw (q, net_connect) refl
  | inr (i, q) ↦ rw (q, net_connect, off) refl
]

pub net_send-off :
    (id : ℕ) (text : Text) (y : System)
    → privacy_allows_network y.privacy ≡ false
    → net_send id text y ≡ (err 1, y)
unfolding net_send
net_send-off id text y off = elim (Option-cases (socket_by_id id y.net)) [
  | inl q ↦ rw (q, net_send) refl
  | inr (i, q) ↦ rw (q, net_send, off) refl
]

pub net_fd_write-off :
    (pid fd : ℕ) (text : Text) (y : System)
    → privacy_allows_network y.privacy ≡ false
    → (net_fd_write pid fd text y).0 ≡ err 1
unfolding net_fd_write
net_fd_write-off pid fd text y off = elim (Option-cases (socket_by_fd pid fd y.net)) [
  | inl q ↦ rw (q, net_fd_write) refl
  | inr (i, q) ↦ rw (q, net_fd_write, off) refl
]

pub net_listen-off :
    (id : ℕ) (y : System) → privacy_allows_network y.privacy ≡ false → (net_listen id y).0 ≡ err 1
unfolding net_listen policy_check_network_access
net_listen-off id y off = elim (Option-cases (socket_by_id id y.net)) [
  | inl q ↦ rw (q, net_listen) refl
  | inr (i, q) ↦ elim (Bool-cases ((socket_at y.net i).local_port == 0)) [
    | inl r ↦ rw (q, net_listen, r) refl
    | inr r ↦ rw (q, net_listen, r, off) refl
  ]
]

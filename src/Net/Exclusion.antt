-- ===== src/Net/Exclusion.antt =====
-- No call of src/net.c gives one port to two sockets.
use tabla_rusa_os.Base.{
  List, ◌∷◌, ℕ, zero, suc, ◌+◌, ◌≡◌, ◌≢◌, refl, sym, ap, ◌∙◌, subst, inl, inr, true, false, ◌&&◌,
  if◌then◌else◌, ◌==◌, ==_iff, Bool-cases, Option-cases, arith, get_or, modify, modify-cases,
  find_index-modify, codes, [],
}
use tabla_rusa_os.Net.Table.{
  Socket, no_socket, SocketState, closed, connecting, connected, Port, PortState, free, no_port,
  Net, socket_at, modify_socket, port_at, modify_port, port_by_number, is_port, socket_set_state,
  is_tcp, socket_by_id, socket_max,
}
use tabla_rusa_os.Net.Sockets.{listen_port, join, is_closed_port}
use tabla_rusa_os.Net.Closing.{leave_peer, free_port, close_socket, disconnect_loop}
use tabla_rusa_os.Net.Ports.{
  Owns, Exclusive, Quiet, Quiet-Owns, Quiet-refl, Quiet-trans, Quiet-Exclusive, modify-Quiet,
  ephemeral-Keeps, unused-Keeps, modify_port-Exclusive,
}
use tabla_rusa_os.Net.Quiet.{same-Quiet, if-Quiet, socket_set_state-Quiet}
use tabla_rusa_os.Net.Claims.{true_ne_false}

pub listen_port-Exclusive : (i now : ℕ) (n : Net) → Exclusive n → Exclusive (listen_port i now n).1
unfolding listen_port
listen_port-Exclusive i now n ex =
    elim (Option-cases (port_by_number (socket_at n i).local_port n)) [
      | inl q ↦ rw (q, listen_port) ex
      | inr (e, q) ↦ elim (Bool-cases (is_closed_port (port_at n e).state)) [
        | inl r ↦ rw (q, listen_port, r) ex
        | inr r ↦
            let f : Socket → Socket =
              λ s. record s { state = SocketState.listening; last_activity = now } in
            let g : Port → Port = λ q. record q { state = PortState.listening } in
            let m : Net = modify_socket f i n in
            let quiet : Exclusive m = Quiet-Exclusive n m (same-Quiet f i n refl refl) ex in
            rw (q, listen_port, r)
              (Quiet-Exclusive (modify_port g e m) _ Quiet-refl
                (modify_port-Exclusive g e m refl refl refl refl quiet))
      ]
    ]

pub join-Quiet : (i l port now : ℕ) (n : Net) → Quiet n (join i l port now n)
unfolding join
join-Quiet i l port now n =
    let f1 : Socket → Socket = λ s. record s {
      remote_port = port;
      local_port = if s.local_port == 0 then 40000 + i else s.local_port;
      peer_id = (socket_at n l).id;
    } in
    let n1 : Net = modify_socket f1 i n in
    let n2 : Net = modify_socket (λ (s : Socket). record s { peer_id = i }) l n1 in
    let n3 : Net = socket_set_state connected i (socket_set_state connecting i n2) in
    let f4 : Socket → Socket =
      λ s. record s { remote_port = (socket_at n3 i).local_port; last_activity = now } in
    let n4 : Net = modify_socket f4 l n3 in
    Quiet-trans
      (elim (Bool-cases ((socket_at n i).local_port == 0)) [
        | inl q ↦
            modify-Quiet f1 i n
              (ephemeral-Keeps i (socket_at n i) (f1 (socket_at n i)) (inr (rw q)))
        | inr q ↦ same-Quiet f1 i n refl (rw q)
      ])
      (Quiet-trans (same-Quiet (λ (s : Socket). record s { peer_id = i }) l n1 refl refl) (
        Quiet-trans (socket_set_state-Quiet connecting i n2) (
          Quiet-trans (socket_set_state-Quiet connected i (socket_set_state connecting i n2)) (
            Quiet-trans (same-Quiet f4 l n3 refl refl)
              (same-Quiet (λ (s : Socket). record s { last_activity = now }) i n4 refl refl)))))

pub disconnect_loop-Quiet : (rounds i : ℕ) (n : Net) → Quiet n (disconnect_loop rounds i n)
unfolding disconnect_loop
disconnect_loop-Quiet zero i n = Quiet-refl
disconnect_loop-Quiet (suc rounds) i n =
    Quiet-trans
      (if-Quiet ((socket_at n i).used && is_tcp (socket_at n i).proto) n
        (socket_set_state closed i n) n (socket_set_state-Quiet closed i n) Quiet-refl)
      (disconnect_loop-Quiet rounds (i + 1) _)

leave_peer-Quiet : (i : ℕ) (n : Net) → Quiet n (leave_peer i n)
unfolding leave_peer
leave_peer-Quiet i n = elim (Option-cases (socket_by_id (socket_at n i).peer_id n)) [
  | inl q ↦ rw (q, leave_peer) Quiet-refl
  | inr (p, q) ↦
      let m : Net = modify_socket (λ (s : Socket). record s { peer_id = socket_max }) p n in
      rw (q, leave_peer)
        (Quiet-trans (same-Quiet (λ (s : Socket). record s { peer_id = socket_max }) p n refl refl)
          (socket_set_state-Quiet closed p m))
]

-- A change of an entry that belongs to another socket, which keeps the entry's number.
other-Owns :
    (f : Port → Port) (e j : ℕ) (n : Net)
    → (f (port_at n e)).used ≡ (port_at n e).used
    → (f (port_at n e)).port ≡ (port_at n e).port
    → (port_at n e).socket_id ≢ j
    → Owns n j
    → Owns (modify_port f e n) j
unfolding Owns port_by_number
other-Owns f e j n used port differs owns = elim owns [
  | inl z ↦ inl z
  | inr (inl z) ↦ inr (inl z)
  | inr (inr (k, found, named, taken)) ↦
      let found' =
        find_index-modify (is_port (socket_at n j).local_port) f e n.ports no_port
          (rw (used, port) refl) in
      elim (modify-cases f e k n.ports no_port) [
        | inl same ↦ inr (inr (k, found' ∙ found, rw same named, rw same taken))
        | inr (at, new) ↦ absurd (differs (ap (λ q. (port_at n q).socket_id) at ∙ named))
      ]
]

-- The entry that is freed is that of the socket which closes.
free_port-Owns : (i j : ℕ) (n : Net) → i ≢ j → Owns n j → Owns (free_port i n) j
unfolding free_port
free_port-Owns i j n differs owns =
    elim (Option-cases (port_by_number (socket_at n i).local_port n)) [
      | inl q ↦ rw (q, free_port) owns
      | inr (e, q) ↦ elim (Bool-cases ((port_at n e).socket_id == i)) [
        | inl r ↦
            rw (q, free_port, r)
              (other-Owns
                (λ (q : Port). record q {
                  state = free;
                  owner_pid = 0;
                  socket_id = 0;
                  service = codes "free";
                })
                e j n refl refl (λ g. differs (sym ((==_iff _ _).0 r) ∙ g)) owns)
        | inr r ↦ rw (q, free_port, r) owns
      ]
    ]

free_port-sockets : (i : ℕ) (n : Net) → (free_port i n).sockets ≡ n.sockets
unfolding free_port
free_port-sockets i n = elim (Option-cases (port_by_number (socket_at n i).local_port n)) [
  | inl q ↦ rw (q, free_port) refl
  | inr (e, q) ↦ elim (Bool-cases ((port_at n e).socket_id == i)) [
    | inl r ↦ rw (q, free_port, r) refl
    | inr r ↦ rw (q, free_port, r) refl
  ]
]

gone :
    (i : ℕ) (ss : List Socket)
    → (get_or (modify (λ (s : Socket). record s { used = false }) i ss) i no_socket).used ≡ false
gone i [] = refl
gone zero (s ∷ ss) = refl
gone (suc i) (s ∷ ss) = gone i ss

pub close_socket-Exclusive : (i : ℕ) (n : Net) → Exclusive n → Exclusive (close_socket i n)
unfolding close_socket Exclusive
close_socket-Exclusive i n ex j u =
    let a : Net = leave_peer i n in
    let b : Net = free_port i a in
    let c : Net = socket_set_state closed i b in
    elim (Bool-cases (i == j)) [
      | inl q ↦ absurd (
          true_ne_false (
            sym u
            ∙ ap
                (λ k.
                  (get_or (modify (λ (s : Socket). record s { used = false }) i c.sockets) k
                    no_socket).used)
                (sym ((==_iff i j).0 q))
            ∙ gone i c.sockets))
      | inr q ↦
          let differs : i ≢ j = ground arith in
          let kept : Quiet b (close_socket i n) = Quiet-trans (socket_set_state-Quiet closed i b) (
            modify-Quiet (λ (s : Socket). record s { used = false }) i c
              (unused-Keeps i (socket_at c i) _ refl)) in
          Quiet-Owns b (close_socket i n) j kept
            (λ v. free_port-Owns i j a differs (
              Quiet-Exclusive n a (leave_peer-Quiet i n) ex j
                (subst (λ ss. (get_or ss j no_socket).used ≡ true) (free_port-sockets i a) v)))
            u
    ]

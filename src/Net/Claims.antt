-- ===== src/Net/Claims.antt =====
-- Who holds the port that `net_bind` of src/net.c gives out.
use tabla_rusa_os.Base.{
  ℕ, ◌≡◌, ◌≢◌, refl, sym, ap, ◌∙◌, subst, ◌⊎◌, inl, inr, true, false, not, ◌==◌, ==_iff, Bool-cases,
  Option-cases, none, some, find_index, arith, modify, modify-cases, find_index-modify,
  find_index-holds, find_index-modify_new, find_index-lt, get_or-modify_self,
}
use tabla_rusa_os.Net.Table.{
  Socket, no_socket, SocketState, Port, no_port, Net, socket_at, modify_socket, port_at,
  modify_port, port_by_number, is_port, is_free, port_alloc, fresh_port,
}
use tabla_rusa_os.Net.Sockets.{bound_to, bind_port}
use tabla_rusa_os.Net.Ports.{Owns, Exclusive, Quiet-refl, Quiet-Exclusive}

pub true_ne_false : true ≢ false
true_ne_false e = cc

-- An entry that was not in use and gets the port `p`, which had none, is nobody's.
fresh-Exclusive :
    (p e : ℕ) (n : Net)
    → port_by_number p n ≡ none
    → (port_at n e).used ≡ false
    → Exclusive n
    → Exclusive (modify_port (λ (q : Port). fresh_port p) e n)
unfolding Exclusive Owns port_by_number
fresh-Exclusive p e n none_has unused ex i u = elim (ex i u) [
  | inl z ↦ inl z
  | inr (inl z) ↦ inr (inl z)
  | inr (inr (k, has, named, taken)) ↦
      let lp = (socket_at n i).local_port in
      let in_use = find_index-holds (is_port lp) n.ports k no_port has in
      let differs : (p == lp) ≡ false = elim (Bool-cases (p == lp)) [
        | inr q ↦ q
        | inl q ↦ let same : p ≡ lp = (==_iff p lp).0 q in cc
      ] in
      let found =
        find_index-modify (is_port lp) (λ (q : Port). fresh_port p) e n.ports no_port
          (rw (unused, differs)) in
      elim (modify-cases (λ (q : Port). fresh_port p) e k n.ports no_port) [
        | inl kept ↦ inr (inr (k, found ∙ has, rw kept named, rw kept taken))
        | inr (at, new) ↦
            let idle = subst (λ q. (port_at n q).used ≡ false) at unused in absurd (ground arith)
      ]
]

port_alloc-Exclusive : (p : ℕ) (n : Net) → Exclusive n → Exclusive (port_alloc p n).1
unfolding port_alloc
port_alloc-Exclusive p n ex = elim (Option-cases (port_by_number p n)) [
  | inr (e, q) ↦ rw (q, port_alloc) ex
  | inl q ↦ elim (Option-cases (find_index (λ (e : Port). not e.used) n.ports)) [
    | inl r ↦ rw (q, r, port_alloc) ex
    | inr (e, r) ↦
        let unused = find_index-holds (λ (e : Port). not e.used) n.ports e no_port r in
        rw (q, r, port_alloc) (fresh-Exclusive p e n q (ground arith) ex)
  ]
]

-- The entry given out is the one that the port is found at.
port_alloc-found :
    (p e : ℕ) (n : Net) → (port_alloc p n).0 ≡ some e → port_by_number p (port_alloc p n).1 ≡ some e
unfolding port_alloc port_by_number
port_alloc-found p e n = elim (Option-cases (find_index (is_port p) n.ports)) [
  | inr (k, q) ↦ rw (q, port_alloc) (λ g. q ∙ g)
  | inl q ↦ elim (Option-cases (find_index (λ (e : Port). not e.used) n.ports)) [
    | inl r ↦ rw (q, r, port_alloc) (λ g. cc)
    | inr (k, r) ↦
        rw (q, r, port_alloc)
          (λ g.
            find_index-modify_new (is_port p) (λ (q : Port). fresh_port p) k n.ports no_port q
              (find_index-lt (λ (e : Port). not e.used) n.ports k r) (rw ((==_iff p p).1 refl))
            ∙ g)
  ]
]

-- The entry that the port has afterwards belongs to the socket, and no other holder's does.
claim-Exclusive :
    (i port now e : ℕ) (s : Socket) (n : Net)
    → Exclusive n
    → port_by_number port n ≡ some e
    → (is_free (port_at n e).state ≡ true) ⊎ ((port_at n e).socket_id ≡ i)
    → Exclusive (
        modify_port (bound_to i s) e (
          modify_socket
            (λ (s : Socket). record s {
              local_port = port;
              state = SocketState.bound;
              last_activity = now;
            })
            i
            n))
unfolding Exclusive Owns port_by_number
claim-Exclusive i port now e s n ex found allowed j u =
    let g : Socket → Socket =
      λ s. record s { local_port = port; state = SocketState.bound; last_activity = now } in
    let seen : (q : ℕ)
        → find_index (is_port q) (modify (bound_to i s) e n.ports)
          ≡ find_index (is_port q) n.ports =
      λ q. find_index-modify (is_port q) (bound_to i s) e n.ports no_port refl in
    elim (modify-cases g i j n.sockets no_socket) [
      | inr (at, new) ↦
          let self =
            get_or-modify_self (bound_to i s) e n.ports no_port
              (find_index-lt (is_port port) n.ports e found) in
          inr (inr (e, rw new (seen port ∙ found), rw self at, rw self refl))
      | inl same ↦ elim (ex j (rw same at u)) [
        | inl z ↦ inl (rw same z)
        | inr (inl z) ↦ inr (inl (rw same z))
        | inr (inr (k, has, named, taken)) ↦
            elim (modify-cases (bound_to i s) e k n.ports no_port) [
              | inl kept ↦ inr (inr (k, rw same (seen _ ∙ has), rw kept named, rw kept taken))
              | inr (at, new) ↦ elim allowed [
                | inl none_has ↦ absurd (
                    true_ne_false (sym none_has ∙ ap (λ q. is_free (port_at n q).state) at ∙ taken))
                | inr own ↦ inr (
                    inr (
                      k,
                      rw same (seen _ ∙ has),
                      rw new (sym own ∙ ap (λ q. (port_at n q).socket_id) at ∙ named),
                      rw new refl,
                    ))
              ]
            ]
      ]
    ]

pub bind_port-Exclusive :
    (i port now : ℕ) (n : Net) → Exclusive n → Exclusive (bind_port i port now n).1
unfolding bind_port
bind_port-Exclusive i port now n ex =
    let m : Net = (port_alloc port n).1 in
    let ex' : Exclusive m = port_alloc-Exclusive port n ex in
    elim (Option-cases (port_alloc port n).0) [
      | inl q ↦ rw (q, bind_port) (Quiet-Exclusive m _ Quiet-refl ex')
      | inr (e, q) ↦
          let found = port_alloc-found port e n q in
          elim (Bool-cases (is_free (port_at m e).state)) [
            | inl r ↦
                rw (q, bind_port, r)
                  (claim-Exclusive i port now e (socket_at n i) m ex' found (inl r))
            | inr r ↦ elim (Bool-cases ((port_at m e).socket_id == i)) [
              | inl own ↦
                  rw (q, bind_port, r, own)
                    (claim-Exclusive i port now e (socket_at n i) m ex' found
                      (inr ((==_iff _ _).0 own)))
              | inr other ↦ rw (q, bind_port, r, other) (Quiet-Exclusive m _ Quiet-refl ex')
            ]
          ]
    ]

-- ===== src/Net/Ports.antt =====
-- Who holds a port of src/net.c.
use tabla_rusa_os.Base.{
  ℕ, ◌+◌, ◌<◌, ◌≡◌, refl, sym, ◌∙◌, subst, ◌≢◌, ◌⊎◌, inl, inr, true, false, get_or, List, some,
  arith, find_index-modify, modify-cases,
}
use tabla_rusa_os.Net.Table.{
  Socket, no_socket, Port, no_port, Net, socket_at, port_at, modify_socket, modify_port,
  port_by_number, is_port, is_free,
}

-- The socket of index `i` has no port, or the one that `net_connect` gives to its index, or the
-- entry of its port names it and is taken.
unfoldable pub Owns : Net → ℕ → Type 0
Owns n i =
    ((socket_at n i).local_port ≡ 0)
    ⊎ (((socket_at n i).local_port ≡ 40000 + i)
        ⊎ ((e : ℕ) × (port_by_number (socket_at n i).local_port n ≡ some e)
            × ((port_at n e).socket_id ≡ i)
            × (is_free (port_at n e).state ≡ false)))

-- Every socket in use owns its port.
unfoldable pub Exclusive : Net → Type 0
Exclusive n = (i : ℕ) → (socket_at n i).used ≡ true → Owns n i

-- Whoever is in use afterwards was in use before with the same port, or has no port or that of
-- its index.
pub Keeps : ℕ → Socket → Socket → Type 0
Keeps i s s' =
    s'.used ≡ true
    → ((s.used ≡ true) × (s'.local_port ≡ s.local_port))
      ⊎ ((s'.local_port ≡ 0) ⊎ (s'.local_port ≡ 40000 + i))

-- All sockets are kept so, and the entries are those from before.
pub record Kept (ss : List Socket) (ps : List Port) (ss' : List Socket) (ps' : List Port)
    : Type 0 where
  pub keeps : (i : ℕ) → Keeps i (get_or ss i no_socket) (get_or ss' i no_socket)
  pub same_ports : ps' ≡ ps

abbrev pub Quiet : Net → Net → Type 0
Quiet n n' = Kept n.sockets n.ports n'.sockets n'.ports

pub Exclusive-distinct :
    (n : Net) (i j : ℕ)
    → Exclusive n
    → (socket_at n i).used ≡ true
    → (socket_at n j).used ≡ true
    → (socket_at n i).local_port ≡ (socket_at n j).local_port
    → (socket_at n i).local_port ≢ 0
    → (socket_at n i).local_port < 40000
    → i ≡ j
unfolding Exclusive Owns
Exclusive-distinct n i j ex ui uj same nonzero low = elim (ex i ui) [
  | inl z ↦ absurd (nonzero z)
  | inr (inl z) ↦ absurd (omega arith)
  | inr (inr (e, found, named, taken)) ↦ elim (ex j uj) [
    | inl z ↦ absurd (nonzero (same ∙ z))
    | inr (inl z) ↦ absurd (omega arith)
    | inr (inr (f, found', named', taken')) ↦ cc
  ]
]

Keeps-refl : (i : ℕ) (s : Socket) → Keeps i s s
unfolding Keeps
Keeps-refl i s u = inl (u, refl)

pub Quiet-refl : {ss : List Socket} {ps : List Port} → Kept ss ps ss ps
Quiet-refl {ss} = record { keeps = λ i. Keeps-refl i (get_or ss i no_socket); same_ports = refl }

pub Quiet-trans :
    {a b c : List Socket} {p q r : List Port} → Kept a p b q → Kept b q c r → Kept a p c r
unfolding Keeps
Quiet-trans f g = record {
  keeps = λ i u. elim (g.keeps i u) [
    | inr z ↦ inr z
    | inl (v, e) ↦ elim (f.keeps i v) [
      | inl (w, e') ↦ inl (w, e ∙ e')
      | inr (inl z) ↦ inr (inl (e ∙ z))
      | inr (inr z) ↦ inr (inr (e ∙ z))
    ]
  ];
  same_ports = g.same_ports ∙ f.same_ports;
}

-- `Owns` reads nothing but the two tables.
pub Quiet-Owns :
    (n n' : Net) (i : ℕ)
    → Quiet n n'
    → ((socket_at n i).used ≡ true → Owns n i)
    → (socket_at n' i).used ≡ true
    → Owns n' i
unfolding Keeps Owns port_by_number
Quiet-Owns n n' i q owns u = elim (q.keeps i u) [
  | inr (inl z) ↦ inl z
  | inr (inr z) ↦ inr (inl z)
  | inl (v, e) ↦ elim (owns v) [
    | inl z ↦ inl (e ∙ z)
    | inr (inl z) ↦ inr (inl (e ∙ z))
    | inr (inr (k, found, named, taken)) ↦
        inr (inr (k, rw (e, q.same_ports) found, rw (q.same_ports) named, rw (q.same_ports) taken))
  ]
]

pub Quiet-Exclusive : (n n' : Net) → Quiet n n' → Exclusive n → Exclusive n'
unfolding Exclusive
Quiet-Exclusive n n' q ex i u = Quiet-Owns n n' i q (ex i) u

-- An assignment to one socket that keeps its port, or takes it away, is quiet.
pub modify-Quiet :
    (f : Socket → Socket) (i : ℕ) (n : Net)
    → Keeps i (socket_at n i) (f (socket_at n i))
    → Quiet n (modify_socket f i n)
modify-Quiet f i n h = record {
  keeps = λ j. elim (modify-cases f i j n.sockets no_socket) [
    | inl e ↦ subst (λ s. Keeps j (socket_at n j) s) (sym e) (Keeps-refl j (socket_at n j))
    | inr (e, g) ↦
        subst (λ s. Keeps j (socket_at n j) s) (sym g)
          (subst (λ k. Keeps k (socket_at n k) (f (socket_at n i))) e h)
  ];
  same_ports = refl;
}

pub same-Keeps :
    (i : ℕ) (s s' : Socket) → s'.used ≡ s.used → s'.local_port ≡ s.local_port → Keeps i s s'
unfolding Keeps
same-Keeps i s s' e f u = inl (sym e ∙ u, f)

pub unused-Keeps : (i : ℕ) (s s' : Socket) → s'.used ≡ false → Keeps i s s'
unfolding Keeps
unused-Keeps i s s' e u = absurd cc

pub ephemeral-Keeps :
    (i : ℕ) (s s' : Socket) → (s'.local_port ≡ 0) ⊎ (s'.local_port ≡ 40000 + i) → Keeps i s s'
unfolding Keeps
ephemeral-Keeps i s s' h u = inr h

-- A change of an entry that leaves it taken, by the same socket.
pub modify_port-Exclusive :
    (f : Port → Port) (e : ℕ) (n : Net)
    → (f (port_at n e)).used ≡ (port_at n e).used
    → (f (port_at n e)).port ≡ (port_at n e).port
    → (f (port_at n e)).socket_id ≡ (port_at n e).socket_id
    → is_free (f (port_at n e)).state ≡ false
    → Exclusive n
    → Exclusive (modify_port f e n)
unfolding Exclusive Owns port_by_number
modify_port-Exclusive f e n used port named taken ex i u = elim (ex i u) [
  | inl z ↦ inl z
  | inr (inl z) ↦ inr (inl z)
  | inr (inr (k, found, names, is_taken)) ↦
      let found' =
        find_index-modify (is_port (socket_at n i).local_port) f e n.ports no_port
          (rw (used, port) refl) in
      elim (modify-cases f e k n.ports no_port) [
        | inl same ↦ inr (inr (k, found' ∙ found, rw same names, rw same is_taken))
        | inr (at, new) ↦ inr (inr (k, found' ∙ found, rw (new, named, at) names, rw new taken))
      ]
]

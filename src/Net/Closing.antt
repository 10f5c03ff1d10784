-- ===== src/Net/Closing.antt =====
-- Closing sockets, and the descriptor operations of src/net.c.
use tabla_rusa_os.Base.{
  ℕ, zero, suc, ◌+◌, ◌-◌, ◌∷◌, [], ◌++◌, Text, Bool, true, false, not, none, some, ◌==◌, ◌&&◌, ◌||◌,
  if◌then◌else◌, leb, str_copy, codes, Result, ok, err, is_ok,
}
use tabla_rusa_os.Policy.Table.{privacy_allows_network}
use tabla_rusa_os.Net.Table.{
  closed, Socket, free, Port, Net, socket_max, socket_at, modify_socket, port_at, modify_port,
  drop_one, is_tcp, socket_by_id, socket_by_fd, port_by_number, socket_set_state,
}
use tabla_rusa_os.Net.Packets.{socket_send}
use tabla_rusa_os.System.{System, on_net}
use tabla_rusa_os.Net.Sockets.{pending_text}

-- The peer's part of `net_socket_close`.
unfoldable pub leave_peer : ℕ → Net → Net
leave_peer i n = elim (socket_by_id (socket_at n i).peer_id n) [
  | none ↦ n
  | some p ↦
      socket_set_state closed p
        (modify_socket (λ (s : Socket). record s { peer_id = socket_max }) p n)
]

-- The port's part.
unfoldable pub free_port : ℕ → Net → Net
free_port i n = elim (port_by_number (socket_at n i).local_port n) [
  | none ↦ n
  | some e ↦
      if (port_at n e).socket_id == i
      then modify_port
          (λ (q : Port). record q {
            state = free;
            owner_pid = 0;
            socket_id = 0;
            service = codes "free";
          })
          e n
      else n
]

unfoldable pub close_socket : ℕ → Net → Net
unfolding leave_peer free_port
close_socket i n =
    modify_socket (λ (s : Socket). record s { used = false }) i
      (socket_set_state closed i (free_port i (leave_peer i n)))

unfoldable pub net_socket_close : ℕ → Net → Result (Unit {0}) × Net
unfolding close_socket
net_socket_close id n = elim (socket_by_id id n) [
  | none ↦ (err 1, n)
  | some i ↦ (ok tt, close_socket i n)
]

-- The test of `net_shutdown_idle`.
abbrev pub is_idle : ℕ → ℕ → Socket → Bool
is_idle max_idle now s =
    s.used && ((max_idle == 0) || (leb s.last_activity now && leb max_idle (now - s.last_activity)))

-- Its rounds from `i` on, with the sockets closed before.
unfoldable pub shutdown_loop : ℕ → ℕ → ℕ → ℕ → ℕ → Net → ℕ × Net
shutdown_loop zero i max_idle now done n = (done, n)
shutdown_loop (suc rounds) i max_idle now done n =
    let closing = net_socket_close i n in
    elim (is_idle max_idle now (socket_at n i)) [
      | false ↦ shutdown_loop rounds (i + 1) max_idle now done n
      | true ↦
          shutdown_loop rounds (i + 1) max_idle now (if is_ok closing.0 then done + 1 else done)
            closing.1
    ]

unfoldable pub net_shutdown_idle : ℕ → ℕ → Net → ℕ × Net
unfolding shutdown_loop
net_shutdown_idle max_idle now n = shutdown_loop socket_max 0 max_idle now 0 n

-- The loop of `net_disconnect_all`, from socket `i` on.
unfoldable pub disconnect_loop : ℕ → ℕ → Net → Net
disconnect_loop zero i n = n
disconnect_loop (suc rounds) i n = disconnect_loop rounds (i + 1) (
    if (socket_at n i).used && is_tcp (socket_at n i).proto then socket_set_state closed i n else n)

unfoldable pub net_disconnect_all : Net → Net
unfolding disconnect_loop
net_disconnect_all n = record (disconnect_loop socket_max 0 n) {
  link_up = false;
  tcp_listen_port = 0;
}

unfoldable pub net_fd_write : ℕ → ℕ → Text → System → Result (Unit {0}) × System
net_fd_write pid fd text y = elim (socket_by_fd pid fd y.net) [
  | none ↦ (err 1, y)
  | some i ↦
      let sent = socket_send i text y in
      if not (privacy_allows_network y.privacy) then (err 1, on_net drop_one y) else sent
]

-- The text goes through `out`, with a line break behind it.
unfoldable pub net_fd_read : ℕ → ℕ → System → Result Text × System
net_fd_read pid fd y = elim (socket_by_fd pid fd y.net) [
  | none ↦ (err 1, y)
  | some i ↦ (
    ok (str_copy (pending_text (socket_at y.net i)) 96 ++ (b'\n' ∷ [])),
    on_net (modify_socket (λ (s : Socket). record s { rx = [] }) i) y,
  )
]

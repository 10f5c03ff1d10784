-- ===== src/Tests/Net.antt =====
-- Witnesses for the sockets of src/net.c.
use tabla_rusa_os.Base.{
  ◌≡◌, ◌≢◌, refl, [], ◌∷◌, List, true, codes, is_empty, arith, ok, if◌then◌else◌, str_copy,
  find_index,
}
use tabla_rusa_os.Net.Table.{
  Socket, no_socket, connected, listening, socket_at, socket_by_id, payload_max, port_alloc,
  port_by_number,
}
use tabla_rusa_os.Policy.Table.{privacy_allows_network}
use tabla_rusa_os.Net.Sockets.{net_send, net_recv, net_bind, net_socket_create}
use tabla_rusa_os.Net.Calls.{Call, create, bind, perform, run}
use tabla_rusa_os.Net.Runs.{run-exclusive}
use tabla_rusa_os.Net.Delivery.{net_send-net_recv}
use tabla_rusa_os.Tests.Boot.{boot, boot_net}
use tabla_rusa_os.System.{System}
use tabla_rusa_os.Net.Boot.{net_init, init_sockets}

-- Socket 0 is connected to socket 1.
abbrev client : Socket
client = record no_socket { used = true; state = connected; local_port = 40000; peer_id = 1 }

abbrev server : Socket
server = record no_socket { used = true; id = 1; state = listening; local_port = 9999; peer_id = 0 }

abbrev joined : System
joined = record boot {
  net = record boot_net { sockets = client ∷ server ∷ no_socket ∷ no_socket ∷ [] };
}

net_send-net_recv_example :
    ((net_send 0 (codes "hello") joined).0 ≡ ok tt)
    × ((net_recv 1 (net_send 0 (codes "hello") joined).1).0
        ≡ ok (
            if is_empty (codes "hello")
            then codes "<empty>"
            else str_copy (codes "hello") payload_max))
unfolding socket_by_id privacy_allows_network
net_send-net_recv_example =
    net_send-net_recv 0 0 1 1 (codes "hello") joined refl refl refl refl (omega arith) (omega arith)
      refl (λ e. omega arith) (omega arith) (omega arith) refl refl refl

-- Two udp sockets ask for the same port.
abbrev calls : List Call
calls = create 1 (codes "udp") ∷ create 2 (codes "udp") ∷ bind 0 9999 ∷ bind 1 9999 ∷ []

unfoldable after_calls : System
unfolding run perform net_bind socket_by_id net_socket_create find_index port_alloc port_by_number
    net_init init_sockets
after_calls = run calls (net_init boot)

run-exclusive_example :
    (socket_at after_calls.net 0).local_port ≢ (socket_at after_calls.net 1).local_port
unfolding after_calls
run-exclusive_example =
    run-exclusive calls boot 0 1 refl refl (omega arith) (omega arith) (λ e. omega arith)

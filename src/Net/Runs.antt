-- ===== src/Net/Runs.antt =====
-- What every run of calls of src/net.c keeps.
use tabla_rusa_os.Base.{
  List, ◌∷◌, ℕ, ◌≡◌, ◌≢◌, ◌<◌, sym, ◌∙◌, true, false, arith, [], zero, suc, refl, get_or,
}
use tabla_rusa_os.Net.Table.{socket_at, socket_max, Socket, no_socket}
use tabla_rusa_os.Net.Packets.{net_flush}
use tabla_rusa_os.Net.Closing.{net_shutdown_idle, net_disconnect_all}
use tabla_rusa_os.Net.Ports.{Exclusive, Exclusive-distinct, Quiet-refl, Quiet-Exclusive}
use tabla_rusa_os.Net.Exclusion.{disconnect_loop-Quiet}
use tabla_rusa_os.Net.Claims.{true_ne_false}
use tabla_rusa_os.Net.Calls.{
  Call, create, bind, listen, connect, send, recv, close, shutdown_idle, fd_write, fd_read,
  disconnect_all, flush, wait, perform, run, open_port,
}
use tabla_rusa_os.System.{System}
use tabla_rusa_os.Net.Steps.{
  net_socket_create-Quiet, net_socket_close-Exclusive, shutdown_loop-Exclusive, net_bind-Exclusive,
  net_listen-Exclusive, net_connect-Exclusive, net_send-Exclusive, net_fd_write-Exclusive,
  net_recv-Quiet, net_fd_read-Quiet, socket_open-Exclusive,
}
use tabla_rusa_os.Net.Boot.{net_init, init_sockets}

perform-Exclusive : (c : Call) (y : System) → Exclusive y.net → Exclusive (perform c y).net
unfolding perform net_disconnect_all net_shutdown_idle net_flush
perform-Exclusive (create owner proto) y ex =
    Quiet-Exclusive y.net _ (net_socket_create-Quiet owner proto y) ex
perform-Exclusive (open_port proto port) y ex = socket_open-Exclusive proto port y ex
perform-Exclusive (bind id port) y ex = net_bind-Exclusive id port y ex
perform-Exclusive (listen id) y ex = net_listen-Exclusive id y ex
perform-Exclusive (connect id port) y ex = net_connect-Exclusive id port y ex
perform-Exclusive (send id text) y ex = net_send-Exclusive id text y ex
perform-Exclusive (recv id) y ex = Quiet-Exclusive y.net _ (net_recv-Quiet id y) ex
perform-Exclusive (close id) y ex = net_socket_close-Exclusive id y.net ex
perform-Exclusive (shutdown_idle max_idle) y ex =
    shutdown_loop-Exclusive socket_max 0 max_idle y.sec.ticks 0 y.net ex
perform-Exclusive (fd_write pid fd text) y ex = net_fd_write-Exclusive pid fd text y ex
perform-Exclusive (fd_read pid fd) y ex = Quiet-Exclusive y.net _ (net_fd_read-Quiet pid fd y) ex
perform-Exclusive disconnect_all y ex =
    Quiet-Exclusive y.net (net_disconnect_all y.net) (disconnect_loop-Quiet socket_max 0 y.net) ex
perform-Exclusive flush y ex = Quiet-Exclusive y.net (net_flush y.net) Quiet-refl ex
perform-Exclusive (wait k) y ex = ex

pub run-Exclusive : (cs : List Call) (y : System) → Exclusive y.net → Exclusive (run cs y).net
unfolding run
run-Exclusive [] y ex = ex
run-Exclusive (c ∷ cs) y ex = run-Exclusive cs (perform c y) (perform-Exclusive c y ex)

init_sockets-idle :
    (i k : ℕ) (ss : List Socket) → (get_or (init_sockets i ss) k no_socket).used ≡ false
unfolding init_sockets
init_sockets-idle i k [] = refl
init_sockets-idle i zero (s ∷ ss) = refl
init_sockets-idle i (suc k) (s ∷ ss) = init_sockets-idle (suc i) k ss

init-Exclusive : (y : System) → Exclusive (net_init y).net
unfolding Exclusive net_init
init-Exclusive y k u = absurd (true_ne_false (sym u ∙ init_sockets-idle 0 k y.net.sockets))

-- After `net_init` and any calls of the network in any order, a socket in use with a local port from
-- 1 to 39999 shares it with no other socket in use.
pub run-exclusive :
    (cs : List Call) (y : System) (i j : ℕ)
    → (socket_at (run cs (net_init y)).net i).used ≡ true
    → (socket_at (run cs (net_init y)).net j).used ≡ true
    → 0 < (socket_at (run cs (net_init y)).net i).local_port
    → (socket_at (run cs (net_init y)).net i).local_port < 40000
    → i ≢ j
    → (socket_at (run cs (net_init y)).net i).local_port
      ≢ (socket_at (run cs (net_init y)).net j).local_port
run-exclusive cs y i j ui uj nonzero low differs same = differs (
    Exclusive-distinct (run cs (net_init y)).net i j
      (run-Exclusive cs (net_init y) (init-Exclusive y)) ui uj same (λ e. omega arith) low)

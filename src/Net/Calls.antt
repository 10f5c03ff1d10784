-- ===== src/Net/Calls.antt =====
-- Runs of calls of src/net.c. A call that fails leaves the state that it returned with.
use tabla_rusa_os.Base.{ℕ, Text, List, [], ◌∷◌, add32}
use tabla_rusa_os.Net.Sockets.{
  net_socket_create, net_bind, net_listen, net_connect, net_send, net_recv,
}
use tabla_rusa_os.Net.Closing.{net_socket_close, net_shutdown_idle, net_fd_write, net_fd_read}
use tabla_rusa_os.Net.Packets.{net_flush}
use tabla_rusa_os.Net.Closing.{net_disconnect_all}
use tabla_rusa_os.Net.Boot.{socket_open}
use tabla_rusa_os.System.{System, on_net}

-- What other parts call, the command `net flush`, and the timer between the calls.
pub data Call : Type 0 where
  create : ℕ → Text → Call
  open_port : Text → ℕ → Call
  bind : ℕ → ℕ → Call
  listen : ℕ → Call
  connect : ℕ → ℕ → Call
  send : ℕ → Text → Call
  recv : ℕ → Call
  close : ℕ → Call
  shutdown_idle : ℕ → Call
  fd_write : ℕ → ℕ → Text → Call
  fd_read : ℕ → ℕ → Call
  disconnect_all : Call
  flush : Call
  wait : ℕ → Call

unfoldable pub perform : Call → System → System
perform (create owner proto) y = (net_socket_create owner proto y).1
perform (open_port proto port) y = socket_open proto port y
perform (bind id port) y = (net_bind id port y).1
perform (listen id) y = (net_listen id y).1
perform (connect id port) y = (net_connect id port y).1
perform (send id text) y = (net_send id text y).1
perform (recv id) y = (net_recv id y).1
perform (close id) y = record y { net = (net_socket_close id y.net).1 }
perform (shutdown_idle max_idle) y = record y {
  net = (net_shutdown_idle max_idle y.sec.ticks y.net).1;
}
perform (fd_write pid fd text) y = (net_fd_write pid fd text y).1
perform (fd_read pid fd) y = (net_fd_read pid fd y).1
perform disconnect_all y = on_net net_disconnect_all y
perform flush y = on_net net_flush y
perform (wait k) y = record y { sec = record (y.sec) { ticks = add32 y.sec.ticks k } }

unfoldable pub run : List Call → System → System
unfolding perform
run [] y = y
run (c ∷ cs) y = run cs (perform c y)

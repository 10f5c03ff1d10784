-- ===== src/Tests/Boot.antt =====
-- A state of the kernel after boot, for the runs on it.
use tabla_rusa_os.Base.{true, [], ◌∷◌, codes, replicate}
use tabla_rusa_os.Fs.Node.{blank, max_nodes}
use tabla_rusa_os.Fd.Table.{no_entry, proc_max, per_proc_max}
use tabla_rusa_os.Process.Table.{Sys, boot_procs, ipc_max, pipe_max, handle_max}
use tabla_rusa_os.Process.Channels.{no_message, no_pipe, no_handle}
use tabla_rusa_os.Jobs.Table.{boot_jobs}
use tabla_rusa_os.Events.Rules.{boot_rules}
use tabla_rusa_os.Security.Table.{Sec, no_permission, no_event, event_max, permission_max}
use tabla_rusa_os.Services.Table.{boot_services}
use tabla_rusa_os.Policy.Table.{boot_privacy, no_firewall_rule, firewall_rule_max}
use tabla_rusa_os.Net.Table.{Net, no_socket, no_packet, no_port, socket_max, packet_max, port_max}
use tabla_rusa_os.System.{System}

abbrev pub boot_net : Net
boot_net = record {
  link_up = true;
  tcp_listen_port = 0;
  shield_enabled = true;
  ip_masking = true;
  flood_threshold = 5;
  sockets = replicate socket_max no_socket;
  packets = replicate packet_max no_packet;
  ports = replicate port_max no_port;
  next_packet_id = 1;
  tx_packets = 0;
  rx_packets = 0;
  drops = 0;
  checksum_errors = 0;
  state_changes = 0;
}

abbrev pub boot_sec : Sec
boot_sec = record {
  users = record { name = codes "root"; caps = codes "all"; active = true } ∷ [];
  apps = [];
  caps = [];
  permissions = replicate permission_max no_permission;
  events = replicate event_max no_event;
  next_event_id = 1;
  current_user = codes "root";
  secure_mode = true;
  ticks = 5;
  fs = record { nodes = replicate max_nodes blank; cwd = 0 };
}

abbrev pub boot_sys : Sys
boot_sys = record {
  procs = boot_procs;
  messages = replicate ipc_max no_message;
  pipes = replicate pipe_max no_pipe;
  handles = replicate handle_max no_handle;
  current_pid = 1;
  next_pid = 6;
  next_pipe_id = 1;
  next_handle_id = 1;
  fds = replicate proc_max (record { pid = 0; entries = replicate per_proc_max no_entry });
}

abbrev pub boot : System
boot = record {
  net = boot_net;
  services = boot_services;
  privacy = boot_privacy;
  firewall = replicate firewall_rule_max no_firewall_rule;
  next_firewall_rule_id = 1;
  rules = boot_rules;
  sec = boot_sec;
  sys = boot_sys;
  jobs = boot_jobs;
}

-- ===== src/Fs/Init.antt =====
-- `fs_init` of src/fs.c: the directories and files that every boot starts from.
use tabla_rusa_os.Base.{Text, List, [], ◌∷◌, ◌++◌, codes, map}
use tabla_rusa_os.Fs.Node.{Fs, Node, unused, dir}
use tabla_rusa_os.Fs.Ops.{mkdir, write, cd}

-- The root directory in the first slot, whose content and size stay as they are.
abbrev pub root_of : Node → Node
root_of n = record n { kind = dir; parent = 0; permissions = 3; name = [] }

abbrev pub free_all : List Node → List Node
free_all ns = map (λ (n : Node). record n { kind = unused }) ns

unfoldable pub with_root : List Node → List Node
with_root [] = []
with_root (n ∷ ns) = root_of n ∷ ns

-- The first lines of `fs_init`: every slot freed, the root made, and `cwd` at it.
unfoldable pub reset : Fs → Fs
unfolding with_root
reset fs = record { nodes = with_root (free_all fs.nodes); cwd = 0 }

abbrev pub boot_dirs : List Text
boot_dirs =
    codes "/home"
    ∷ codes "/home/docs"
    ∷ codes "/home/math"
    ∷ codes "/home/projects"
    ∷ codes "/home/downloads"
    ∷ codes "/bin"
    ∷ codes "/boot"
    ∷ codes "/config"
    ∷ codes "/dev"
    ∷ codes "/lib"
    ∷ codes "/mnt"
    ∷ codes "/pkg"
    ∷ codes "/proc"
    ∷ codes "/services"
    ∷ codes "/share"
    ∷ codes "/share/docs"
    ∷ codes "/system"
    ∷ codes "/system/gui"
    ∷ codes "/system/net"
    ∷ codes "/system/security"
    ∷ codes "/tmp"
    ∷ codes "/users"
    ∷ codes "/users/root"
    ∷ codes "/var"
    ∷ codes "/var/log"
    ∷ []

abbrev pub boot_files : List (Text × Text)
boot_files =
    (
      codes "/home/readme.txt",
      codes "Welcome to Tabla Rusa OS.\n"
          ++ (codes "Try: ls, cat readme.txt, edit notes.txt. Up/Down move lines; Esc exits.\n"
              ++ (codes "Try: pkg list, pkg info editor, package[\"editor\"].install()\n"
                  ++ (codes
                        "Explore: cd /system, cd /var/log, gui status, net status, security status\n"
                      ++ (codes
                          "Native forms: inspect memory, file[\"readme.txt\"].read(), spawn editor notes.txt\n")))),
    )
    ∷ (codes "/boot/kernel.cfg", codes "kernel=tabla-rusa\narch=i386\nruntime=tabla:0.1\n")
    ∷ (
      codes "/config/system.conf",
      codes "hostname=tabla\nsecure_mode=on\ngui=planned\nnetwork=loopback\n",
    )
    ∷ (
      codes "/config/gui.conf",
      codes
          "wallpaper=lava\nwallpaper_live=no\ncursor=dot\neditor_mode=paper\neditor_path=/home/notes.txt\n",
    )
    ∷ (codes "/dev/keyboard", codes "device=ps2-keyboard\nstate=active\n")
    ∷ (codes "/dev/console", codes "device=vga-text-console\nstate=active\n")
    ∷ (codes "/proc/version", codes "Tabla Rusa OS 0.0.5 i386 tabla:0.1\n")
    ∷ (codes "/proc/mounts", codes "ramfs / rw\nprocfs /proc ro\nsysfs /system ro\npkgfs /pkg rw\n")
    ∷ (codes "/system/gui/README", codes "GUI foundation: compositor, windows, themes, events.\n")
    ∷ (codes "/system/net/README", codes "Network foundation: device, IP, ARP, TCP, UDP layers.\n")
    ∷ (
      codes "/system/security/README",
      codes "Security foundation: rings, capabilities, audit log, policy.\n",
    )
    ∷ (
      codes "/share/docs/fs-stack.txt",
      codes "VFS -> ramfs now; planned: devfs, procfs, pkgfs, persistent diskfs.\n",
    )
    ∷ (
      codes "/share/docs/tcpip-stack.txt",
      codes "TCP/IP scaffold: link, IPv4, ARP, ICMP, UDP, TCP sockets.\n",
    )
    ∷ (
      codes "/share/docs/gui-roadmap.txt",
      codes "GUI scaffold: framebuffer, compositor, window objects, input events.\n",
    )
    ∷ (
      codes "/share/docs/native-objects.txt",
      codes "Objects: file, dir, mount, process, service, window, package.\n",
    )
    ∷ (
      codes "/share/docs/scientific-scheduling.txt",
      codes "Tabla process table tracks priority, cpu_hint, workload class, and ticks.\n"
          ++ (codes
              "Use compute status, compute vector, compute bench, and process[\"compute\"].trace().\n"),
    )
    ∷ (
      codes "/share/docs/math-kernel.txt",
      codes "Tabla math kernel commands:\n"
          ++ (codes "math vec dot 1 2 3 | 4 5 6\n"
              ++ (codes "math vec add 1 2 | 10 20\n"
                  ++ (codes "math mat det2 1 2 3 4\n"
                      ++ (codes "math mat det3 1 0 0 0 1 0 0 0 1\n"
                          ++ (codes
                                "math num gcd 84 30, math num modpow 2 10 17, math num prime 97\n"
                              ++ (codes
                                    "math group cyclic 5, math group units 12, math stats 1 2 3 4\n"
                                  ++ (codes
                                        "math object vector a 1 2 3, math object matrix A 1 2 3 4\n"
                                      ++ (codes
                                            "math rat add 1/3 1/6, math mat inv2 1 2 3 4, math modmat inv2 11 1 2 3 4\n"
                                          ++ (codes
                                                "math sym diff 1 0 -1, math object save A /home/math/A.obj\n"
                                              ++ (codes
                                                    "math job submit vec dot 1 2 | 3 4, math job run 1\n"
                                                  ++ (codes
                                                        "math latex vec 1 2 3, math latex mat2 1 2 3 4\n"
                                                      ++ (codes
                                                          "All math commands mark the compute process with a workload class and ticks.\n")))))))))))),
    )
    ∷ (codes "/services/logger", codes "state=running\nprovides=audit and system logs\n")
    ∷ (codes "/services/network", codes "state=stopped\nprovides=TCP/IP stack foundation\n")
    ∷ (codes "/services/gui", codes "state=stopped\nprovides=window compositor foundation\n")
    ∷ (codes "/users/root/profile", codes "user=root\ncaps=all\n")
    ∷ (codes "/users/guest.profile", codes "user=guest\ncaps=fs.read,shell.run\n")
    ∷ (codes "/var/log/system.log", codes "boot: ram filesystem initialized\n")
    ∷ (codes "/var/log/security.log", codes "security: policy loaded secure_mode=on\n")
    ∷ (codes "/var/log/network.log", codes "net: loopback initialized tcp_state=closed\n")
    ∷ []

unfoldable pub make_dirs : List Text → Fs → Fs
make_dirs [] fs = fs
make_dirs (p ∷ ps) fs = make_dirs ps (mkdir p fs).1

unfoldable pub write_files : List (Text × Text) → Fs → Fs
write_files [] fs = fs
write_files ((p, t) ∷ rest) fs = write_files rest (write p t fs).1

-- The results of the calls are not looked at.
unfoldable pub init : Fs → Fs
unfolding reset make_dirs write_files
init fs = (cd (codes "/home") (write_files boot_files (make_dirs boot_dirs (reset fs)))).1

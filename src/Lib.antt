-- ===== src/Lib.antt =====
-- A model of the kernel services of Tabla Rusa OS, a small 32-bit operating system in C: what
-- src/ keeps in static tables, and the operations on them.
--
-- The parts and how they meet
--
-- The RAM file system (src/fs.c) is a table of 192 nodes linked by parent indices, with a working
-- directory. Processes (src/process.c) are ten rows with messages, pipes and handles beside them;
-- each process number has a table of six descriptors (src/fd.c), which `process_spawn` fills
-- from the shell's, and stopping or killing a process empties. The scheduler (src/sched.c) has
-- ten tasks of its own, which it runs from the timer tick (src/timer.c); a run switches the
-- process of the same name and books ticks in the job table (src/jobs.c). The security tables
-- (src/security.c) and the path prefixes of src/vfs.c decide who writes; their log is a file.
-- The event bus (src/events.c) logs the actions of the rules that a trigger fires, and passes the
-- text of a source rule to a handler, which can run any command of the shell. The proof engine (src/proofcore.c) books its work in the job table
-- and at a process. The heap (src/heap.c) only grows.
--
-- Services (src/service.c), the firewall and the access checks (src/policy.c), the privacy switches
-- (src/privacy.c) and the loopback network (src/net.c) call each other and share one state, the
-- record of System: a socket that listens or connects asks the policy, the policy asks the switches
-- and the permissions, and a switch that is set to off stops the service and closes the sockets.
-- The shell (src/shell.c) keeps the input line that the main loop of src/kmain.c edits; the editor
-- (src/editor.c) keeps the lines of a file. The window table (src/window.c) says what has the focus,
-- and the sector device (src/block.c) is saved to files.
--
-- The files
--
-- - Base and the files in Base/: the shared vocabulary. Base/Strings has the helpers `streq`,
--   `str_copy` and `str_eq` that each C file carries a copy of (a text is the list of its bytes
--   before the terminator), Base/Find the scans of a table for the first entry that passes a
--   test, Base/Lists the updates of a table, Base/Words the 32-bit sums, Base/Outcome the
--   results.
-- - Fs: src/fs.c. Fs/Node has the table, Fs/Path `read_part`, `resolve` and `resolve_parent`,
--   Fs/Ops the calls that change the tree, `fs_read` and `fs_stat`, Fs/Listing `fs_ls`, `fs_pwd`,
--   `fs_child_count`, `fs_child_name` and `fs_join_path`, and Fs/Init `fs_init` with its
--   directories and files. A function `fs_x` of the source is `x` here. Fs/Tree states the
--   invariant, Fs/Keeps, Fs/Boot and Fs/Session prove it for the calls, for `fs_init` and for
--   sequences of calls. Fs/Parts describes `resolve` without its loop; Fs/Walk, Fs/Bounds and Fs/Buffers are about loops, indices and buffers,
--   Fs/Create, Fs/RoundTrip, Fs/Children and Fs/Moves about what the calls do.
-- - Fd: src/fd.c. Fd/Table has the tables and the operations that touch nothing else, Fd/Files
--   `fd_open_for_pid`, `fd_read_chunk` and `fd_seek`, Fd/Closing and Fd/Chunks the proofs.
-- - Process: src/process.c. Process/Table has the static state and its boot value,
--   Process/Lifecycle the operations on the process table, Process/Channels handles, messages,
--   pipes and signals. Process/Ending, Process/Numbers, Process/Yielding and Process/Delivery
--   are the proofs.
-- - Jobs: src/jobs.c. Jobs/Table has the job table, Jobs/Accounting the proofs.
-- - Sched: src/sched.c and `timer_handler` of src/timer.c. Sched/Table has the task table,
--   Sched/Steps the operations, Sched/Waking and Sched/Choice the proofs.
-- - Heap: src/heap.c. Vfs: the write test of src/vfs.c. Security: src/security.c, in
--   Security/Table, with proofs in Security/Permissions and, for the ring of events, Security/Log.
-- - Events: src/events.c. Events/Rules has the rule table and its operations, over any state that
--   holds the table (the record Host there), Events/Dispatch the proofs.
-- - Proof: src/proofcore.c. Proof/Checker has the step checker, Proof/Steps the tables,
--   Proof/Soundness the proofs.
-- - Services: src/service.c, the table in Services/Table, the operations in Services/Control.
-- - Policy: src/policy.c in Policy/Firewall and src/privacy.c in Policy/Privacy, their state in
--   Policy/Table; the proofs are Policy/Decisions, Policy/Offline and Policy/Reopening.
-- - Net: src/net.c. Net/Table has the static state and the scans, Net/Packets the packet queue and
--   what is sent through it, Net/Sockets and Net/Closing the socket calls, Net/Boot `net_init`
--   and the command that opens a socket, Net/Calls sequences of these. Net/States and Net/Gate are about closing and refusing, Net/Ports, Net/Quiet, Net/Claims,
--   Net/Exclusion, Net/Steps and Net/Runs about who holds a port, Net/Arrival and Net/Delivery about
--   what a receiver gets.
-- - System: the state that services, policy, privacy and network share, as a Host of the event bus.
-- - Shell: src/shell.c. Shell/Buffer has the array of characters, Shell/Input the operations,
--   Shell/Line the line as an abstract text with a cursor. Shell/Shifts, Shell/Strings,
--   Shell/Edits and Shell/Refinement relate the two, Shell/History is about the history.
-- - Editor: src/editor.c. Editor/Buffer has the lines, what is loaded and saved, and the edits of a
--   line; the proofs are in Editor/RoundTrip.
-- - Windows: src/window.c, the table in Windows/Table, runs of calls in Windows/Focus. Block:
--   src/block.c, the sectors in Block/Sectors, saving and loading in Block/Persistence.
-- - Math: the number theory of src/mathlib.c, in Math/Numbers, with proofs in Math/Gcd and
--   Math/Powers.
-- - Tests and the files in Tests/: runs and instances of the theorems on the state after boot.
--
-- How C is read
--
-- A function that changes a table takes the state last and returns the result with the new
-- state. The return codes 0, -1, -2 and so on are `ok tt`, `err 1`, `err 2`; a number that is
-- returned is `ok n`. A pointer into a table is the index, a null pointer `none`. Static arrays
-- are lists of their length; an index out of range, which the C code never uses, reads a blank
-- entry. `uint32_t` sums are taken modulo 2^32. Numbers returned as `int` turn into errors from
-- 2^31 on. A text of a caller is not null unless a definition says so, and has no zero byte.
-- A text that a C field points to is copied here; the callers that are modelled pass literals.
--
-- Bounds and fuel
--
-- The loop of `resolve` runs on the length of the path and two more rounds; a round takes at
-- least one byte, so that the fuel never runs out: `none` is always the source's -1. `fs_pwd` has the source's own bound of 16
-- levels. The loops over tables run on the constant length of the table, as in the source:
-- `sched_yield` and `process_yield` make ten rounds, `fd_inherit` six, `wake_due_tasks` ten,
-- `net_shutdown_idle` and `net_disconnect_all` four. The loop of `gcd_i32` has one round more than
-- the second value, which falls in every round, and that of `modpow_i32` one more than the
-- exponent, which is halved; without a result in that many rounds they return `none`. The same
-- `none` stands for what the language leaves undefined: in `modpow_i32` a product that leaves
-- `int32_t` and the modulus 0, in `gcd_i32` the absolute value of `INT32_MIN`, in `mod_inv` a
-- product that leaves `int32_t`.
--
-- What is not modelled
--
-- Console output and parsing of shell arguments. In src/fd.c `fd_read`, `fd_write` and
-- `fd_write_chunk`, which reach sockets and events. The functions that other code registers with
-- the scheduler: they are the parameter `external` of Sched/Steps, any function of the state;
-- likewise the source handler of the event bus, the parameter `handler` of Events/Rules,
-- Services/Control and Policy/Privacy: any total function of the text and of the state of System,
-- which has the network, services, switches, firewall, rules, files, security tables, processes and
-- jobs. In the kernel it is the language runtime (src/lang.c), which runs any command of
-- the shell, also those that cause events again; a handler that does not return, or that changes a
-- table outside System (tasks, windows, the shell's own), is not modelled. The
-- explanations and suggestions that src/proofcore.c keeps beside each step, and its export. The
-- user and capability commands and the listings of src/security.c. The commands of src/net.c that
-- change the link and the shield. Of src/mathlib.c all but the number theory; the other libraries of
-- mathematics, the language runtime, console and drivers. Of src/editor.c opening, closing
-- and the mark for an error.
pub mod Base
pub mod Fs
pub mod Fd
pub mod Process
pub mod Jobs
pub mod Sched
pub mod Heap
pub mod Vfs
pub mod Events
pub mod Security
pub mod Proof
pub mod Services
pub mod Policy
pub mod Net
pub mod System
pub mod Shell
pub mod Editor
pub mod Windows
pub mod Block
pub mod Math
pub mod Tests

-- ===== src/Tests/Fs.antt =====
-- Tests and witnesses for the file system of src/fs.c.
use tabla_rusa_os.Base.{
  ◌+◌, ◌<◌, ◌≡◌, refl, Text, false, List, [], ◌∷◌, codes, replicate, ok, err, arith,
  get_or-replicate, length, str_copy, if◌then◌else◌, ◌++◌, find_index, count_if, streq,
}
use tabla_rusa_os.Fs.Node.{Fs, node, blank, max_nodes, in_use, content_max, find_child, alloc_node}
use tabla_rusa_os.Fs.Path.{start, resolve, resolve_parent, read_part, up}
use tabla_rusa_os.Fs.Ops.{
  mkdir, touch, write, read, stat, append_line, append_node, rm, cd, can_read, create_node,
  create_in, open_file, write_node, check_writable, move,
}
use tabla_rusa_os.Fs.Listing.{
  pwd, child_count, child_name, ls, target, join_path, spell, ancestors, push_bytes, nth_child,
  ls_lines, separator,
}
use tabla_rusa_os.Fs.Init.{init}
use tabla_rusa_os.Fs.Tree.{IsTree}
use tabla_rusa_os.Fs.Session
use tabla_rusa_os.Fs.Session.{Call, run, run-IsTree}
use tabla_rusa_os.Fs.Boot.{init-IsTree}
use tabla_rusa_os.Fs.RoundTrip.{write-read, append_line-read}
use tabla_rusa_os.Fs.Moves.{move_self}
use tabla_rusa_os.Fs.Children.{child_count-ls}
use tabla_rusa_os.Fs.Buffers.{pwd-fits}
use tabla_rusa_os.Fs.Parts.{parts, follow, resolve-follow}

-- The state at power-on: static memory is zero.
abbrev zeroed : Fs
zeroed = record { nodes = replicate max_nodes blank; cwd = 0 }

-- What the tests below compute with.
unfoldable pub booted : Fs
unfolding init mkdir write cd append_line touch read stat move rm can_read open_file create_node
    create_in write_node check_writable resolve resolve_parent find_child alloc_node find_index
    streq str_copy read_part pwd spell ancestors push_bytes count_if child_count target child_name
    nth_child ls ls_lines join_path separator append_node up
booted = init zeroed

boot_home : pwd booted 96 ≡ codes "/home"
unfolding booted
boot_home = refl

init-IsTree_example : IsTree (init zeroed)
init-IsTree_example =
    init-IsTree zeroed refl (λ i. rw (get_or-replicate max_nodes i blank) (omega arith))
      (omega arith)

pub booted-IsTree : IsTree booted
unfolding booted
booted-IsTree =
    init-IsTree zeroed refl (λ i. rw (get_or-replicate max_nodes i blank) (omega arith))
      (omega arith)

abbrev notes : Text
notes = codes "notes.txt"

write-read_example :
    let fs = (write notes (codes "hi") booted).1 in
    read fs notes ≡ (if can_read fs notes then ok (str_copy (codes "hi") content_max) else err 2)
unfolding booted
write-read_example = write-read notes (codes "hi") booted booted-IsTree refl refl

append_line-read_example :
    let path = codes "/var/log/system.log" in
    let fs = (append_line path (codes "events: bus online") booted).1 in
    read fs path
    ≡ ok
        (codes "boot: ram filesystem initialized\n" ++ (codes "events: bus online" ++ (b'\n' ∷ [])))
unfolding booted
append_line-read_example =
    append_line-read (codes "/var/log/system.log") (codes "events: bus online") booted
      (codes "boot: ram filesystem initialized\n") booted-IsTree refl (omega arith) refl

abbrev script : List Call
script =
    Session.mkdir (codes "a")
    ∷ Session.cd (codes "a")
    ∷ Session.rm (codes "../a")
    ∷ Session.write (codes "x") (codes "y")
    ∷ Session.rename (codes "/home/docs") (codes "papers")
    ∷ []

run-IsTree_example : IsTree (run script booted)
run-IsTree_example = run-IsTree script booted booted-IsTree

move_self_example :
    ((move (codes "readme.txt") (codes "/home/readme.txt") booted).0 ≡ ok tt)
    × (in_use (node (move (codes "readme.txt") (codes "/home/readme.txt") booted).1 26) ≡ false)
unfolding booted
move_self_example =
    move_self (codes "readme.txt") (codes "/home/readme.txt") booted 26 booted-IsTree refl refl refl
      refl

child_count-ls_example : child_count booted (codes "/") ≡ length (ls booted (codes "/")) + 1
unfolding booted
child_count-ls_example = child_count-ls booted (codes "/") 0 booted-IsTree refl refl

pwd-fits_example : (length (pwd booted 4) < 4) × (length (pwd booted 4) < 96)
pwd-fits_example = pwd-fits booted 4 (omega arith)

resolve-follow_example :
    resolve booted (codes "/home//./docs/../x")
    ≡ follow booted (parts (codes "/home//./docs/../x")) (start booted (codes "/home//./docs/../x"))
resolve-follow_example = resolve-follow booted (codes "/home//./docs/../x")

-- ===== src/Fs/Session.antt =====
-- Whole sessions with src/fs.c: any sequence of its state-changing calls.
use tabla_rusa_os.Base.{ℕ, Text, List, [], ◌∷◌}
use tabla_rusa_os.Fs.Node.{Fs}
use tabla_rusa_os.Fs.Ops
use tabla_rusa_os.Fs.Tree.{IsTree}
use tabla_rusa_os.Fs.Keeps.{
  mkdir-IsTree, touch-IsTree, write-IsTree, append_line-IsTree, rm-IsTree, cd-IsTree, chmod-IsTree,
  copy-IsTree, move-IsTree, rename-IsTree,
}

pub data Call : Type 0 where
  mkdir touch rm cd : Text → Call
  write append_line copy move rename : Text → Text → Call
  chmod : Text → ℕ → Call

-- The state after a call, whatever it returns.
unfoldable pub call : Call → Fs → Fs
call (mkdir p) fs = (Ops.mkdir p fs).1
call (touch p) fs = (Ops.touch p fs).1
call (rm p) fs = (Ops.rm p fs).1
call (cd p) fs = (Ops.cd p fs).1
call (write p t) fs = (Ops.write p t fs).1
call (append_line p t) fs = (Ops.append_line p t fs).1
call (copy p q) fs = (Ops.copy p q fs).1
call (move p q) fs = (Ops.move p q fs).1
call (rename p n) fs = (Ops.rename p n fs).1
call (chmod p m) fs = (Ops.chmod p m fs).1

unfoldable pub run : List Call → Fs → Fs
unfolding call
run [] fs = fs
run (c ∷ cs) fs = run cs (call c fs)

call-IsTree : (c : Call) (fs : Fs) → IsTree fs → IsTree (call c fs)
unfolding call
call-IsTree (mkdir p) fs tree = mkdir-IsTree p fs tree
call-IsTree (touch p) fs tree = touch-IsTree p fs tree
call-IsTree (rm p) fs tree = rm-IsTree p fs tree
call-IsTree (cd p) fs tree = cd-IsTree p fs tree
call-IsTree (write p t) fs tree = write-IsTree p t fs tree
call-IsTree (append_line p t) fs tree = append_line-IsTree p t fs tree
call-IsTree (copy p q) fs tree = copy-IsTree p q fs tree
call-IsTree (move p q) fs tree = move-IsTree p q fs tree
call-IsTree (rename p n) fs tree = rename-IsTree p n fs tree
call-IsTree (chmod p m) fs tree = chmod-IsTree p m fs tree

-- No sequence of state-changing calls, with whatever arguments and results, breaks a well-formed
-- tree: every used node hangs below the root by a chain of directories, every parent and the
-- working directory lie in the table, and every name and content fits its buffer with its length
-- recorded.
pub run-IsTree : (cs : List Call) (fs : Fs) → IsTree fs → IsTree (run cs fs)
unfolding run
run-IsTree [] fs tree = tree
run-IsTree (c ∷ cs) fs tree = run-IsTree cs (call c fs) (call-IsTree c fs tree)

-- ===== src/Tests/Storage.antt =====
-- Witnesses for the allocator of src/heap.c and the protected prefixes of src/vfs.c.
use tabla_rusa_os.Base.{◌≡◌, refl, true, [], ◌∷◌, arith, codes, replicate}
use tabla_rusa_os.Fs.Node.{Fs, blank, max_nodes}
use tabla_rusa_os.Fs.Path.{resolve}
use tabla_rusa_os.Heap.{Heap, allocate, Disjoint, allocate-Disjoint}
use tabla_rusa_os.Vfs.{vfs_can_write, dotted, dotted-bypass}

abbrev heap : Heap
heap = record { base = 0x10_0000; next = 0x10_0000 }

allocate-Disjoint_example :
    Disjoint 0x10_0000
      (allocate (20 ∷ 5 ∷ 64 ∷ []) heap).0
      (allocate (20 ∷ 5 ∷ 64 ∷ []) heap).1.next
allocate-Disjoint_example =
    allocate-Disjoint (20 ∷ 5 ∷ 64 ∷ []) heap (omega arith, (omega arith, (omega arith, tt)))
      (omega arith)

abbrev root_only : Fs
root_only = record { nodes = replicate max_nodes blank; cwd = 0 }

dotted-bypass_example :
    (vfs_can_write (dotted (codes "/system/kernel")) ≡ true)
    × (resolve root_only (dotted (codes "/system/kernel"))
        ≡ resolve root_only (codes "/system/kernel"))
dotted-bypass_example = dotted-bypass (codes "/system/kernel") root_only refl

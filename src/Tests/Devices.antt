-- ===== src/Tests/Devices.antt =====
-- Witnesses for the windows of src/window.c and the sectors of src/block.c.
use tabla_rusa_os.Base.{ℕ, ◌≡◌, refl, [], ◌∷◌, List, true, codes, replicate, arith}
use tabla_rusa_os.Jobs.Table.{boot_jobs}
use tabla_rusa_os.Windows.Table.{boot_windows, window_at, window_init, window_focused}
use tabla_rusa_os.Windows.Focus.{Call, focus_next, focus, resize, run, run-focused}
use tabla_rusa_os.Block.Sectors.{Disk, block_at, block_save, block_load}
use tabla_rusa_os.Block.Persistence.{save-load}
use tabla_rusa_os.Tests.Fs.{booted, booted-IsTree}

abbrev window_calls : List Call
window_calls = focus (codes "editor") ∷ resize (codes "editor") 100 5000 ∷ focus_next ∷ []

run-focused_example :
    ((window_at
        (run window_calls (window_init boot_windows))
        (window_focused (run window_calls (window_init boot_windows)))).focused
      ≡ true)
    × ((j : ℕ)
        → (window_at (run window_calls (window_init boot_windows)) j).focused ≡ true
        → j ≡ window_focused (run window_calls (window_init boot_windows)))
run-focused_example = run-focused window_calls boot_windows refl

abbrev disk : Disk
disk = record { blocks = codes "sector zero" ∷ replicate 7 []; fs = booted; jobs = boot_jobs }

save-load_example :
    ((block_load 3 (codes "/home/sector.txt") (block_save 0 (codes "/home/sector.txt") disk).1).0
      ≡ true)
    × (block_at
          (block_load 3
            (codes "/home/sector.txt")
            (block_save 0 (codes "/home/sector.txt") disk).1).1
          3
        ≡ block_at disk 0)
unfolding booted block_save
save-load_example =
    save-load 0 3 (codes "/home/sector.txt") disk booted-IsTree refl (omega arith) refl
      (omega arith) refl refl

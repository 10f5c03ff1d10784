-- ===== src/Block/Persistence.antt =====
-- A sector of src/block.c that is saved to a file and loaded from it.
use tabla_rusa_os.Base.{
  ℕ, ◌≡◌, ◌<◌, refl, ap, ◌∙◌, inl, inr, Text, true, false, ◌||◌, not, ltb, is_empty, str_copy,
  str_copy_fits, length, get_or-set_self, ok, is_ok, Result-cases, Bool-cases, [], arith,
}
use tabla_rusa_os.Fs.Node.{node, in_use, content_max}
use tabla_rusa_os.Fs.Ops.{write, read, can_read}
use tabla_rusa_os.Fs.Tree.{IsTree}
use tabla_rusa_os.Fs.RoundTrip.{write-read}
use tabla_rusa_os.Block.Sectors.{
  Disk, block_count, block_size, block_at, block_write, block_save, block_load,
}

-- A file that was written with success and can be read holds the text, if it fits.
written-read :
    (path text : Text) (d : Disk)
    → IsTree d.fs
    → in_use (node d.fs d.fs.cwd) ≡ true
    → length text < block_size
    → is_ok (write path text d.fs).0 ≡ true
    → can_read (write path text d.fs).1 path ≡ true
    → read (write path text d.fs).1 path ≡ ok text
written-read path text d tree live fits saved readable =
    elim (Result-cases (write path text d.fs).0) [
      | inr (k, e) ↦ absurd (ground arith)
      | inl (u, e) ↦
          write-read path text d.fs tree live e
          ∙ rw readable (ap ok (str_copy_fits text content_max (omega arith)))
    ]

-- In a well-formed tree with a working directory in use, a sector that `block save` saves to a file
-- that can be read is what `block load` then brings into any sector of the device from that file.
pub save-load :
    (id id' : ℕ) (path : Text) (d : Disk)
    → IsTree d.fs
    → in_use (node d.fs d.fs.cwd) ≡ true
    → id' < block_count
    → length d.blocks ≡ block_count
    → length (block_at d id) < block_size
    → (block_save id path d).0 ≡ true
    → can_read (block_save id path d).1.fs path ≡ true
    → ((block_load id' path (block_save id path d).1).0 ≡ true)
      × (block_at (block_load id' path (block_save id path d).1).1 id' ≡ block_at d id)
unfolding block_save block_load block_write
save-load id id' path d tree live lt size fits =
    let t = block_at d id in
    elim (Bool-cases (not (ltb id block_count) || is_empty path)) [
      | inl q ↦ rw q (λ saved readable. absurd cc)
      | inr q ↦ rw q (λ saved readable.
          let loaded = written-read path t d tree live fits saved readable in
          let small : ltb id' block_count ≡ true = ground arith in
          let named : is_empty path ≡ false = ground arith in
          rw (loaded, small, named)
            (
              refl,
              get_or-set_self d.blocks id' (str_copy t block_size) [] (omega arith)
                  ∙ str_copy_fits t block_size fits,
            ))
    ]

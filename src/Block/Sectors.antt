-- ===== src/Block/Sectors.antt =====
-- The sectors of src/block.c, with the file system that they are saved to. A sector is its string;
-- a command's arguments are given in their parts, and what it prints is left out. `block_cmd` books
-- its work in the job table before it looks at the action.
use tabla_rusa_os.Base.{
  ℕ, List, [], Text, Bool, true, false, ◌||◌, not, if◌then◌else◌, ltb, get_or, set, replicate,
  is_empty, str_copy, codes, Result, ok, err, is_ok,
}
use tabla_rusa_os.Fs.Node.{Fs}
use tabla_rusa_os.Fs.Ops.{mkdir, write, append_line, read}
use tabla_rusa_os.Jobs.Table.{Job, jobs_account}
use tabla_rusa_os.Events.Rules.{system_log}

abbrev pub block_count : ℕ
block_count = 8

abbrev pub block_size : ℕ
block_size = 64

pub record Disk : Type 0 where
  pub blocks : List Text
  pub fs : Fs
  pub jobs : List Job

abbrev pub block_at : Disk → ℕ → Text
block_at d id = get_or d.blocks id []

unfoldable pub block_write : ℕ → Text → Disk → Disk
block_write id text d =
    if ltb id block_count
    then record d { blocks = set d.blocks id (str_copy text block_size) }
    else d

abbrev pub device_text : Text
device_text = codes "device=ram-sector\nblocks=8\nblock_size=64\n"

unfoldable pub block_init : Disk → Disk
unfolding block_write
block_init d =
    let d' =
      block_write 0 (codes "Tabla block device sector zero")
        (record d { blocks = replicate block_count [] }) in
    let made = (mkdir (codes "/mnt/disk") d'.fs).1 in
    let written = (write (codes "/system/block.txt") device_text made).1 in
    record d' { fs = (append_line system_log (codes "block: ram sector device online") written).1 }

-- What every call of the command books.
abbrev pub booked : Disk → Disk
booked d = record d { jobs = jobs_account (codes "block-io") 1 d.jobs }

-- `block write ID TEXT`
unfoldable pub block_store : ℕ → Text → Disk → Disk
unfolding block_write
block_store id text d = block_write id text (booked d)

-- `block save ID PATH`. The Boolean says whether it was saved.
unfoldable pub block_save : ℕ → Text → Disk → Bool × Disk
block_save id path d =
    let written = write path (block_at d id) d.fs in
    if not (ltb id block_count) || is_empty path
    then (false, booked d)
    else (is_ok written.0, record (booked d) { fs = written.1 })

-- What `block load` does with the answer of `fs_read`.
abbrev pub load_result : ℕ → Result Text → Disk → Bool × Disk
load_result id (ok text) d = (true, block_write id text d)
load_result id (err k) d = (false, d)

-- `block load ID PATH`
unfoldable pub block_load : ℕ → Text → Disk → Bool × Disk
unfolding block_write
block_load id path d =
    let loaded = load_result id (read d.fs path) (booked d) in
    if not (ltb id block_count) || is_empty path then (false, booked d) else loaded

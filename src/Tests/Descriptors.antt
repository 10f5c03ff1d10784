-- ===== src/Tests/Descriptors.antt =====
-- A witness for the reads of src/fd.c.
use tabla_rusa_os.Base.{
  ◌≡◌, refl, Text, true, [], ◌∷◌, ◌++◌, codes, ok, arith, str_eq, find_index, streq,
}
use tabla_rusa_os.Fs.Node.{Fs, blank, dir, file, find_child}
use tabla_rusa_os.Fs.Ops.{read}
use tabla_rusa_os.Fs.Path.{resolve, walk, read_part}
use tabla_rusa_os.Fd.Table.{Tables, fd_find_for_pid, table_for_pid}
use tabla_rusa_os.Fd.Files.{fd_read_chunk}
use tabla_rusa_os.Fd.Chunks.{read_chunk-read_chunk}

-- A file system whose root has one file, and a descriptor for it.
abbrev one_file : Fs
one_file = record {
  nodes =
      record blank { kind = dir; name = codes "/" }
      ∷ record blank {
        kind = file;
        name = codes "note";
        content = codes "hello world";
        size = 11;
        permissions = 3;
      }
      ∷ [];
  cwd = 0;
}

abbrev open_tables : Tables
open_tables =
    record { pid = 0; entries = [] }
    ∷ record {
      pid = 1;
      entries =
          record {
            used = true;
            local_id = 0;
            owner_pid = 1;
            type = codes "file";
            path = codes "/note";
            mode = codes "r";
            offset = 2;
          }
          ∷ [];
    }
    ∷ []

read_chunk-read_chunk_example :
    let first = fd_read_chunk 0 4 one_file open_tables in
    let second = fd_read_chunk 0 5 one_file first.1 in
    (c d : Text) × (first.0 ≡ ok c) × (second.0 ≡ ok d) × (c ++ d ≡ codes "llo wor")
unfolding str_eq read resolve find_child find_index fd_find_for_pid table_for_pid walk read_part
    streq
read_chunk-read_chunk_example =
    read_chunk-read_chunk 0 4 5 1 0 one_file open_tables (codes "hello world") (omega arith)
      (omega arith) refl refl refl

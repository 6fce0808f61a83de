-- ===== src/BigFs/DataServer/Tests.antt =====
-- Assignment2P1/fileDataServer.c on a disk that is a table from paths to texts.
use network_programming_assi.Base.{
  ℕ, ◌+◌, ◌<◌, ◌≤◌, ◌≡◌, refl, Str, str_eq, codes, none, some, [], ◌∷◌, ◌++◌, false, ok,
  if◌then◌else◌, length, arith,
}
use network_programming_assi.Base.Decimal.{show_nat}
use network_programming_assi.BigFs.Receiver.Programs.{max_size}
use network_programming_assi.BigFs.Client.Strings.{strings, gather}
use network_programming_assi.BigFs.DataServer.Files.{access}
use network_programming_assi.BigFs.DataServer.Server.{
  DataServer, copy_file, remove_file, numbered, to_bigfs, print_file,
}
use network_programming_assi.BigFs.DataServer.Storing.{
  Stored, to_bigfs-Stored_chunk, print_file-gathered,
}
use network_programming_assi.BigFs.DataServer.Tables.{
  Table, tables, disk, tables-Writable, numbered_short, free_first,
}
use network_programming_assi.BigFs.DataServer.Deleting.{Deletable, Deleted, remove_file-Deleted}
use network_programming_assi.BigFs.DataServer.Copying.{Copied, copy_file-Copied}

to_bigfs-Stored_chunk_example :
    (dir : Str) × (s' : DataServer Table) × (to_bigfs tables 1 (record {
      input = codes "text" ∷ codes "f" ∷ codes "0" ∷ codes "0" ∷ [];
      disk = disk;
      sent = [];
    })
      ≡ ok s')
    × Stored tables
        (record {
          input = codes "text" ∷ codes "f" ∷ codes "0" ∷ codes "0" ∷ [];
          disk = disk;
          sent = [];
        })
        (codes "text")
        (codes "0")
        (codes "0")
        s'
        dir
to_bigfs-Stored_chunk_example =
    to_bigfs-Stored_chunk tables 1 disk [] (codes "text") (codes "f") (codes "0") (codes "0") [] 0
      (omega arith) (omega arith) (omega arith) (omega arith) numbered_short free_first
      (omega arith) tables-Writable

numbered_fits : (j : ℕ) → j ≤ 0 → length (numbered (codes "data/f") j) < max_size
numbered_fits j le = omega (arith, numbered_short j le)

print_file-gathered_example :
    (out : Str) × (print_file tables
        (record { input = codes "data/f" ∷ []; disk = disk; sent = [] })
      ≡ ok (record { input = []; disk = disk; sent = [] ++ out }))
    × (gather (strings (out ++ [])) ≡ ok (codes "old", strings []))
print_file-gathered_example =
    print_file-gathered tables disk [] (codes "data/f") (codes "old") [] [] (unfold str_eq in refl)
      (omega arith) (refl, (refl, (refl, tt))) (omega arith) (omega arith)

-- A disk on which all files are empty.
abbrev empty_files : Table
empty_files p = some []

tables-Deletable : Deletable tables
tables-Deletable d p e = ground arith

remove_file-Deleted_example :
    (s' : DataServer Table) × (remove_file tables
        (record { input = codes "data/" ∷ codes "f" ∷ []; disk = disk; sent = [] })
      ≡ ok s')
    × Deleted tables
        (record { input = codes "data/" ∷ codes "f" ∷ []; disk = disk; sent = [] })
        (codes "data/")
        (codes "f")
        s'
remove_file-Deleted_example =
    remove_file-Deleted tables disk [] (codes "data/") (codes "f") [] (omega arith) (omega arith)
      (omega arith) tables-Deletable

-- A disk that has the first chunk of `data/f`.
abbrev first_chunk : Table
first_chunk p = if str_eq (codes "data/f0") p then some (codes "old") else none

free_copy : access tables first_chunk (numbered (codes "data/f") 0) ≡ false
unfolding numbered show_nat str_eq
free_copy = refl

numbered_room : (j : ℕ) → j ≤ 0 → length (numbered (codes "data/f") j) + 1 < max_size
numbered_room j le = omega (arith, numbered_short j le)

copy_file-Copied_example :
    (copy : Str) × (s' : DataServer Table) × (copy_file tables 1
        (record { input = codes "data/f" ∷ codes "0" ∷ []; disk = first_chunk; sent = [] })
      ≡ ok s')
    × Copied tables
        (record { input = codes "data/f" ∷ codes "0" ∷ []; disk = first_chunk; sent = [] })
        (codes "old")
        s'
        copy
copy_file-Copied_example =
    copy_file-Copied tables 1 first_chunk [] (codes "data/f") (codes "old") [] [] 0
      (unfold str_eq in refl) (refl, (refl, (refl, tt))) tt (omega arith) numbered_room free_copy
      (omega arith) tables-Writable

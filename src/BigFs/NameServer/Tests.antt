-- ===== src/BigFs/NameServer/Tests.antt =====
-- Runs of the name server of Assignment2P1/fileNameServer.c, and its theorems at a small tree.
use network_programming_assi.Base.{
  ℕ, ◌≡◌, refl, Str, List, [], ◌∷◌, ◌++◌, none, some, ok, fault, Outcome, ◌>>=◌, pos, codes, arith,
  map, str_eq, split_on, last_or,
}
use network_programming_assi.Base.Decimal.{atoi, show}
use network_programming_assi.BigFs.NameServer.Heap.{null, Heap, Node, write}
use network_programming_assi.BigFs.NameServer.Server.{Server, home, start}
use network_programming_assi.BigFs.NameServer.Transfer.{serve}
use network_programming_assi.BigFs.NameServer.Commands.{new_file, cat_file, from_bigfs}
use network_programming_assi.BigFs.NameServer.Chain.{Cells}
use network_programming_assi.BigFs.NameServer.Siblings.{first}
use network_programming_assi.BigFs.NameServer.Ready.{IsReady}
use network_programming_assi.BigFs.NameServer.Files.{with_location, Stored, to_bigfs-Stored}
use network_programming_assi.BigFs.NameServer.Retrieval.{with_input, found_reply, cat_file-to_bigfs}
use network_programming_assi.BigFs.NameServer.Unlink.{without_first}
use network_programming_assi.BigFs.NameServer.Removal.{
  victim, find_cell, Removed, remove_file-Removed,
}
use network_programming_assi.BigFs.NameServer.Paths.{IsSimple}
use network_programming_assi.BigFs.NameServer.Moving.{
  others, Moved, move_file-loses, move_file-renames,
}

-- What the client has been sent after the first `n` commands.
answers : ℕ → List Str → Outcome Str
unfolding serve
answers n input = do s ← serve n (start input); ok s.output

mkdir_ls : answers 2 (map codes ("mkdir" ∷ "a" ∷ "ls" ∷ [])) ≡ ok (codes "a\n" ++ 0 ∷ [])
unfolding answers
mkdir_ls = refl

store_cat :
    answers 2 (map codes ("tobigfs" ∷ "x/a" ∷ "2" ∷ "data/a" ∷ "cat" ∷ "a" ∷ []))
    ≡ ok (codes "0" ++ 0 ∷ codes "1" ++ 0 ∷ codes "data/a" ++ 0 ∷ codes "2" ++ 0 ∷ [])
unfolding answers
store_cat = refl

cd_up : answers 3 (map codes ("cd" ∷ ".." ∷ "cd" ∷ "." ∷ "ls" ∷ [])) ≡ fault
unfolding answers
cd_up = refl

copy_then_remove :
    answers 4 (
      map codes (
        "mkdir" ∷ "d" ∷ "tobigfs" ∷ "a" ∷ "1" ∷ "data/a" ∷ "cp" ∷ "a" ∷ "d" ∷ "data/a(0)" ∷ "rm"
        ∷ "a" ∷ []))
    ≡ ok (
        codes "0"
        ++ 0 ∷ codes "0"
        ++ 0 ∷ codes "data/a"
        ++ 0 ∷ codes "1"
        ++ 0 ∷ codes "1"
        ++ 0 ∷ codes "data/a"
        ++ 0 ∷ codes "1"
        ++ 0 ∷ [])
unfolding answers
copy_then_remove = refl

-- A tree with two files, `a` and `b`.
abbrev file_a : Node
file_a = with_location (new_file (codes "a") 1 (pos 3)) (codes "data/a")

abbrev file_b : Node
file_b = with_location (new_file (codes "b") 1 (pos 1)) (codes "data/b")

abbrev cells : Cells
cells = (2, file_a) ∷ (3, file_b) ∷ []

abbrev tree : Heap
tree =
    write (write (write (λ _. none) 1 (record home { child = 2 })) 2 (record file_a { next = 3 })) 3
      file_b

abbrev two_files : List Str → Server
two_files input = record { heap = tree; fresh = 4; cur = 1; input = input; output = [] }

two_files-IsReady : (input : List Str) → IsReady (two_files input) home cells
unfolding write
two_files-IsReady input = record {
  some_node = omega arith;
  below = λ a le. ground arith;
  is_dir = record {
    present = refl;
    holds = refl;
    apart = refl;
    chain = (refl, refl, refl, (refl, refl, refl, tt));
  };
}

abbrev upload : List Str
upload = map codes ("x/c" ∷ "7" ∷ "data/c" ∷ [])

to_bigfs-Stored_example :
    Stored (two_files upload) home cells (codes "c") (pos 7) (codes "data/c") []
unfolding first str_eq split_on last_or atoi
to_bigfs-Stored_example =
    to_bigfs-Stored (codes "x/c") (codes "7") (codes "data/c") (pos 7) [] (two_files-IsReady upload)
      refl (omega arith) (omega arith) (omega arith) refl (omega arith) refl

c_stored : Stored (two_files upload) home cells (codes "c") (pos 7) (codes "data/c") []
unfolding first str_eq split_on last_or atoi
c_stored =
    to_bigfs-Stored (codes "x/c") (codes "7") (codes "data/c") (pos 7) [] (two_files-IsReady upload)
      refl (omega arith) (omega arith) (omega arith) refl (omega arith) refl

cat_file-to_bigfs_example :
    (cat_file (with_input c_stored.after (codes "c" ∷ []))
      ≡ ok (found_reply (codes "data/c") (pos 7) (with_input c_stored.after [])))
    × (from_bigfs (with_input c_stored.after (codes "c" ∷ []))
        ≡ ok (found_reply (codes "data/c") (pos 7) (with_input c_stored.after [])))
unfolding first str_eq split_on last_or show
cat_file-to_bigfs_example =
    cat_file-to_bigfs (codes "x/c") (pos 7) (codes "data/c") [] (two_files-IsReady upload) refl
      c_stored (omega arith) (omega arith) []

remove_file-Removed_example :
    Removed (two_files (codes "b" ∷ [])) home cells (codes "b") (codes "data/b") (pos 1) []
unfolding victim find_cell str_eq show
remove_file-Removed_example =
    remove_file-Removed (codes "b") [] 3 file_b (codes "data/b") (pos 1)
      (two_files-IsReady (codes "b" ∷ [])) refl (omega arith) refl refl (omega arith)

a-IsSimple : IsSimple (codes "a")
unfolding split_on str_eq
a-IsSimple = record { one = refl; not_up = refl; not_here = refl }

b-IsSimple : IsSimple (codes "b")
unfolding split_on str_eq
b-IsSimple = record { one = refl; not_up = refl; not_here = refl }

z-IsSimple : IsSimple (codes "z")
unfolding split_on str_eq
z-IsSimple = record { one = refl; not_up = refl; not_here = refl }

move_file-loses_example :
    Moved (two_files (codes "a" ∷ codes "b" ∷ [])) home (others (codes "a") cells) (codes "1") []
unfolding find_cell without_first str_eq
move_file-loses_example =
    move_file-loses 2 file_a (codes "b") [] (two_files-IsReady (codes "a" ∷ codes "b" ∷ [])) refl
      (omega arith) (omega arith) a-IsSimple b-IsSimple refl refl 3 file_b refl refl

move_file-renames_example :
    Moved
      (two_files (codes "a" ∷ codes "z" ∷ []))
      home
      (others (codes "a") cells
        ++ (2, record file_a { next = null; parent = some 1; name = codes "z" }) ∷ [])
      (codes "0")
      []
unfolding find_cell without_first str_eq
move_file-renames_example =
    move_file-renames 2 file_a (codes "z") [] (two_files-IsReady (codes "a" ∷ codes "z" ∷ [])) refl
      (omega arith) (omega arith) a-IsSimple z-IsSimple refl refl refl refl (omega arith)

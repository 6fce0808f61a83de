-- ===== src/BigFs/Client/Commands.antt =====
-- The commands of Assignment2P1/Client.c and the loop of its `main`.
use network_programming_assi.Base.{
  ℕ, zero, suc, ◌+◌, ◌/◌, Str, str_eq, codes, fits, split_on, ℤ, rounds, Option, none, some, List,
  [], ◌∷◌, ◌++◌, Bool, Outcome, ok, fault, stopped, require, ◌>>=◌, ◌>>◌, if◌then◌else◌, take, drop,
  length,
}
use network_programming_assi.Base.Decimal.{show_nat, atoi}
use network_programming_assi.BigFs.Receiver.Programs.{max_size, block_size}
use network_programming_assi.BigFs.Client.State.{
  name_server, Client, send_string, print, argument, receive,
}
use network_programming_assi.BigFs.Client.Chunks.{
  base_name, upload, ask, fetch, remove_chunks, copy_chunks,
}

-- What the commands rely on of the client's own files: `contents` of a file that `fopen` opens,
-- whether `fopen` can create a file, and how many bytes of a text that is printed to a stream are
-- in the file before the stream is closed.
pub record Local : Type 0 where
  pub contents : Str → Option Str
  pub creatable : Str → Bool
  pub flushed : Str → ℕ

unfoldable pub list_directory : Client → Outcome Client
list_directory c = do
  (readbuffer, c) ← receive max_size (send_string name_server (codes "ls") c)
  ok (print readbuffer c)

unfoldable pub make_directory : Client → Outcome Client
make_directory c = elim c.command [
  | [] ↦ ok (print (codes "No directory Specified\n") c)
  | w ∷ ws ↦ ok (
      send_string name_server w
        (send_string name_server (codes "mkdir") (record c { command = ws })))
]

unfoldable pub change_directory : Client → Outcome Client
change_directory c = elim c.command [
  | [] ↦ ok (print (codes "No directory Specified\n") (send_string name_server (codes "cd") c))
  | w ∷ ws ↦ do
    let c = send_string name_server (codes "cd") (record c { command = ws })
    (choice, c) ← receive max_size (send_string name_server w c)
    ok (if str_eq choice (codes "1") then print (codes "Directory not present\n") c else c)
]

-- atoi and the number of rounds of a loop over the chunks.
abbrev count_of : Option ℤ → Outcome ℕ
count_of none = fault
count_of (some n) = ok (rounds n)

-- A file's location and the number of its chunks.
unfoldable pub receive_location : Client → Outcome (Str × ℕ × Client)
receive_location c = do
  (loc, c) ← receive max_size c
  (chunks, c) ← receive 10 c
  n ← count_of (atoi chunks)
  ok (loc, n, c)

unfoldable pub print_file : Str → ℕ → Client → Outcome Client
print_file file_name n c = do
  c ← ask n 0 0 file_name c
  (text, c) ← fetch n 0 c
  ok (print (text ++ codes "\n") c)

unfoldable pub cat_file : Client → Outcome Client
cat_file c = do
  (found, c) ← argument (send_string name_server (codes "cat") c)
  (temp, c) ← receive 10 (send_string name_server found c)
  if str_eq temp (codes "0")
      then ok (print (codes "File not found in current directory\n") c)
      else do (loc, n, c) ← receive_location c; print_file loc n c

unfoldable pub remove_file : Client → Outcome Client
remove_file c = do
  (found, c) ← argument (send_string name_server (codes "rm") c)
  (temp, c) ← receive 10 (send_string name_server found c)
  if str_eq temp (codes "0")
      then ok (print (codes "File not found in current directory\n") c)
      else do (loc, n, c) ← receive_location c; remove_chunks n 0 0 loc c

unfoldable pub copy_file : Client → Outcome Client
copy_file c = do
  (from, c) ← argument (send_string name_server (codes "cp") c)
  (to, c) ← argument (send_string name_server from c)
  (temp, c) ← receive max_size (send_string name_server to c)
  if str_eq temp (codes "1")
      then ok (print (codes "Invalid copy\n") c)
      else do (loc, n, c) ← receive_location c; copy_chunks n 0 0 loc [] c

unfoldable pub move_file : Client → Outcome Client
move_file c = do
  (from, c) ← argument (send_string name_server (codes "mv") c)
  (to, c) ← argument (send_string name_server from c)
  (temp, c) ← receive max_size (send_string name_server to c)
  ok (if str_eq temp (codes "1") then print (codes "Invalid move\n") c else c)

-- The file that `savefile` leaves: the NUL is written to the descriptor while a part of the text is
-- still in the stream's buffer.
unfoldable pub saved_text : ℕ → Str → Str
saved_text flushed text = take flushed text ++ 0 ∷ drop flushed text

module _ (disk : Local) where
  unfoldable pub transfer_to_bigfs : Str → Client → Outcome Client
  transfer_to_bigfs file_name c = elim (disk.contents file_name) [
    | none ↦ ok (print (codes "File Not Found!\n") c)
    | some text ↦ do
      let no_of_parts = 1 + length text / block_size
      fits 10 (show_nat no_of_parts)
      let c = send_string name_server (show_nat no_of_parts) c
      upload no_of_parts 0 0 0 (base_name file_name) text c
  ]

  unfoldable pub to_bigfs : Client → Outcome Client
  to_bigfs c = do
    (found, c) ← argument (send_string name_server (codes "tobigfs") c)
    (temp, c) ← receive max_size (send_string name_server found c)
    if str_eq temp (codes "1")
        then ok (print (codes "File/Directory with the same name exists\n") c)
        else transfer_to_bigfs found c

  unfoldable pub save_chunks : ℕ → Str → Client → Outcome Client
  save_chunks n name c = do
    require (disk.creatable name)
    (text, c) ← fetch n 0 c
    ok (record c { saved = (name, saved_text (disk.flushed text) text) ∷ c.saved })

  unfoldable pub save_file : Client → Outcome Client
  save_file c = do
    (found, c) ← argument (send_string name_server (codes "frombigfs") c)
    (temp, c) ← receive 10 (send_string name_server found c)
    if str_eq temp (codes "0")
        then ok (print (codes "File not found in current directory\n") c)
        else do
          (loc, n, c) ← receive_location c
          c ← ask n 0 0 loc c
          save_chunks n (base_name found) c

  -- The command that the first word of the line names.
  unfoldable pub run : Str → Client → Outcome Client
  run found c =
      if str_eq found (codes "ls")
      then list_directory c
      else if str_eq found (codes "mkdir")
      then make_directory c
      else if str_eq found (codes "cd")
      then change_directory c
      else if str_eq found (codes "cat")
      then cat_file c
      else if str_eq found (codes "mv")
      then move_file c
      else if str_eq found (codes "cp")
      then copy_file c
      else if str_eq found (codes "rm")
      then remove_file c
      else if str_eq found (codes "tobigfs")
      then to_bigfs c
      else if str_eq found (codes "frombigfs")
      then save_file c
      else if str_eq found (codes "exit")
      then stopped
      else ok (print (codes "Invalid command\n") c)

  -- A line of input, without its newline; a line too long comes in several.
  unfoldable pub run_line : Str → Client → Outcome Client
  run_line line c = do
    (found, c) ← argument (record c { command = split_on b' ' line })
    run found c

-- The loop that stores the addresses of the data servers, with room for so many: it takes the words
-- before the first empty one.
unfoldable pub store_addresses : ℕ → List Str → Outcome (List Str)
store_addresses room [] = ok []
store_addresses room ([] ∷ ws) = ok []
store_addresses zero ((c ∷ w) ∷ ws) = fault
store_addresses (suc room) ((c ∷ w) ∷ ws) = do
  fits max_size (c ∷ w)
  rest ← store_addresses room ws
  ok ((c ∷ w) ∷ rest)

-- The addresses in the first string from the name server, `readbuffer`, which has 1024 bytes, as
-- each of the 10 places of `dataips`.
unfoldable pub addresses : Str → Outcome (List Str)
addresses readbuffer = do fits max_size readbuffer; store_addresses 10 (split_on b' ' readbuffer)

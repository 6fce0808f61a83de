-- ===== src/BigFs/NameServer/Commands.antt =====
-- The commands of Assignment2P1/fileNameServer.c on the current directory. `BigFs.NameServer.Transfer`
-- has `movefile` and `copyfile`, and the command loop.
use network_programming_assi.Base.{
  ℕ, zero, suc, Str, str_eq, split_on, last_or, Option, none, some, List, [], ◌∷◌, ◌++◌, ◌&&◌,
  Outcome, ok, out_of_fuel, ◌>>=◌, ◌>>◌, ◌==◌, if◌then◌else◌, codes, fits, pos, ℤ,
}
use network_programming_assi.Base.Decimal.{atoi}
use network_programming_assi.BigFs.NameServer.Heap.{
  Ptr, Heap, Node, directory, file, is_file, null, load, determinate, set_next, set_child,
  set_loc_name,
}
use network_programming_assi.BigFs.NameServer.Server.{
  Server, max_size, receive, send_string, malloc, send_location,
}
use network_programming_assi.BigFs.NameServer.Walk.{find_child, find_file, append_child}

-- `sendiptoClient`: the addresses of the data servers, as `inet_ntop` prints them.
unfoldable pub send_addresses : List Str → Str
send_addresses [] = 0 ∷ []
send_addresses (ip ∷ ips) = ip ++ (b' ' ∷ send_addresses ips)

-- The names from `p` on, a newline after each.
unfoldable pub list_from : ℕ → Heap → Ptr → Outcome Str
list_from zero h p = out_of_fuel
list_from (suc k) h p =
    if p == null
    then ok []
    else do n ← load h p; rest ← list_from k h n.next; ok (n.name ++ (b'\n' ∷ rest))

unfoldable pub list_directory : Server → Outcome Server
list_directory s = do
  d ← load s.heap s.cur
  names ← list_from s.fresh s.heap d.child
  ok (send_string names s)

-- The node that `makeDirectory` fills in.
abbrev pub new_directory : Str → Ptr → Node
new_directory dirname cur = record {
  name = dirname;
  next = null;
  child = null;
  parent = some cur;
  type = directory;
  no_of_chunks = some (pos 0);
  loc_name = none;
}

unfoldable pub make_directory : Server → Outcome Server
make_directory s = do
  (dirname, s) ← receive max_size s
  let new = s.fresh
  fits 256 dirname
  let s = malloc (new_directory dirname s.cur) s
  h ← append_child s.fresh s.heap s.cur new
  ok (record s { heap = h })

-- One round of the loop of `changeDirectory`; `none` sets its `flag`.
unfoldable pub enter : ℕ → Heap → Ptr → Str → Outcome (Option Ptr)
enter k h p piece =
    if str_eq piece (codes "..")
    then (do n ← load h p; q ← determinate n.parent; ok (some q))
    else if str_eq piece (codes ".")
    then ok (some p)
    else do
      n ← load h p
      q ← find_child k h piece n.child
      if q == null then ok none else do m ← load h q; ok (if is_file m.type then none else some q)

unfoldable pub enter_all : ℕ → Heap → Ptr → List Str → Outcome (Option Ptr)
enter_all k h p [] = ok (some p)
enter_all k h p (piece ∷ rest) = do
  found ← enter k h p piece
  elim found [ none ↦ ok none | some q ↦ enter_all k h q rest ]

unfoldable pub change_directory : Server → Outcome Server
change_directory s = do
  (dirname, s) ← receive max_size s
  found ← enter_all s.fresh s.heap s.cur (split_on b'/' dirname)
  ok (elim found [
    | none ↦ send_string (codes "1") s
    | some q ↦ send_string (codes "0") (record s { cur = q })
  ])

-- The node that `tobigfs` fills in, but for its location.
abbrev pub new_file : Str → Ptr → ℤ → Node
new_file found2 cur chunks = record {
  name = found2;
  next = null;
  child = null;
  parent = some cur;
  type = file;
  no_of_chunks = some chunks;
  loc_name = none;
}

-- The rest of `tobigfs` once the name is known to be new. The node is allocated before the number
-- of chunks is read in the source, and nothing looks at it in between.
unfoldable pub add_file : Str → Server → Outcome Server
add_file found2 s = do
  fits 256 found2
  (no_of_chunks, s) ← receive 20 s
  chunks ← determinate (atoi no_of_chunks)
  let new = s.fresh
  let s = malloc (new_file found2 s.cur chunks) s
  h ← append_child s.fresh s.heap s.cur new
  (location, s) ← receive max_size s
  h ← set_loc_name h new location
  ok (record s { heap = h })

unfoldable pub to_bigfs : Server → Outcome Server
to_bigfs s = do
  (filename, s) ← receive max_size s
  let found2 = last_or [] (split_on b'/' filename)
  d ← load s.heap s.cur
  temp ← find_child s.fresh s.heap found2 d.child
  if temp == null
      then add_file found2 (send_string (codes "0") s)
      else ok (send_string (codes "1") s)

unfoldable pub cat_file : Server → Outcome Server
cat_file s = do
  (filename, s) ← receive max_size s
  d ← load s.heap s.cur
  temp ← find_file s.fresh s.heap filename d.child
  send_location temp (send_string (if temp == null then codes "0" else codes "1") s)

-- `frombigfs` has the body of `catfile`.
unfoldable pub from_bigfs : Server → Outcome Server
from_bigfs s = do
  (filename, s) ← receive max_size s
  d ← load s.heap s.cur
  temp ← find_file s.fresh s.heap filename d.child
  send_location temp (send_string (if temp == null then codes "0" else codes "1") s)

-- The loop of `removefile`: the node that was unlinked, or NULL, and the heap.
unfoldable pub unlink_file : ℕ → Heap → Str → Ptr → Ptr → Outcome (Ptr × Heap)
unlink_file zero h name prev temp = out_of_fuel
unlink_file (suc k) h name prev temp = if temp == null then ok (null, h) else do
  n ← load h temp
  if str_eq n.name name && is_file n.type
      then (do h ← set_next h prev n.next; h ← set_next h temp null; ok (temp, h))
      else unlink_file k h name temp n.next

-- The first child is unlinked whatever its type is.
unfoldable pub unlink_child : ℕ → Heap → Ptr → Str → Outcome (Ptr × Heap)
unlink_child k h dir name = do
  d ← load h dir
  if d.child == null then ok (null, h) else do
    n ← load h d.child
    if str_eq n.name name
        then (do h ← set_child h dir n.next; h ← set_next h d.child null; ok (d.child, h))
        else unlink_file k h name d.child d.child

unfoldable pub remove_file : Server → Outcome Server
remove_file s = do
  (filename, s) ← receive max_size s
  (temp, h) ← unlink_child s.fresh s.heap s.cur filename
  send_location temp
      (send_string (if temp == null then codes "0" else codes "1") (record s { heap = h }))

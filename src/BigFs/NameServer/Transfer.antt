-- ===== src/BigFs/NameServer/Transfer.antt =====
-- `movefile`, `copyfile` and the command loop of Assignment2P1/fileNameServer.c.
use network_programming_assi.Base.{
  ℕ, zero, suc, ◌+◌, Str, str_eq, split_on, last_or, Option, none, some, ◌||◌, Outcome, ok,
  out_of_fuel, ◌>>=◌, ◌>>◌, ◌==◌, if◌then◌else◌, codes, fits,
}
use network_programming_assi.Base.Decimal.{atoi, show}
use network_programming_assi.BigFs.NameServer.Heap.{
  Ptr, Heap, is_file, null, write, load, determinate, set_next, set_child, set_parent, set_name,
  set_loc_name,
}
use network_programming_assi.BigFs.NameServer.Server.{
  Server, max_size, receive, send_string, malloc, send_location,
}
use network_programming_assi.BigFs.NameServer.Walk.{
  find_child, find_file, link_last, append_child, follow, find_source, find_destination,
}
use network_programming_assi.BigFs.NameServer.Commands.{
  list_from, list_directory, make_directory, enter, enter_all, change_directory, add_file, to_bigfs,
  cat_file, from_bigfs, unlink_file, unlink_child, remove_file,
}

-- The loop of `movefile` that takes the first sibling with this name out of the list.
unfoldable pub unlink_name : ℕ → Heap → Str → Ptr → Ptr → Ptr → Outcome Heap
unlink_name zero h name source prev temp = out_of_fuel
unlink_name (suc k) h name source prev temp = if temp == null then ok h else do
  n ← load h temp
  if str_eq n.name name
      then (do from ← load h source; h ← set_next h prev from.next; set_next h source null)
      else unlink_name k h name source temp n.next

-- Lines 468 to 484: the node leaves the list of its parent.
unfoldable pub detach : ℕ → Heap → Ptr → Outcome Heap
detach k h source = do
  n ← load h source
  par ← determinate n.parent
  p ← load h par
  first ← load h p.child
  if str_eq first.name n.name
      then (do h ← set_child h par n.next; set_next h source null)
      else unlink_name k h n.name source p.child p.child

abbrev rename : Heap → Ptr → Option Str → Outcome Heap
rename h p none = ok h
rename h p (some name) = do fits 256 name; set_name h p name

-- Lines 486 to 539: the node joins the children of the destination.
unfoldable pub attach : Heap → Ptr → Str → Server → Outcome Server
attach h source destination s = do
  to ← find_destination s.fresh h s.cur (split_on b'/' destination)
  d ← load h to.dir
  if is_file d.type || to.invalid then ok (send_string (codes "1") (record s { heap = h })) else do
    h ← set_parent h source to.dir
    h ← append_child s.fresh h to.dir source
    h ← rename h source to.new_name
    ok (send_string (codes "0") (record s { heap = h }))

unfoldable pub move_file : Server → Outcome Server
move_file s = do
  (source, s) ← receive max_size s
  (destination, s) ← receive max_size s
  found ← find_source s.fresh s.heap s.cur (split_on b'/' source)
  elim found [
    | none ↦ ok (send_string (codes "1") s)
    | some temp_cur ↦ do h ← detach s.fresh s.heap temp_cur; attach h temp_cur destination s
  ]

abbrev copy_name : Option Str → Str → Str
copy_name none name = name
copy_name (some name) _ = name

-- Lines 581 to 652. The parent of the copy is never written; that of the source is. The name of the
-- copy is written after it is linked in the source, and nothing looks at it in between.
unfoldable pub copy_node : Ptr → Str → Server → Outcome Server
copy_node temp_cur destination s = do
  n ← load s.heap temp_cur
  let sourcenode = s.fresh
  to ← find_destination (s.fresh + 1) s.heap s.cur (split_on b'/' destination)
  d ← load s.heap to.dir
  if is_file d.type || to.invalid
      then ok (send_string (codes "1") (record s { fresh = s.fresh + 1 }))
      else do
        h ← set_parent s.heap temp_cur to.dir
        fits 256 (copy_name to.new_name n.name)
        let s =
            malloc
              (record {
                name = copy_name to.new_name n.name;
                next = null;
                child = null;
                parent = none;
                type = n.type;
                no_of_chunks = n.no_of_chunks;
                loc_name = none;
              })
              (record s { heap = h })
        h ← append_child s.fresh s.heap to.dir sourcenode
        s ← send_location temp_cur (send_string (codes "0") (record s { heap = h }))
        (datalocation, s) ← receive max_size s
        h ← set_loc_name s.heap sourcenode datalocation
        ok (record s { heap = h })

unfoldable pub copy_file : Server → Outcome Server
copy_file s = do
  (source, s) ← receive max_size s
  (destination, s) ← receive max_size s
  found ← find_source s.fresh s.heap s.cur (split_on b'/' source)
  elim found [
    | none ↦ ok (send_string (codes "1") s)
    | some temp_cur ↦ copy_node temp_cur destination s
  ]

-- One round of the loop of `main`.
unfoldable pub handle : Server → Outcome Server
handle s = do
  (choice, s) ← receive max_size s
  if str_eq choice (codes "ls")
      then list_directory s
      else if str_eq choice (codes "mkdir")
      then make_directory s
      else if str_eq choice (codes "cd")
      then change_directory s
      else if str_eq choice (codes "tobigfs")
      then to_bigfs s
      else if str_eq choice (codes "mv")
      then move_file s
      else if str_eq choice (codes "cat")
      then cat_file s
      else if str_eq choice (codes "frombigfs")
      then from_bigfs s
      else if str_eq choice (codes "rm")
      then remove_file s
      else if str_eq choice (codes "cp")
      then copy_file s
      else ok s

-- The first `n` rounds.
unfoldable pub serve : ℕ → Server → Outcome Server
unfolding load set_next set_child set_parent set_name set_loc_name write receive send_location
    find_child find_file link_last append_child follow find_source find_destination list_from
    list_directory make_directory enter enter_all change_directory add_file to_bigfs cat_file
    from_bigfs unlink_file unlink_child remove_file unlink_name detach attach move_file copy_node
    copy_file handle str_eq split_on last_or atoi show
serve zero s = ok s
serve (suc n) s = do s ← handle s; serve n s

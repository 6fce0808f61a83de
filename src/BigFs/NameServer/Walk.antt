-- ===== src/BigFs/NameServer/Walk.antt =====
-- The loops of Assignment2P1/fileNameServer.c over the children of a directory and over the pieces
-- of a path. Each loop over a list of nodes has fuel; a server gives it `fresh`, the number of
-- nodes it has allocated and one.
use network_programming_assi.Base.{
  ℕ, zero, suc, Str, str_eq, Option, none, some, List, [], ◌∷◌, Bool, true, false, ◌&&◌, Outcome,
  ok, out_of_fuel, ◌>>=◌, ◌==◌, if◌then◌else◌, codes,
}
use network_programming_assi.BigFs.NameServer.Heap.{
  Ptr, Heap, is_file, null, load, determinate, set_next, set_child,
}

-- The first sibling from `p` on with this name, or NULL.
unfoldable pub find_child : ℕ → Heap → Str → Ptr → Outcome Ptr
find_child zero h name p = out_of_fuel
find_child (suc k) h name p =
    if p == null
    then ok null
    else do n ← load h p; if str_eq n.name name then ok p else find_child k h name n.next

-- The first sibling from `p` on that has this name and is a file, or NULL.
unfoldable pub find_file : ℕ → Heap → Str → Ptr → Outcome Ptr
find_file zero h name p = out_of_fuel
find_file (suc k) h name p = if p == null then ok null else do
  n ← load h p
  if str_eq n.name name && is_file n.type then ok p else find_file k h name n.next

-- Walk to the last sibling from `p` on and link `new` behind it.
unfoldable pub link_last : ℕ → Heap → Ptr → Ptr → Outcome Heap
link_last zero h p new = out_of_fuel
link_last (suc k) h p new = do
  n ← load h p
  if n.next == null then set_next h p new else link_last k h n.next new

-- Append `new` to the children of `dir`.
unfoldable pub append_child : ℕ → Heap → Ptr → Ptr → Outcome Heap
append_child k h dir new = do
  d ← load h dir
  if d.child == null then set_child h dir new else link_last k h d.child new

-- One piece of a path: the node that it leads to, or `none` if there is no such child.
unfoldable pub follow : ℕ → Heap → Ptr → Str → Outcome (Option Ptr)
follow k h p piece =
    if str_eq piece (codes "..")
    then (do n ← load h p; q ← determinate n.parent; ok (some q))
    else if str_eq piece (codes ".")
    then ok (some p)
    else do n ← load h p; q ← find_child k h piece n.child; ok (if q == null then none else some q)

-- The walk of `movefile` and `copyfile` to their source.
unfoldable pub find_source : ℕ → Heap → Ptr → List Str → Outcome (Option Ptr)
find_source k h p [] = ok (some p)
find_source k h p (piece ∷ rest) = do
  found ← follow k h p piece
  elim found [ none ↦ ok none | some q ↦ find_source k h q rest ]

-- Where `movefile` and `copyfile` put the node: `new_name` is `found2` when `flag2` is set, and
-- `invalid` is what `flag` becomes in the loop.
pub record Destination : Type 0 where
  pub dir : Ptr
  pub new_name : Option Str
  pub invalid : Bool

abbrev missing : Ptr → Str → List Str → Destination
missing p piece [] = record { dir = p; new_name = some piece; invalid = false }
missing p piece (_ ∷ _) = record { dir = p; new_name = none; invalid = true }

unfoldable pub find_destination : ℕ → Heap → Ptr → List Str → Outcome Destination
find_destination k h p [] = ok (record { dir = p; new_name = none; invalid = false })
find_destination k h p (piece ∷ rest) = do
  found ← follow k h p piece
  elim found [ none ↦ ok (missing p piece rest) | some q ↦ find_destination k h q rest ]

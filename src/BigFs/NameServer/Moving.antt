-- ===== src/BigFs/NameServer/Moving.antt =====
-- `movefile` of Assignment2P1/fileNameServer.c within one directory.
use network_programming_assi.Base.{
  ◌<◌, ◌≡◌, refl, ◌∙◌, sym, Str, List, [], ◌∷◌, ◌++◌, none, some, ok, Bool, true, false, ◌==◌,
  Bool-cases, inl, inr, length, has, codes, lt→ltb,
}
use mathlib.Core.Path.{subst}
use mathlib.Core.Option.{some-injective}
use network_programming_assi.BigFs.NameServer.Heap.{
  Ptr, null, Heap, Node, NodeType, directory, file, is_file, write, set_parent, set_name,
}
use network_programming_assi.BigFs.NameServer.Server.{Server, max_size, send_string}
use network_programming_assi.BigFs.NameServer.Transfer.{attach, move_file}
use network_programming_assi.BigFs.NameServer.Chain.{
  Cells, ptrs, Chain, IsDir, IsBelow, load-some, Chain-fuel, lt_of_some,
}
use network_programming_assi.BigFs.NameServer.Siblings.{
  named, ne_of_out, out_tail, Appended, append_child-Appended,
}
use network_programming_assi.BigFs.NameServer.Ready.{
  IsReady, fuel, receive-cons, write_self, above-not-has, IsDir-write,
}
use network_programming_assi.BigFs.NameServer.Files.{last-holds, IsDir-set_last, IsBelow-write}
use network_programming_assi.BigFs.NameServer.Unlink.{
  without_first, without_first-hit, without_first-miss,
}
use network_programming_assi.BigFs.NameServer.Removal.{find_cell, find_cell-hit, find_cell-miss}
use network_programming_assi.BigFs.NameServer.Detach.{Detached, detach-Detached, find_cell-holds}
use network_programming_assi.BigFs.NameServer.Paths.{
  IsSimple, find_source-found, find_destination-found, find_destination-missing,
}

is_file_lem : {t : NodeType} → t ≡ file → is_file t ≡ true
is_file_lem e = rw e

is_directory_lem : {t : NodeType} → t ≡ directory → is_file t ≡ false
is_directory_lem e = rw e

-- The other children when the first with this name has left.
abbrev pub others : Str → Cells → Cells
others name xs = without_first (named name) xs

-- An address outside the list is not that of a cell that was found in it.
find_cell-apart :
    (h : Heap) (test : Node → Bool) (a : Ptr) (xs : Cells) (p : Ptr) (n : Node)
    → has a (ptrs xs) ≡ false
    → find_cell test xs ≡ some (p, n)
    → (p == a) ≡ false
find_cell-apart h test a [] p n out found = absurd (unfold find_cell in cc)
find_cell-apart h test a ((q, m) ∷ xs) p n out found = elim (Bool-cases (test m)) [
  | inl e ↦
      let same : ◌≡◌ {A = Ptr × Node} (q, m) (p, n) =
        some-injective (q, m) (p, n) (sym (find_cell-hit test q m xs e) ∙ found) in
      subst (λ (c : Ptr × Node). (c.0 == a) ≡ false) same (ne_of_out q a (has a (ptrs xs)) out)
  | inr e ↦
      find_cell-apart h test a xs p n (out_tail (a == q) _ out)
        (sym (find_cell-miss test q m xs e) ∙ found)
]

-- A cell that was found is not among the others.
find_cell-others :
    (h : Heap) (test : Node → Bool) (xs : Cells) (p : Ptr) (n : Node)
    → Chain h xs
    → find_cell test xs ≡ some (p, n)
    → has p (ptrs (without_first test xs)) ≡ false
find_cell-others h test [] p n c found = absurd (unfold find_cell in cc)
find_cell-others h test ((q, m) ∷ xs) p n c found = elim (Bool-cases (test m)) [
  | inl e ↦
      let same : ◌≡◌ {A = Ptr × Node} (q, m) (p, n) =
        some-injective (q, m) (p, n) (sym (find_cell-hit test q m xs e) ∙ found) in
      rw (without_first-hit h q m q m xs test e)
        (subst (λ (c : Ptr × Node). has c.0 (ptrs xs) ≡ false) same c.2)
  | inr e ↦
      let found' = sym (find_cell-miss test q m xs e) ∙ found in
      rw (without_first-miss h q m q m xs test e, find_cell-apart h test q xs p n c.2 found')
        (find_cell-others h test xs p n c.3 found')
]

source-apart :
    {h : Heap} {dir : Ptr} {d : Node} (p : Ptr) (n : Node) (xs : Cells)
    → IsDir h dir d xs
    → find_cell (named n.name) xs ≡ some (p, n)
    → has p (dir ∷ ptrs (others n.name xs)) ≡ false
source-apart {h} {dir} p n xs is found =
    rw (find_cell-apart h (named n.name) dir xs p n is.apart found)
      (find_cell-others h (named n.name) xs p n is.chain found)

-- What `mv n.name v` leaves: the children `left`, and the answer.
pub record Moved (s : Server) (d : Node) (left : Cells) (answer : Str) (ws : List Str)
    : Type 0 where
  pub after : Server
  pub runs : move_file s ≡ ok after
  pub ready : IsReady after d left
  pub cur : after.cur ≡ s.cur
  pub input : after.input ≡ ws
  pub output : after.output ≡ s.output ++ (answer ++ 0 ∷ [])

module _ {s : Server} {d : Node} {xs : Cells} (p : Ptr) (n : Node) (v : Str) (ws : List Str)
    (ready : IsReady s d xs) (e : s.input ≡ n.name ∷ v ∷ ws) (name_short : length n.name < max_size)
    (short : length v < max_size) (name_simple : IsSimple n.name) (simple : IsSimple v)
    (found : find_cell (named n.name) xs ≡ some (p, n)) (under : n.parent ≡ some s.cur) where
  gone : Detached s.fresh s.heap s.cur d xs p n
  gone = detach-Detached s.fresh s.heap s.cur d xs p n ready.is_dir (fuel ready) under found

  abbrev asked : Server
  asked = record s { input = ws }

  below : IsBelow gone.heap s.fresh
  below a le = gone.same a (above-not-has a ready.below ready.is_dir le) ∙ ready.below a le

  few : length (others n.name xs) < s.fresh
  few = Chain-fuel (others n.name xs) ready.some_node below gone.is_dir.chain

  -- The command up to the point where the source has been taken out.
  move_file-attach : move_file s ≡ attach gone.heap p v asked
  unfolding move_file
  move_file-attach = rw (
    receive-cons max_size s n.name (v ∷ ws) e name_short,
    receive-cons max_size (record s { input = v ∷ ws }) v ws refl short,
    find_source-found s.fresh s.heap s.cur d xs n.name ready.is_dir (fuel ready) name_simple p n
        found,
    gone.runs,
  )

  attach-file :
      (q : Ptr) (m : Node)
      → find_cell (named v) (others n.name xs) ≡ some (q, m)
      → m.type ≡ file
      → attach gone.heap p v asked
        ≡ ok (send_string (codes "1") (record asked { heap = gone.heap }))
  unfolding attach
  attach-file q m target is_a_file =
      let there =
        find_cell-holds gone.heap (named v) (others n.name xs) q m gone.is_dir.chain target in
      rw (
        find_destination-found s.fresh gone.heap s.cur d (others n.name xs) v gone.is_dir few simple
            q m target,
        load-some gone.heap there.0 there.2,
        is_file_lem is_a_file,
      )

  -- In a ready state, let the client send `mv` with the name of a child, the first of that name and
  -- with the current directory as its parent, and a destination, both of one piece and short enough
  -- for the buffers. When the destination is the name of a file that stays in the directory, the
  -- command answers "1" for an invalid move, and yet the source is no longer among the children: it
  -- is lost.
  pub move_file-loses :
      (q : Ptr) (m : Node)
      → find_cell (named v) (others n.name xs) ≡ some (q, m)
      → m.type ≡ file
      → Moved s d (others n.name xs) (codes "1") ws
  move_file-loses q m target is_a_file = record {
    after = send_string (codes "1") (record asked { heap = gone.heap });
    runs = move_file-attach ∙ attach-file q m target is_a_file;
    ready = record { some_node = ready.some_node; below = below; is_dir = gone.is_dir };
    cur = refl;
    input = refl;
    output = refl;
  }

  -- The source with its new parent, in memory.
  abbrev moved : Node
  moved = record n { next = null; parent = some s.cur }

  abbrev renamed : Node
  renamed = record n { next = null; parent = some s.cur; name = v }

  apart : has p (s.cur ∷ ptrs (others n.name xs)) ≡ false
  apart = source-apart p n xs ready.is_dir found

  joined : Appended s.fresh (write gone.heap p moved) s.cur d (others n.name xs) p moved
  joined =
      append_child-Appended s.fresh (write gone.heap p moved) s.cur d (others n.name xs) p moved
        (IsDir-write p moved gone.is_dir apart) few gone.left.0 (write_self gone.heap p moved) apart

  set_parent_lem : set_parent gone.heap p s.cur ≡ ok (write gone.heap p moved)
  unfolding set_parent
  set_parent_lem = rw (load-some gone.heap gone.left.0 gone.left.1)

  set_name_lem : set_name joined.heap p v ≡ ok (write joined.heap p renamed)
  unfolding set_name
  set_name_lem =
      let at = last-holds joined.heap (others n.name xs) p moved joined.is_dir.chain in
      rw (load-some joined.heap at.0 at.1)

  attach-renames :
      find_cell (named v) (others n.name xs) ≡ none
      → d.type ≡ directory
      → length v < 256
      → attach gone.heap p v asked
        ≡ ok (send_string (codes "0") (record asked { heap = write joined.heap p renamed }))
  unfolding attach
  attach-renames target is_a_directory fit = rw (
    find_destination-missing s.fresh gone.heap s.cur d (others n.name xs) v gone.is_dir few simple
        target,
    load-some gone.heap gone.is_dir.present gone.is_dir.holds,
    is_directory_lem is_a_directory,
    set_parent_lem,
    joined.runs,
    lt→ltb (length v) 256 fit,
    set_name_lem,
  )

  joined-IsBelow : IsBelow (write joined.heap p renamed) s.fresh
  joined-IsBelow =
      let p_lt = lt_of_some below gone.left.1 in
      IsBelow-write renamed
        (λ a le.
          joined.same a (above-not-has a below gone.is_dir le)
          ∙ IsBelow-write moved below p_lt a le)
        p_lt

  -- In a ready state, let the client send `mv` with the name of a child, the first of that name and
  -- with the current directory as its parent, and a destination, both of one piece and short enough
  -- for the buffers. When the current node is a directory, no other child has the destination's
  -- name and that name fits a node, `mv` answers "0", and the source stands last among the
  -- children under that name, with its type, chunks, location and children as they were.
  pub move_file-renames :
      find_cell (named v) (others n.name xs) ≡ none
      → d.type ≡ directory
      → length v < 256
      → Moved s d (others n.name xs ++ (p, renamed) ∷ []) (codes "0") ws
  move_file-renames target is_a_directory fit = record {
    after = send_string (codes "0") (record asked { heap = write joined.heap p renamed });
    runs = move_file-attach ∙ attach-renames target is_a_directory fit;
    ready = record {
      some_node = ready.some_node;
      below = joined-IsBelow;
      is_dir = IsDir-set_last (others n.name xs) p moved renamed joined.is_dir;
    };
    cur = refl;
    input = refl;
    output = refl;
  }

-- ===== src/BigFs/NameServer/Removal.antt =====
-- `removefile` of Assignment2P1/fileNameServer.c.
use network_programming_assi.Base.{
  ℕ, zero, suc, ◌<◌, ◌≡◌, refl, ◌∙◌, sym, Str, ℤ, List, [], ◌∷◌, Option, none, some, ok, fault,
  Bool, true, false, ◌==◌, if◌then◌else◌, Bool-cases, inl, inr, length, has, arith, codes,
}
use network_programming_assi.Base.Decimal.{show}
use mathlib.Core.Path.{subst₂}
use network_programming_assi.BigFs.NameServer.Heap.{Ptr, null, Heap, Node, write, set_child}
use network_programming_assi.BigFs.NameServer.Server.{Server, max_size, send_string}
use network_programming_assi.BigFs.NameServer.Commands.{unlink_file, unlink_child, remove_file}
use network_programming_assi.BigFs.NameServer.Chain.{
  Cells, ptrs, head_ptr, with_next, with_child, Chain, IsDir, SameOutside, load-some, Chain-write,
}
use network_programming_assi.BigFs.NameServer.Siblings.{
  first, named, file_named, out_head, out_tail, ne_of_out,
}
use network_programming_assi.BigFs.NameServer.Ready.{
  IsReady, fuel, receive-cons, write_self, write_other, above-not-has,
}
use network_programming_assi.BigFs.NameServer.Files.{with_location}
use network_programming_assi.BigFs.NameServer.Retrieval.{
  send_location-found, send_location-null, found_reply,
}
use network_programming_assi.BigFs.NameServer.Unlink.{
  without_first, without_first-out, spliced, spliced-same, spliced-Chain, spliced-hit, spliced-miss,
  unlink_file-spliced, set_next_lem,
}

-- The first cell that passes the test.
unfoldable pub find_cell : (Node → Bool) → Cells → Option (Ptr × Node)
find_cell test [] = none
find_cell test ((p, n) ∷ xs) = if test n then some (p, n) else find_cell test xs

abbrev pub address : Option (Ptr × Node) → Ptr
address none = null
address (some (p, n)) = p

-- The node that `rm` takes: the first child if it has the name, whatever it is, and else the first
-- file with the name.
unfoldable pub victim : Str → Cells → Option (Ptr × Node)
victim name [] = none
victim name ((p, n) ∷ xs) = if named name n then some (p, n) else find_cell (file_named name) xs

-- The children that stay.
unfoldable pub kept : Str → Cells → Cells
kept name [] = []
kept name ((p, n) ∷ xs) = if named name n then xs else (p, n) ∷ without_first (file_named name) xs

pub find_cell-hit :
    (test : Node → Bool) (p : Ptr) (n : Node) (xs : Cells)
    → test n ≡ true
    → find_cell test ((p, n) ∷ xs) ≡ some (p, n)
unfolding find_cell
find_cell-hit test p n xs e = rw e

pub find_cell-miss :
    (test : Node → Bool) (p : Ptr) (n : Node) (xs : Cells)
    → test n ≡ false
    → find_cell test ((p, n) ∷ xs) ≡ find_cell test xs
unfolding find_cell
find_cell-miss test p n xs e = rw e

pub first-find_cell :
    (test : Node → Bool) (xs : Cells) → first test xs ≡ address (find_cell test xs)
unfolding first find_cell
first-find_cell test [] = refl
first-find_cell test ((p, n) ∷ xs) = elim (Bool-cases (test n)) [
  | inl e ↦ rw e
  | inr e ↦ rw e (first-find_cell test xs)
]

-- The node that was taken out is still in memory, and points nowhere.
abbrev pub Left : Heap → Option (Ptr × Node) → Type 0
Left h none = Unit
Left h (some (p, n)) = ((p == null) ≡ false) × (h p ≡ some (with_next n null))

pub spliced-Left :
    (h : Heap) (x : Ptr × Node) (xs : Cells) (test : Node → Bool)
    → Chain h (x ∷ xs)
    → Left (spliced h x xs test) (find_cell test xs)
spliced-Left h x [] test c = unfold find_cell in tt
spliced-Left h (q, m) ((p, n) ∷ xs) test c = elim (Bool-cases (test n)) [
  | inl e ↦
      subst₂ Left (sym (spliced-hit h q m p n xs test e)) (sym (find_cell-hit test p n xs e))
        (c.3.0, write_self (write h q (with_next m (head_ptr xs))) p (with_next n null))
  | inr e ↦
      subst₂ Left (sym (spliced-miss h q m p n xs test e)) (sym (find_cell-miss test p n xs e))
        (spliced-Left h (p, n) xs test c.3)
]

-- What `unlink_child` leaves.
pub record Unlinked (k : ℕ) (h : Heap) (dir : Ptr) (d : Node) (name : Str) (xs : Cells)
    : Type 0 where
  pub heap : Heap
  pub runs : unlink_child k h dir name ≡ ok (address (victim name xs), heap)
  pub is_dir : IsDir heap dir d (kept name xs)
  pub same : SameOutside (dir ∷ ptrs xs) h heap
  pub left : Left heap (victim name xs)

-- The first child leaves.
module _ (h : Heap) (dir : Ptr) (d : Node) (p : Ptr) (n : Node) (xs : Cells)
    (is : IsDir h dir d ((p, n) ∷ xs)) where
  abbrev pub after_child : Heap
  after_child = write h dir (with_child d (head_ptr xs))

  abbrev pub after_head : Heap
  after_head = write after_child p (with_next n null)

  pub set_child_lem : set_child h dir (head_ptr xs) ≡ ok after_child
  unfolding set_child
  set_child_lem = rw (load-some h is.present is.holds)

  pub ne : (p == dir) ≡ false
  ne = ne_of_out p dir (has dir (ptrs xs)) is.apart

  pub after_head-IsDir : IsDir after_head dir d xs
  after_head-IsDir = record {
    present = is.present;
    holds =
        write_other after_child p dir (with_next n null) (out_head (dir == p) _ is.apart)
        ∙ write_self h dir (with_child d (head_ptr xs));
    apart = out_tail (dir == p) _ is.apart;
    chain =
        Chain-write after_child xs p (with_next n null)
          (Chain-write h xs dir (with_child d (head_ptr xs)) is.chain.3
            (out_tail (dir == p) _ is.apart))
          is.chain.2;
  }

module _ (k : ℕ) (h : Heap) (dir : Ptr) (d : Node) (name : Str) (p : Ptr) (n : Node) (xs : Cells)
    (is : IsDir h dir d ((p, n) ∷ xs)) where
  kept-hit : named name n ≡ true → kept name ((p, n) ∷ xs) ≡ xs
  unfolding kept
  kept-hit e = rw e

  kept-miss :
      named name n ≡ false → kept name ((p, n) ∷ xs) ≡ (p, n) ∷ without_first (file_named name) xs
  unfolding kept
  kept-miss e = rw e

  victim-hit : named name n ≡ true → victim name ((p, n) ∷ xs) ≡ some (p, n)
  unfolding victim
  victim-hit e = rw e

  victim-miss : named name n ≡ false → victim name ((p, n) ∷ xs) ≡ find_cell (file_named name) xs
  unfolding victim
  victim-miss e = rw e

  unlink_head : named name n ≡ true → Unlinked k h dir d name ((p, n) ∷ xs)
  unfolding unlink_child
  unlink_head e = record {
    heap = after_head h dir d p n xs is;
    runs =
        let there =
          write_other h dir p (with_child d (head_ptr xs)) (ne h dir d p n xs is) ∙ is.chain.1 in
        rw (
          load-some h is.present is.holds,
          is.chain.0,
          load-some h is.chain.0 is.chain.1,
          e,
          victim-hit e,
          set_child_lem h dir d p n xs is,
          set_next_lem (after_child h dir d p n xs is) p null (with_next n (head_ptr xs)) is.chain.0
              there,
        );
    is_dir = rw (kept-hit e) (after_head-IsDir h dir d p n xs is);
    same = λ a o.
        write_other (after_child h dir d p n xs is) p a (with_next n null)
          (out_head (a == p) _ (out_tail (a == dir) _ o))
        ∙ write_other h dir a (with_child d (head_ptr xs)) (out_head (a == dir) _ o);
    left =
        rw (victim-hit e)
          (is.chain.0, write_self (after_child h dir d p n xs is) p (with_next n null));
  }

  -- The loop starts at the first child, which it passes by.
  unlink_later :
      named name n ≡ false
      → length xs < k
      → unlink_child (suc k) h dir name
        ≡ ok (first (file_named name) xs, spliced h (p, n) xs (file_named name))
  unfolding unlink_child unlink_file
  unlink_later e few =
      rw (load-some h is.present is.holds, is.chain.0, load-some h is.chain.0 is.chain.1, e)
        (unlink_file-spliced k h name (p, n) xs is.chain few)

  unlink_tail : named name n ≡ false → length xs < k → Unlinked (suc k) h dir d name ((p, n) ∷ xs)
  unlink_tail e few = record {
    heap = spliced h (p, n) xs (file_named name);
    runs = rw (victim-miss e, ← first-find_cell (file_named name) xs) (unlink_later e few);
    is_dir = rw (kept-miss e) (record {
      present = is.present;
      holds = spliced-same h (p, n) xs (file_named name) dir is.apart ∙ is.holds;
      apart =
          rw (out_head (dir == p) _ is.apart)
            (without_first-out (file_named name) dir xs (out_tail (dir == p) _ is.apart));
      chain = spliced-Chain h (p, n) xs (file_named name) is.chain;
    });
    same = λ a o. spliced-same h (p, n) xs (file_named name) a (out_tail (a == dir) _ o);
    left = rw (victim-miss e) (spliced-Left h (p, n) xs (file_named name) is.chain);
  }

unlink_child-Unlinked :
    (k : ℕ) (h : Heap) (dir : Ptr) (d : Node) (name : Str) (xs : Cells)
    → IsDir h dir d xs
    → length xs < k
    → Unlinked k h dir d name xs
unlink_child-Unlinked zero h dir d name xs is few = absurd (omega arith)
unlink_child-Unlinked (suc k) h dir d name [] is few =
    unfold unlink_child victim kept in
    record {
      heap = h;
      runs = rw (load-some h is.present is.holds);
      is_dir = is;
      same = λ a o. refl;
      left = tt;
    }
unlink_child-Unlinked (suc k) h dir d name ((p, n) ∷ xs) is few = elim (Bool-cases (named name n)) [
  | inl e ↦ unlink_head (suc k) h dir d name p n xs is e
  | inr e ↦ unlink_tail k h dir d name p n xs is e (omega arith)
]

-- In a ready state `rm` of a name that no file in the current directory has, and that the first
-- child has not either, dereferences NULL after it has answered "0".
pub remove_file-missing :
    {s : Server} {d : Node} {xs : Cells} (name : Str) (ws : List Str)
    → IsReady s d xs
    → s.input ≡ name ∷ ws
    → length name < max_size
    → victim name xs ≡ none
    → remove_file s ≡ fault
unfolding remove_file
remove_file-missing {s} {d} {xs} name ws ready e short nothing =
    let gone = unlink_child-Unlinked s.fresh s.heap s.cur d name xs ready.is_dir (fuel ready) in
    rw (receive-cons max_size s name ws e short, gone.runs, nothing, send_location-null)

-- What `rm name` leaves.
pub record Removed (s : Server) (d : Node) (xs : Cells) (name : Str) (location : Str) (c : ℤ)
    (ws : List Str) : Type 0 where
  pub after : Server
  pub runs : remove_file s ≡ ok after
  pub ready : IsReady after d (kept name xs)
  pub cur : after.cur ≡ s.cur
  pub input : after.input ≡ ws
  pub output : after.output ≡ (found_reply location c s).output
  pub same : SameOutside (s.cur ∷ ptrs xs) s.heap after.heap

-- In a ready state `rm` of a name that it finds on a node with a location and a number of chunks
-- takes exactly that node out of the children, keeps the others in their order, and answers "1",
-- the location and the number of chunks.
pub remove_file-Removed :
    {s : Server} {d : Node} {xs : Cells} (name : Str) (ws : List Str) (p : Ptr) (n : Node)
    (location : Str) (c : ℤ)
    → IsReady s d xs
    → s.input ≡ name ∷ ws
    → length name < max_size
    → victim name xs ≡ some (p, with_location n location)
    → n.no_of_chunks ≡ some c
    → length (show c) < 10
    → Removed s d xs name location c ws
unfolding remove_file
remove_file-Removed {s} {d} {xs} name ws p n location c ready e short found chunks few =
    let gone = unlink_child-Unlinked s.fresh s.heap s.cur d name xs ready.is_dir (fuel ready) in
    let left : Left gone.heap (some (p, with_location n location)) = rw found at gone.left in
    let open_state = record s { heap = gone.heap; input = ws } in
    record {
      after = found_reply location c open_state;
      runs = rw (
        receive-cons max_size s name ws e short,
        gone.runs,
        found,
        left.0,
        send_location-found (send_string (codes "1") open_state) p (with_next n null) location c
            (load-some gone.heap left.0 left.1) chunks few,
      );
      ready = record {
        some_node = ready.some_node;
        below =
            λ a le. gone.same a (above-not-has a ready.below ready.is_dir le) ∙ ready.below a le;
        is_dir = gone.is_dir;
      };
      cur = refl;
      input = refl;
      output = refl;
      same = gone.same;
    }

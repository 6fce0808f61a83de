-- ===== src/BigFs/NameServer/Siblings.antt =====
-- The loops over siblings against recursions on the list of cells.
use network_programming_assi.Base.{
  ℕ, zero, suc, ◌<◌, ◌≡◌, refl, ◌∙◌, Str, str_eq, some, [], ◌∷◌, ◌++◌, Bool, true, false, ◌||◌,
  ◌&&◌, arith, ◌==◌, if◌then◌else◌, length, has, Bool-cases, inl, inr, ok,
}
use network_programming_assi.BigFs.NameServer.Heap.{
  Ptr, null, Heap, Node, is_file, write, set_next, set_child,
}
use network_programming_assi.BigFs.NameServer.Walk.{find_child, find_file, link_last, append_child}
use network_programming_assi.BigFs.NameServer.Commands.{list_from}
use network_programming_assi.BigFs.NameServer.Chain.{
  Cells, ptrs, head_ptr, with_next, with_child, Chain, IsDir, SameOutside, load-some,
}

-- What `ls` shows.
unfoldable pub listing : Cells → Str
listing [] = []
listing ((p, n) ∷ xs) = n.name ++ (b'\n' ∷ listing xs)

-- The first cell that passes a test, or NULL.
unfoldable pub first : (Node → Bool) → Cells → Ptr
first test [] = null
first test ((p, n) ∷ xs) = if test n then p else first test xs

abbrev pub named : Str → Node → Bool
named name n = str_eq n.name name

abbrev pub file_named : Str → Node → Bool
file_named name n = str_eq n.name name && is_file n.type

module _ (h : Heap) where
  pub list_from-listing :
      (k : ℕ) (xs : Cells)
      → Chain h xs
      → length xs < k
      → list_from k h (head_ptr xs) ≡ ok (listing xs)
  unfolding list_from listing
  list_from-listing zero xs c fuel = absurd (omega arith)
  list_from-listing (suc k) [] c fuel = refl
  list_from-listing (suc k) ((p, n) ∷ xs) c fuel =
      rw (c.0, load-some h c.0 c.1, list_from-listing k xs c.3 (omega arith))

  pub find_child-first :
      (k : ℕ) (name : Str) (xs : Cells)
      → Chain h xs
      → length xs < k
      → find_child k h name (head_ptr xs) ≡ ok (first (named name) xs)
  unfolding find_child first
  find_child-first zero name xs c fuel = absurd (omega arith)
  find_child-first (suc k) name [] c fuel = refl
  find_child-first (suc k) name ((p, n) ∷ xs) c fuel =
      rw (c.0, load-some h c.0 c.1, find_child-first k name xs c.3 (omega arith))
        (elim (Bool-cases (str_eq n.name name)) [ inl e ↦ rw e | inr e ↦ rw e ])

  pub find_file-first :
      (k : ℕ) (name : Str) (xs : Cells)
      → Chain h xs
      → length xs < k
      → find_file k h name (head_ptr xs) ≡ ok (first (file_named name) xs)
  unfolding find_file first
  find_file-first zero name xs c fuel = absurd (omega arith)
  find_file-first (suc k) name [] c fuel = refl
  find_file-first (suc k) name ((p, n) ∷ xs) c fuel =
      rw (c.0, load-some h c.0 c.1, find_file-first k name xs c.3 (omega arith))
        (elim (Bool-cases (file_named name n)) [ inl e ↦ rw e | inr e ↦ rw e ])

-- The result of linking `new` behind the last of the cells.
abbrev linked : Heap → Ptr × Node → Cells → Ptr → Heap
linked h (p, n) [] new = write h p (with_next n new)
linked h (p, n) (x ∷ xs) new = linked h x xs new

link_last-linked :
    (k : ℕ) (h : Heap) (x : Ptr × Node) (xs : Cells) (new : Ptr)
    → Chain h (x ∷ xs)
    → length xs < k
    → link_last k h x.0 new ≡ ok (linked h x xs new)
unfolding link_last set_next
link_last-linked zero h x xs new c fuel = absurd (omega arith)
link_last-linked (suc k) h (p, n) [] new c fuel = rw (load-some h c.0 c.1)
link_last-linked (suc k) h (p, n) ((q, m) ∷ xs) new c fuel =
    rw (load-some h c.0 c.1, c.3.0, link_last-linked k h (q, m) xs new c.3 (omega arith))

linked-same :
    (h : Heap) (x : Ptr × Node) (xs : Cells) (new : Ptr)
    → SameOutside (ptrs (x ∷ xs)) h (linked h x xs new)
unfolding write
linked-same h (p, n) [] new a out = ground arith
linked-same h (p, n) ((q, m) ∷ xs) new a out = linked-same h (q, m) xs new a (ground arith)

pub ptrs-append :
    (a : Ptr) (xs : Cells) (new : Ptr) (m : Node)
    → has a (ptrs (xs ++ (new, m) ∷ [])) ≡ (has a (ptrs xs) || (a == new))
ptrs-append a [] new m = ground arith
ptrs-append a ((p, n) ∷ xs) new m = ground (arith, ptrs-append a xs new m)

pub ne_of_out : (p q : Ptr) (b : Bool) → ((q == p) || b) ≡ false → (p == q) ≡ false
ne_of_out p q b h = ground arith

pub out_head : (b c : Bool) → (b || c) ≡ false → b ≡ false
out_head true c h = cc
out_head false c h = refl

pub out_tail : (b c : Bool) → (b || c) ≡ false → c ≡ false
out_tail true c h = cc
out_tail false c h = h

linked-Chain :
    (h : Heap) (x : Ptr × Node) (xs : Cells) (new : Ptr) (m : Node)
    → Chain h (x ∷ xs)
    → (new == null) ≡ false
    → h new ≡ some (with_next m null)
    → has new (ptrs (x ∷ xs)) ≡ false
    → Chain (linked h x xs new) ((x ∷ xs) ++ (new, m) ∷ [])
unfolding write
linked-Chain h (p, n) [] new m c there holds out =
    (c.0, ground arith, ground arith, (there, ground arith, refl, tt))
linked-Chain h (p, n) ((q, l) ∷ xs) new m c there holds out = (
  c.0,
  linked-same h (q, l) xs new p c.2 ∙ c.1,
  rw (ptrs-append p ((q, l) ∷ xs) new m, c.2) (ne_of_out p new _ out),
  linked-Chain h (q, l) xs new m c.3 there holds (out_tail (new == p) _ out),
)

-- What `append_child` does: `new` comes last among the children of `dir`, and only the node of
-- `dir` and those of its children may change.
pub record Appended (k : ℕ) (h : Heap) (dir : Ptr) (d : Node) (xs : Cells) (new : Ptr) (m : Node)
    : Type 0 where
  pub heap : Heap
  pub runs : append_child k h dir new ≡ ok heap
  pub is_dir : IsDir heap dir d (xs ++ (new, m) ∷ [])
  pub same : SameOutside (dir ∷ ptrs xs) h heap

pub append_child-Appended :
    (k : ℕ) (h : Heap) (dir : Ptr) (d : Node) (xs : Cells) (new : Ptr) (m : Node)
    → IsDir h dir d xs
    → length xs < k
    → (new == null) ≡ false
    → h new ≡ some (with_next m null)
    → has new (dir ∷ ptrs xs) ≡ false
    → Appended k h dir d xs new m
unfolding append_child set_child write
append_child-Appended k h dir d [] new m is fuel there holds out = record {
  heap = write h dir (with_child d new);
  runs = rw (load-some h is.present is.holds);
  is_dir = record {
    present = is.present;
    holds = ground arith;
    apart = ground arith;
    chain = (there, ground arith, refl, tt);
  };
  same = λ a o. ground arith;
}
append_child-Appended k h dir d (x ∷ xs) new m is fuel there holds out = record {
  heap = linked h x xs new;
  runs =
      rw (load-some h is.present is.holds, is.chain.0)
        (link_last-linked k h x xs new is.chain (omega arith));
  is_dir = record {
    present = is.present;
    holds = linked-same h x xs new dir is.apart ∙ is.holds;
    apart = ground (arith, ptrs-append dir (x ∷ xs) new m, is.apart);
    chain = linked-Chain h x xs new m is.chain there holds (ground arith);
  };
  same = λ a o. linked-same h x xs new a (ground arith);
}

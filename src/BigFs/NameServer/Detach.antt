-- ===== src/BigFs/NameServer/Detach.antt =====
-- Lines 468 to 484 of Assignment2P1/fileNameServer.c: `movefile` takes its source out.
use network_programming_assi.Base.{
  ℕ, zero, suc, ◌<◌, ◌≡◌, ◌∙◌, sym, ap, [], ◌∷◌, Option, some, ok, Bool, false, ◌==◌, Bool-cases,
  inl, inr, length, arith, str_eq_refl,
}
use mathlib.Core.Path.{subst}
use mathlib.Core.Option.{some-injective}
use network_programming_assi.BigFs.NameServer.Heap.{Ptr, null, Heap, Node, determinate}
use network_programming_assi.BigFs.NameServer.Transfer.{unlink_name, detach}
use network_programming_assi.BigFs.NameServer.Chain.{
  Cells, ptrs, head_ptr, with_next, with_child, Chain, IsDir, SameOutside, load-some,
}
use network_programming_assi.BigFs.NameServer.Siblings.{named, out_head, out_tail}
use network_programming_assi.BigFs.NameServer.Ready.{write_self, write_other}
use network_programming_assi.BigFs.NameServer.Unlink.{
  without_first, without_first-hit, without_first-miss, without_first-out, spliced, spliced-same,
  spliced-Chain, unlink_name-spliced, set_next_lem,
}
use network_programming_assi.BigFs.NameServer.Removal.{
  find_cell, find_cell-hit, find_cell-miss, address, first-find_cell, Left, spliced-Left,
  after_child, after_head, after_head-IsDir, set_child_lem, ne,
}

-- A cell that was found is in memory.
pub find_cell-holds :
    (h : Heap) (test : Node → Bool) (xs : Cells) (p : Ptr) (n : Node)
    → Chain h xs
    → find_cell test xs ≡ some (p, n)
    → ((p == null) ≡ false) × (q : Ptr) × (h p ≡ some (with_next n q))
find_cell-holds h test [] p n c found = absurd (unfold find_cell in cc)
find_cell-holds h test ((q, m) ∷ xs) p n c found = elim (Bool-cases (test m)) [
  | inl e ↦
      let same : ◌≡◌ {A = Ptr × Node} (q, m) (p, n) =
        some-injective (q, m) (p, n) (sym (find_cell-hit test q m xs e) ∙ found) in
      subst
        (λ (c : Ptr × Node). ((c.0 == null) ≡ false) × (r : Ptr) × (h c.0 ≡ some (with_next c.1 r)))
        same (c.0, head_ptr xs, c.1)
  | inr e ↦ find_cell-holds h test xs p n c.3 (sym (find_cell-miss test q m xs e) ∙ found)
]

determinate_lem : {o : Option Ptr} {p : Ptr} → o ≡ some p → determinate o ≡ ok p
determinate_lem e = rw e

-- What `detach` leaves: the source is no longer among the children of its parent.
pub record Detached (k : ℕ) (h : Heap) (par : Ptr) (d : Node) (xs : Cells) (source : Ptr) (n : Node)
    : Type 0 where
  pub heap : Heap
  pub runs : detach k h source ≡ ok heap
  pub is_dir : IsDir heap par d (without_first (named n.name) xs)
  pub same : SameOutside (par ∷ ptrs xs) h heap
  pub left : Left heap (some (source, n))

module _ (k : ℕ) (h : Heap) (par : Ptr) (d : Node) (p : Ptr) (m : Node) (xs : Cells)
    (is : IsDir h par d ((p, m) ∷ xs)) where
  -- The source is the first child.
  detach_head : m.parent ≡ some par → Detached k h par d ((p, m) ∷ xs) p m
  unfolding detach
  detach_head under = record {
    heap = after_head h par d p m xs is;
    runs =
        let next_lem =
          set_next_lem (after_child h par d p m xs is) p null (with_next m (head_ptr xs)) is.chain.0
            (write_other h par p (with_child d (head_ptr xs)) (ne h par d p m xs is)
              ∙ is.chain.1) in
        rw (
          load-some h is.chain.0 is.chain.1,
          determinate_lem under,
          load-some h is.present is.holds,
          load-some h is.chain.0 is.chain.1,
          str_eq_refl m.name,
          set_child_lem h par d p m xs is,
          next_lem,
        );
    is_dir =
        rw (without_first-hit h p m p m xs (named m.name) (str_eq_refl m.name))
          (after_head-IsDir h par d p m xs is);
    same = λ a o.
        write_other _ p a (with_next m null) (out_head (a == p) _ (out_tail (a == par) _ o))
        ∙ write_other h par a (with_child d (head_ptr xs)) (out_head (a == par) _ o);
    left = (is.chain.0, write_self _ p (with_next m null));
  }

  -- The source comes later.
  detach_tail :
      (source : Ptr) (n : Node)
      → length xs < k
      → n.parent ≡ some par
      → named n.name m ≡ false
      → find_cell (named n.name) xs ≡ some (source, n)
      → Detached (suc k) h par d ((p, m) ∷ xs) source n
  unfolding detach unlink_name
  detach_tail source n few under e found = record {
    heap = spliced h (p, m) xs (named n.name);
    runs =
        let there = find_cell-holds h (named n.name) xs source n is.chain.3 found in
        rw
          (
            load-some h there.0 there.2,
            determinate_lem under,
            load-some h is.present is.holds,
            load-some h is.chain.0 is.chain.1,
            e,
            is.chain.0,
          )
          (unlink_name-spliced k h n.name source (p, m) xs is.chain few
            (first-find_cell (named n.name) xs ∙ ap address found));
    is_dir = rw (without_first-miss h p m p m xs (named n.name) e) (record {
      present = is.present;
      holds = spliced-same h (p, m) xs (named n.name) par is.apart ∙ is.holds;
      apart =
          rw (out_head (par == p) _ is.apart)
            (without_first-out (named n.name) par xs (out_tail (par == p) _ is.apart));
      chain = spliced-Chain h (p, m) xs (named n.name) is.chain;
    });
    same = λ a o. spliced-same h (p, m) xs (named n.name) a (out_tail (a == par) _ o);
    left = rw found at (spliced-Left h (p, m) xs (named n.name) is.chain);
  }

-- A node among the children of its parent, the first with its name, is taken out of them.
pub detach-Detached :
    (k : ℕ) (h : Heap) (par : Ptr) (d : Node) (xs : Cells) (source : Ptr) (n : Node)
    → IsDir h par d xs
    → length xs < k
    → n.parent ≡ some par
    → find_cell (named n.name) xs ≡ some (source, n)
    → Detached k h par d xs source n
detach-Detached zero h par d xs source n is few under found = absurd (omega arith)
detach-Detached (suc k) h par d [] source n is few under found = absurd (unfold find_cell in cc)
detach-Detached (suc k) h par d ((p, m) ∷ xs) source n is few under found =
    elim (Bool-cases (named n.name m)) [
      | inl e ↦
          let same : ◌≡◌ {A = Ptr × Node} (source, n) (p, m) =
            some-injective (source, n) (p, m) (sym found ∙ find_cell-hit (named n.name) p m xs e) in
          subst (λ (c : Ptr × Node). Detached (suc k) h par d ((p, m) ∷ xs) c.0 c.1) (sym same)
            (detach_head (suc k) h par d p m xs is
              (subst (λ (c : Ptr × Node). c.1.parent ≡ some par) same under))
      | inr e ↦
          detach_tail k h par d p m xs is source n (omega arith) under e
            (sym (find_cell-miss (named n.name) p m xs e) ∙ found)
    ]

-- ===== src/BigFs/NameServer/Unlink.antt =====
-- The loops of `removefile` and `movefile` that take a node out of a list of siblings.
use network_programming_assi.Base.{
  ℕ, zero, suc, ◌<◌, ◌≡◌, refl, ◌∙◌, sym, Str, [], ◌∷◌, some, ok, Bool, true, false, ◌==◌,
  if◌then◌else◌, Bool-cases, inl, inr, length, has, arith,
}
use mathlib.Core.Path.{subst₂}
use network_programming_assi.BigFs.NameServer.Heap.{Ptr, null, Heap, Node, write, set_next}
use network_programming_assi.BigFs.NameServer.Commands.{unlink_file}
use network_programming_assi.BigFs.NameServer.Transfer.{unlink_name}
use network_programming_assi.BigFs.NameServer.Chain.{
  Cells, ptrs, head_ptr, with_next, Chain, SameOutside, load-some, Chain-write,
}
use network_programming_assi.BigFs.NameServer.Siblings.{
  first, named, file_named, out_head, out_tail, ne_of_out,
}
use network_programming_assi.BigFs.NameServer.Ready.{write_self, write_other}

-- The cells without the first that passes the test.
unfoldable pub without_first : (Node → Bool) → Cells → Cells
without_first test [] = []
without_first test ((p, n) ∷ xs) = if test n then xs else (p, n) ∷ without_first test xs

-- The heap when the first node behind `x` that passes the test has left the list.
unfoldable pub spliced : Heap → Ptr × Node → Cells → (Node → Bool) → Heap
spliced h x [] test = h
spliced h (q, m) ((p, n) ∷ xs) test =
    if test n
    then write (write h q (with_next m (head_ptr xs))) p (with_next n null)
    else spliced h (p, n) xs test

pub set_next_lem :
    (h : Heap) (p q : Ptr) (n : Node)
    → (p == null) ≡ false
    → h p ≡ some n
    → set_next h p q ≡ ok (write h p (with_next n q))
unfolding set_next
set_next_lem h p q n e f = rw (load-some h e f)

-- The two writes that take `p` out behind `q`.
splice :
    (h : Heap) (q : Ptr) (m : Node) (p : Ptr) (n : Node) (xs : Cells)
    → Chain h ((q, m) ∷ (p, n) ∷ xs)
    → let g = write h q (with_next m (head_ptr xs)) in
      (set_next h q (head_ptr xs) ≡ ok g) × (set_next g p null ≡ ok (write g p (with_next n null)))
splice h q m p n xs c =
    let there = write_other h q p (with_next m (head_ptr xs)) (ne_of_out p q _ c.2) ∙ c.3.1 in
    (
      set_next_lem h q (head_ptr xs) (with_next m p) c.0 c.1,
      set_next_lem _ p null (with_next n (head_ptr xs)) c.3.0 there,
    )

pub unlink_file-spliced :
    (k : ℕ) (h : Heap) (name : Str) (x : Ptr × Node) (xs : Cells)
    → Chain h (x ∷ xs)
    → length xs < k
    → unlink_file k h name x.0 (head_ptr xs)
      ≡ ok (first (file_named name) xs, spliced h x xs (file_named name))
unfolding unlink_file first spliced
unlink_file-spliced zero h name x xs c few = absurd (omega arith)
unlink_file-spliced (suc k) h name x [] c few = refl
unlink_file-spliced (suc k) h name (q, m) ((p, n) ∷ xs) c few =
    rw (c.3.0, load-some h c.3.0 c.3.1)
      (elim (Bool-cases (file_named name n)) [
        | inl e ↦ rw (e, (splice h q m p n xs c).0, (splice h q m p n xs c).1)
        | inr e ↦ rw e (unlink_file-spliced k h name (p, n) xs c.3 (omega arith))
      ])

-- The loop of `movefile` looks for the name alone; here the source is the first that has it.
pub unlink_name-spliced :
    (k : ℕ) (h : Heap) (name : Str) (source : Ptr) (x : Ptr × Node) (xs : Cells)
    → Chain h (x ∷ xs)
    → length xs < k
    → first (named name) xs ≡ source
    → unlink_name k h name source x.0 (head_ptr xs) ≡ ok (spliced h x xs (named name))
unfolding unlink_name first spliced
unlink_name-spliced zero h name source x xs c few e = absurd (omega arith)
unlink_name-spliced (suc k) h name source x [] c few e = refl
unlink_name-spliced (suc k) h name source (q, m) ((p, n) ∷ xs) c few hit =
    rw (c.3.0, load-some h c.3.0 c.3.1)
      (elim (Bool-cases (named name n)) [
        | inl e ↦
            let is : p ≡ source = rw e at hit in
            rw (
              e,
              ← is,
              load-some h c.3.0 c.3.1,
              (splice h q m p n xs c).0,
              (splice h q m p n xs c).1,
            )
        | inr e ↦
            rw e (unlink_name-spliced k h name source (p, n) xs c.3 (omega arith) (rw e at hit))
      ])

-- Taking a cell out keeps the addresses apart.
pub without_first-out :
    (test : Node → Bool) (a : Ptr) (xs : Cells)
    → has a (ptrs xs) ≡ false
    → has a (ptrs (without_first test xs)) ≡ false
unfolding without_first
without_first-out test a [] out = refl
without_first-out test a ((p, n) ∷ xs) out = elim (Bool-cases (test n)) [
  | inl e ↦ rw e (out_tail (a == p) _ out)
  | inr e ↦ rw (e, out_head (a == p) _ out) (without_first-out test a xs (out_tail (a == p) _ out))
]

pub spliced-same :
    (h : Heap) (x : Ptr × Node) (xs : Cells) (test : Node → Bool)
    → SameOutside (ptrs (x ∷ xs)) h (spliced h x xs test)
unfolding spliced
spliced-same h x [] test a out = refl
spliced-same h (q, m) ((p, n) ∷ xs) test a out = elim (Bool-cases (test n)) [
  | inl e ↦ rw e (
      write_other _ p a _ (out_head (a == p) _ (out_tail (a == q) _ out))
      ∙ write_other h q a _ (out_head (a == q) _ out))
  | inr e ↦ rw e (spliced-same h (p, n) xs test a (out_tail (a == q) _ out))
]

module _ (h : Heap) (q : Ptr) (m : Node) (p : Ptr) (n : Node) (xs : Cells)
    (test : Node → Bool) where
  pub spliced-hit :
      test n ≡ true
      → spliced h (q, m) ((p, n) ∷ xs) test
        ≡ write (write h q (with_next m (head_ptr xs))) p (with_next n null)
  unfolding spliced
  spliced-hit e = rw e

  pub spliced-miss : test n ≡ false → spliced h (q, m) ((p, n) ∷ xs) test ≡ spliced h (p, n) xs test
  unfolding spliced
  spliced-miss e = rw e

  pub without_first-hit : test n ≡ true → without_first test ((p, n) ∷ xs) ≡ xs
  unfolding without_first
  without_first-hit e = rw e

  pub without_first-miss :
      test n ≡ false → without_first test ((p, n) ∷ xs) ≡ (p, n) ∷ without_first test xs
  unfolding without_first
  without_first-miss e = rw e

-- What is left is the list without that node.
pub spliced-Chain :
    (h : Heap) (x : Ptr × Node) (xs : Cells) (test : Node → Bool)
    → Chain h (x ∷ xs)
    → Chain (spliced h x xs test) (x ∷ without_first test xs)
spliced-Chain h x [] test c = unfold spliced without_first in c
spliced-Chain h (q, m) ((p, n) ∷ xs) test c = elim (Bool-cases (test n)) [
  | inl e ↦
      let g = write h q (with_next m (head_ptr xs)) in
      subst₂ (λ h' ys. Chain h' ((q, m) ∷ ys)) (sym (spliced-hit h q m p n xs test e))
        (sym (without_first-hit h q m p n xs test e))
        (
          c.0,
          write_other g p q (with_next n null) (out_head (q == p) _ c.2)
              ∙ write_self h q (with_next m (head_ptr xs)),
          out_tail (q == p) _ c.2,
          Chain-write g xs p (with_next n null)
              (Chain-write h xs q (with_next m (head_ptr xs)) c.3.3 (out_tail (q == p) _ c.2))
              c.3.2,
        )
  | inr e ↦
      subst₂ (λ h' ys. Chain h' ((q, m) ∷ ys)) (sym (spliced-miss h q m p n xs test e))
        (sym (without_first-miss h q m p n xs test e))
        (
          c.0,
          spliced-same h (p, n) xs test q c.2 ∙ c.1,
          rw (out_head (q == p) _ c.2) (without_first-out test q xs (out_tail (q == p) _ c.2)),
          spliced-Chain h (p, n) xs test c.3,
        )
]

-- ===== src/BigFs/NameServer/Chain.antt =====
-- The list of the children of a directory, as it lies in memory.
use network_programming_assi.Base.{
  ℕ, ◌≤◌, ◌<◌, ◌≡◌, refl, none, some, List, [], ◌∷◌, true, false, arith, ◌==◌, length, has,
  Distinct, All, Distinct-length-le, Bool-cases, inl, inr, ok,
}
use network_programming_assi.BigFs.NameServer.Heap.{Ptr, null, Heap, Node, write, load}

-- Addresses and nodes of siblings in order. The field `next` of a node in this list says nothing.
abbrev pub Cells : Type 0
Cells = List (Ptr × Node)

abbrev pub ptrs : Cells → List Ptr
ptrs [] = []
ptrs ((p, n) ∷ xs) = p ∷ ptrs xs

abbrev pub head_ptr : Cells → Ptr
head_ptr [] = null
head_ptr ((p, n) ∷ xs) = p

abbrev pub with_next : Node → Ptr → Node
with_next n q = record n { next = q }

-- The cells are distinct nodes of the heap, each of which points at the next one.
abbrev pub Chain : Heap → Cells → Type 0
Chain h [] = Unit
Chain h ((p, n) ∷ xs) =
    ((p == null) ≡ false)
    × (h p ≡ some (with_next n (head_ptr xs)))
    × (has p (ptrs xs) ≡ false)
    × Chain h xs

abbrev pub with_child : Node → Ptr → Node
with_child n q = record n { child = q }

-- `dir` is a node whose children are `xs`. The field `child` of `d` says nothing.
pub record IsDir (h : Heap) (dir : Ptr) (d : Node) (xs : Cells) : Type 0 where
  pub present : (dir == null) ≡ false
  pub holds : h dir ≡ some (with_child d (head_ptr xs))
  pub apart : has dir (ptrs xs) ≡ false
  pub chain : Chain h xs

-- Only addresses that `malloc` has returned hold nodes.
abbrev pub IsBelow : Heap → ℕ → Type 0
IsBelow h fresh = (a : Ptr) → fresh ≤ a → h a ≡ none

-- `g` differs from `h` at most at the addresses of `ps`.
abbrev pub SameOutside : List Ptr → Heap → Heap → Type 0
SameOutside ps h g = (a : Ptr) → has a ps ≡ false → g a ≡ h a

pub load-some :
    (h : Heap) {p : Ptr} {n : Node} → (p == null) ≡ false → h p ≡ some n → load h p ≡ ok n
unfolding load
load-some h e f = rw (e, f)

pub lt_of_some : {h : Heap} {fresh p : ℕ} {n : Node} → IsBelow h fresh → h p ≡ some n → p < fresh
lt_of_some {fresh} {p} below e = grind (arith, below p)

pub Chain-frame :
    {h g : Heap} (xs : Cells)
    → Chain h xs
    → ((a : Ptr) → has a (ptrs xs) ≡ true → g a ≡ h a)
    → Chain g xs
Chain-frame [] c same = tt
Chain-frame ((p, n) ∷ xs) c same =
    (c.0, ground (arith, same p), c.2, Chain-frame xs c.3 (λ a i. same a (ground arith)))

-- A write to an address outside leaves the chain.
pub Chain-write :
    (h : Heap) (xs : Cells) (q : Ptr) (m : Node)
    → Chain h xs
    → has q (ptrs xs) ≡ false
    → Chain (write h q m) xs
unfolding write
Chain-write h xs q m c out =
    Chain-frame xs c λ a i. elim (Bool-cases (a == q)) [ inl e ↦ ground arith | inr e ↦ rw e ]

Chain-Distinct : (h : Heap) (xs : Cells) → Chain h xs → Distinct (ptrs xs)
Chain-Distinct h [] c = tt
Chain-Distinct h ((p, n) ∷ xs) c = (c.2, Chain-Distinct h xs c.3)

Chain-lt :
    {h : Heap} {fresh : ℕ} (xs : Cells)
    → IsBelow h fresh
    → Chain h xs
    → All (λ p. p < fresh) (ptrs xs)
Chain-lt [] below c = tt
Chain-lt ((p, n) ∷ xs) below c = (lt_of_some below c.1, Chain-lt xs below c.3)

Chain-null : (h : Heap) (xs : Cells) → Chain h xs → has null (ptrs xs) ≡ false
Chain-null h [] c = refl
Chain-null h ((p, n) ∷ xs) c = ground (arith, Chain-null h xs c.3)

length-ptrs : (xs : Cells) → length (ptrs xs) ≡ length xs
length-ptrs [] = refl
length-ptrs (x ∷ xs) = omega (arith, length-ptrs xs)

-- As fuel the number of allocations is enough for a walk over any list of siblings.
pub Chain-fuel :
    {h : Heap} {fresh : ℕ} (xs : Cells)
    → 0 < fresh
    → IsBelow h fresh
    → Chain h xs
    → length xs < fresh
Chain-fuel {h} {fresh} xs some_node below c = omega (
  arith,
  length-ptrs xs,
  Distinct-length-le fresh (null ∷ ptrs xs) (Chain-null h xs c, Chain-Distinct h xs c)
      (some_node, Chain-lt xs below c),
)

pub fresh-not-has :
    {h : Heap} {fresh : ℕ} (xs : Cells) → IsBelow h fresh → Chain h xs → has fresh (ptrs xs) ≡ false
fresh-not-has [] below c = refl
fresh-not-has {fresh} ((p, n) ∷ xs) below c =
    ground (arith, lt_of_some {p = p} below c.1, fresh-not-has {fresh = fresh} xs below c.3)

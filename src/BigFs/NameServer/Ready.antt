-- ===== src/BigFs/NameServer/Ready.antt =====
-- The states in which the current directory of the name server is a well-formed list of children.
use network_programming_assi.Base.{
  ℕ, ◌+◌, ◌<◌, ◌≡◌, ◌∙◌, ◌≤◌, Str, some, List, [], ◌∷◌, ◌++◌, false, ok, ◌==◌, lt→ltb, length, has,
  arith,
}
use network_programming_assi.BigFs.NameServer.Heap.{Ptr, null, Heap, Node, write, load}
use network_programming_assi.BigFs.NameServer.Server.{Server, receive}
use network_programming_assi.BigFs.NameServer.Walk.{append_child}
use network_programming_assi.BigFs.NameServer.Chain.{
  Cells, ptrs, head_ptr, with_child, with_next, IsDir, IsBelow, SameOutside, load-some, Chain-write,
  Chain-fuel, lt_of_some, fresh-not-has,
}
use network_programming_assi.BigFs.NameServer.Siblings.{
  Appended, append_child-Appended, out_head, out_tail,
}

-- The current directory is the node `d` with the children `xs`.
pub record IsReady (s : Server) (d : Node) (xs : Cells) : Type 0 where
  pub some_node : 0 < s.fresh
  pub below : IsBelow s.heap s.fresh
  pub is_dir : IsDir s.heap s.cur d xs

module _ {s : Server} {d : Node} {xs : Cells} (ready : IsReady s d xs) where
  pub load-cur : load s.heap s.cur ≡ ok (with_child d (head_ptr xs))
  load-cur = load-some s.heap ready.is_dir.present ready.is_dir.holds

  pub fuel : length xs < s.fresh
  fuel = Chain-fuel xs ready.some_node ready.below ready.is_dir.chain

pub receive-cons :
    (cap : ℕ) (s : Server) (w : Str) (ws : List Str)
    → s.input ≡ w ∷ ws
    → length w < cap
    → receive cap s ≡ ok (w, record s { input = ws })
unfolding receive
receive-cons cap s w ws e h = rw (e, lt→ltb _ _ h)

pub write_self : (h : Heap) (p : Ptr) (n : Node) → write h p n p ≡ some n
unfolding write
write_self h p n = ground arith

pub write_other : (h : Heap) (p a : Ptr) (n : Node) → (a == p) ≡ false → write h p n a ≡ h a
unfolding write
write_other h p a n e = rw e

-- What `malloc` and then `append_child` do in a ready state, with the heap that results.
pub record Grown (s : Server) (d : Node) (xs : Cells) (m : Node) : Type 0 where
  pub heap : Heap
  pub runs :
      append_child (s.fresh + 1) (write s.heap s.fresh (with_next m null)) s.cur s.fresh ≡ ok heap
  pub is_dir : IsDir heap s.cur d (xs ++ (s.fresh, m) ∷ [])
  pub same : SameOutside (s.fresh ∷ s.cur ∷ ptrs xs) s.heap heap
  pub below : IsBelow heap (s.fresh + 1)
  pub holds : has s.fresh (s.cur ∷ ptrs xs) ≡ false

pub IsDir-write :
    {h : Heap} {dir : Ptr} {d : Node} {xs : Cells} (q : Ptr) (m : Node)
    → IsDir h dir d xs
    → has q (dir ∷ ptrs xs) ≡ false
    → IsDir (write h q m) dir d xs
unfolding write
IsDir-write {h} {dir} {xs} q m is out = record {
  present = is.present;
  holds = ground (arith, is.holds);
  apart = is.apart;
  chain = unfold write in Chain-write h xs q m is.chain (ground arith);
}

-- An address that was not allocated is neither the directory nor one of its children.
pub above-not-has :
    {h : Heap} {fresh dir : ℕ} {d : Node} {xs : Cells} (a : ℕ)
    → IsBelow h fresh
    → IsDir h dir d xs
    → fresh ≤ a
    → has a (dir ∷ ptrs xs) ≡ false
above-not-has {h} {fresh} {dir} {xs} a below is le =
    let dir_lt : dir < fresh = lt_of_some below is.holds in
    let ne : (a == dir) ≡ false = ground arith in
    rw ne (fresh-not-has xs (λ b g. below b (omega arith)) is.chain)

pub ready-Grown : {s : Server} {d : Node} {xs : Cells} (m : Node) → IsReady s d xs → Grown s d xs m
ready-Grown {s} {d} {xs} m ready = record {
  heap = grown.heap;
  runs = grown.runs;
  is_dir = grown.is_dir;
  same = same;
  below = λ a le. same a (out a (omega arith) le) ∙ ready.below a (omega arith);
  holds = new;
}
  where
    open ready use {is_dir, below}

    new : has s.fresh (s.cur ∷ ptrs xs) ≡ false
    new = above-not-has s.fresh below is_dir (omega arith)

    grown : Appended (s.fresh + 1) (write s.heap s.fresh (with_next m null)) s.cur d xs s.fresh m
    grown =
        append_child-Appended (s.fresh + 1) _ s.cur d xs s.fresh m
          (IsDir-write s.fresh (with_next m null) is_dir new) (omega (arith, fuel ready))
          (ground (arith, ready.some_node)) (write_self s.heap s.fresh (with_next m null)) new

    same : SameOutside (s.fresh ∷ s.cur ∷ ptrs xs) s.heap grown.heap
    same a o =
        grown.same a (out_tail (a == s.fresh) _ o)
        ∙ write_other s.heap s.fresh a (with_next m null) (out_head _ _ o)

    out : (a : ℕ) → s.fresh < a → s.fresh + 1 ≤ a → has a (s.fresh ∷ s.cur ∷ ptrs xs) ≡ false
    out a lt le =
        let ne : (a == s.fresh) ≡ false = ground arith in
        rw ne (above-not-has a below is_dir (omega arith))

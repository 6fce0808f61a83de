-- ===== src/Cluster/Nodes.antt =====
-- `findnode` of Assignment1P2/clustershell_client.c: which nodes a command is for.
use network_programming_assi.Base.{
  ℕ, zero, suc, ◌+◌, ◌≡◌, refl, ap, ◌∙◌, false, some, List, [], ◌∷◌, ◌++◌, Str, codes, str_eq,
  str_eq_refl, before, before-append, Without, ◌==◌, if◌then◌else◌, get_elem?, arith,
}
use network_programming_assi.Cluster.Config.{Node}

-- The results -1, an index, and -2.
pub data Target : Type 0 where
  every : Target
  at : ℕ → Target
  here : Target

-- The loop over the list from the index `i` on.
unfoldable pub find_from : Str → ℕ → List Node → Target
find_from tmp i [] = here
find_from tmp i (x ∷ xs) =
    let rest = find_from tmp (suc i) xs in if str_eq tmp x.name then at i else rest

unfoldable pub findnode : Str → List Node → Target
findnode message list =
    let tmp = before b'.' message in
    let found = find_from tmp 0 list in if str_eq tmp (codes "n*") then every else found

-- What stands after the first `.`. Without one the pointer goes past the NUL, where the buffer that
-- the prompt wrote has zero bytes.
unfoldable pub command_of : Str → Str
command_of [] = []
command_of (c ∷ s) = let rest = command_of s in if c == b'.' then s else rest

-- The name stands in no node before the index.
abbrev pub IsFirst : Str → ℕ → List Node → Type 0
IsFirst name i [] = Unit
IsFirst name zero (x ∷ xs) = Unit
IsFirst name (suc i) (x ∷ xs) = (str_eq name x.name ≡ false) × IsFirst name i xs

find_from_at :
    (name : Str) (k i : ℕ) (list : List Node) (x : Node)
    → get_elem? list i ≡ some x
    → x.name ≡ name
    → IsFirst name i list
    → find_from name k list ≡ at (k + i)
unfolding find_from
find_from_at name k i [] x e same first = absurd (ground arith)
find_from_at name k zero (y ∷ ys) x e same first =
    let q : y ≡ x = cc in
    let named : y.name ≡ name = ap (λ z. z.name) q ∙ same in
    rw (named, str_eq_refl name) (ap at (omega arith))
find_from_at name k (suc i) (y ∷ ys) x e same first =
    rw first.0 (find_from_at name (suc k) i ys x e same first.1 ∙ ap at (omega arith))

command_of-append : (name cmd : Str) → Without b'.' name → command_of (name ++ b'.' ∷ cmd) ≡ cmd
unfolding command_of
command_of-append [] cmd free = refl
command_of-append (c ∷ name) cmd free = rw free.0 (command_of-append name cmd free.1)

-- A line that is the name of a node, a dot and a command is for the first node of that name.
pub findnode-name :
    (name cmd : Str) (i : ℕ) (list : List Node) (x : Node)
    → Without b'.' name
    → str_eq name (codes "n*") ≡ false
    → get_elem? list i ≡ some x
    → x.name ≡ name
    → IsFirst name i list
    → (findnode (name ++ b'.' ∷ cmd) list ≡ at i) × (command_of (name ++ b'.' ∷ cmd) ≡ cmd)
unfolding findnode
findnode-name name cmd i list x free one e same first = (
  rw (before-append b'.' name cmd free, one)
      (find_from_at name 0 i list x e same first ∙ ap at (omega arith)),
  command_of-append name cmd free,
)

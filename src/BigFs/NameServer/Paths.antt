-- ===== src/BigFs/NameServer/Paths.antt =====
-- Paths of one piece, as `movefile` and `copyfile` of Assignment2P1/fileNameServer.c follow them.
use network_programming_assi.Base.{
  ℕ, ◌<◌, ◌≡◌, Str, [], ◌∷◌, none, some, ok, false, length, str_eq, codes, split_on,
}
use network_programming_assi.BigFs.NameServer.Heap.{Ptr, Heap, Node}
use network_programming_assi.BigFs.NameServer.Walk.{follow, find_source, find_destination}
use network_programming_assi.BigFs.NameServer.Chain.{Cells, IsDir, load-some}
use network_programming_assi.BigFs.NameServer.Siblings.{named, find_child-first}
use network_programming_assi.BigFs.NameServer.Removal.{find_cell, first-find_cell}
use network_programming_assi.BigFs.NameServer.Detach.{find_cell-holds}

-- A path of one piece, which is neither `..` nor `.`.
pub record IsSimple (w : Str) : Type 0 where
  pub one : split_on b'/' w ≡ w ∷ []
  pub not_up : str_eq w (codes "..") ≡ false
  pub not_here : str_eq w (codes ".") ≡ false

module _ (k : ℕ) (h : Heap) (dir : Ptr) (d : Node) (xs : Cells) (w : Str) (is : IsDir h dir d xs)
    (few : length xs < k) (simple : IsSimple w) where
  pub follow-found :
      (p : Ptr) (n : Node) → find_cell (named w) xs ≡ some (p, n) → follow k h dir w ≡ ok (some p)
  unfolding follow
  follow-found p n found = rw (
    simple.not_up,
    simple.not_here,
    load-some h is.present is.holds,
    find_child-first h k w xs is.chain few,
    first-find_cell (named w) xs,
    found,
    (find_cell-holds h (named w) xs p n is.chain found).0,
  )

  pub follow-missing : find_cell (named w) xs ≡ none → follow k h dir w ≡ ok none
  unfolding follow
  follow-missing missing = rw (
    simple.not_up,
    simple.not_here,
    load-some h is.present is.holds,
    find_child-first h k w xs is.chain few,
    first-find_cell (named w) xs,
    missing,
  )

  pub find_source-found :
      (p : Ptr) (n : Node)
      → find_cell (named w) xs ≡ some (p, n)
      → find_source k h dir (split_on b'/' w) ≡ ok (some p)
  unfolding find_source
  find_source-found p n found = rw (simple.one, follow-found p n found)

  pub find_destination-found :
      (p : Ptr) (n : Node)
      → find_cell (named w) xs ≡ some (p, n)
      → find_destination k h dir (split_on b'/' w)
        ≡ ok (record { dir = p; new_name = none; invalid = false })
  unfolding find_destination
  find_destination-found p n found = rw (simple.one, follow-found p n found)

  pub find_destination-missing :
      find_cell (named w) xs ≡ none
      → find_destination k h dir (split_on b'/' w)
        ≡ ok (record { dir = dir; new_name = some w; invalid = false })
  unfolding find_destination
  find_destination-missing missing = rw (simple.one, follow-missing missing)

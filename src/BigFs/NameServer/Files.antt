-- ===== src/BigFs/NameServer/Files.antt =====
-- `tobigfs`, `cat` and `frombigfs` of Assignment2P1/fileNameServer.c.
use network_programming_assi.Base.{
  ℕ, ◌+◌, ◌<◌, ◌≡◌, refl, ◌∙◌, Str, ℤ, List, [], ◌∷◌, ◌++◌, some, ok, false, ◌||◌, ◌==◌, length,
  lt→ltb, has, arith, codes, last_or, split_on,
}
use network_programming_assi.Base.Decimal.{atoi}
use network_programming_assi.BigFs.NameServer.Heap.{Ptr, null, Heap, Node, write, set_loc_name}
use network_programming_assi.BigFs.NameServer.Server.{Server, max_size, send_string}
use network_programming_assi.BigFs.NameServer.Commands.{to_bigfs, add_file, new_file}
use network_programming_assi.BigFs.NameServer.Chain.{
  Cells, ptrs, head_ptr, with_next, Chain, IsDir, IsBelow, load-some,
}
use network_programming_assi.BigFs.NameServer.Siblings.{
  first, named, find_child-first, out_tail, ptrs-append,
}
use network_programming_assi.BigFs.NameServer.Ready.{
  IsReady, load-cur, fuel, receive-cons, Grown, ready-Grown,
}

-- The name that `tobigfs` stores a path under: what follows the last `/`.
abbrev pub base_name : Str → Str
base_name path = last_or [] (split_on b'/' path)

-- In a ready state `tobigfs path` answers "1" and changes nothing else if some child, file or
-- directory, has the base name of the path already.
pub to_bigfs-rejects :
    {s : Server} {d : Node} {xs : Cells} (path : Str) (ws : List Str)
    → IsReady s d xs
    → s.input ≡ path ∷ ws
    → length path < max_size
    → (first (named (base_name path)) xs == null) ≡ false
    → to_bigfs s ≡ ok (send_string (codes "1") (record s { input = ws }))
unfolding to_bigfs
to_bigfs-rejects {s} {xs} path ws ready e short taken = rw (
  receive-cons max_size s path ws e short,
  load-cur ready,
  find_child-first s.heap s.fresh (base_name path) xs ready.is_dir.chain (fuel ready),
  taken,
)

-- The last cell is rewritten.
Chain-set_last :
    (h : Heap) (xs : Cells) (p : Ptr) (m m' : Node)
    → Chain h (xs ++ (p, m) ∷ [])
    → Chain (write h p (with_next m' null)) (xs ++ (p, m') ∷ [])
unfolding write
Chain-set_last h [] p m m' c = (c.0, ground arith, refl, tt)
Chain-set_last h ((q, n) ∷ []) p m m' c =
    (c.0, ground (arith, c.1, c.2), ground (arith, c.2), Chain-set_last h [] p m m' c.3)
Chain-set_last h ((q, n) ∷ (r, l) ∷ xs) p m m' c = (
  c.0,
  ground (arith, c.1, c.2, ptrs-append q ((r, l) ∷ xs) p m),
  ptrs-append q ((r, l) ∷ xs) p m' ∙ sym_eq,
  Chain-set_last h ((r, l) ∷ xs) p m m' c.3,
)
  where
    sym_eq : (has q (ptrs ((r, l) ∷ xs)) || (q == p)) ≡ false
    sym_eq = rw (ptrs-append q ((r, l) ∷ xs) p m) at c.2

pub last-holds :
    (h : Heap) (xs : Cells) (p : Ptr) (m : Node)
    → Chain h (xs ++ (p, m) ∷ [])
    → ((p == null) ≡ false) × (h p ≡ some (with_next m null))
last-holds h [] p m c = (c.0, c.1)
last-holds h ((q, n) ∷ xs) p m c = last-holds h xs p m c.3

abbrev pub with_location : Node → Str → Node
with_location n location = record n { loc_name = some location }

head-append :
    (xs : Cells) (p : Ptr) (m m' : Node)
    → head_ptr (xs ++ (p, m) ∷ []) ≡ head_ptr (xs ++ (p, m') ∷ [])
head-append [] p m m' = refl
head-append (x ∷ xs) p m m' = refl

pub IsDir-set_last :
    {h : Heap} {dir : Ptr} {d : Node} (xs : Cells) (p : Ptr) (m m' : Node)
    → IsDir h dir d (xs ++ (p, m) ∷ [])
    → IsDir (write h p (with_next m' null)) dir d (xs ++ (p, m') ∷ [])
IsDir-set_last {h} {dir} xs p m m' is = record {
  present = is.present;
  holds = unfold write in rw (apart.1, ← head-append xs p m m') is.holds;
  apart = rw (ptrs-append dir xs p m') apart.0;
  chain = Chain-set_last h xs p m m' is.chain;
}
  where
    both : (has dir (ptrs xs) || (dir == p)) ≡ false
    both = rw (ptrs-append dir xs p m) at is.apart

    apart : ((has dir (ptrs xs) || (dir == p)) ≡ false) × ((dir == p) ≡ false)
    apart = (both, out_tail (has dir (ptrs xs)) _ both)

pub IsBelow-write :
    {h : Heap} {fresh p : ℕ} (n : Node) → IsBelow h fresh → p < fresh → IsBelow (write h p n) fresh
unfolding write
IsBelow-write {fresh} {p} n below lt a le = ground (arith, below a)

-- What `tobigfs path count location` leaves when the file is new.
pub record Stored (s : Server) (d : Node) (xs : Cells) (name : Str) (c : ℤ) (location : Str)
    (ws : List Str) : Type 0 where
  pub after : Server
  pub runs : to_bigfs s ≡ ok after
  pub ready : IsReady after d (xs ++ (s.fresh, with_location (new_file name s.cur c) location) ∷ [])
  pub cur : after.cur ≡ s.cur
  pub input : after.input ≡ ws
  pub output : after.output ≡ s.output ++ (codes "0" ++ 0 ∷ [])

module _ {s : Server} {d : Node} {xs : Cells} (path count location : Str) (c : ℤ) (ws : List Str)
    (ready : IsReady s d xs) (e : s.input ≡ path ∷ count ∷ location ∷ ws)
    (short : length path < max_size) (base_short : length (base_name path) < 256)
    (count_short : length count < 20) (count_number : atoi count ≡ some c)
    (location_short : length location < max_size)
    (free : first (named (base_name path)) xs ≡ null) where
  new : Node
  new = new_file (base_name path) s.cur c

  asked : Server
  asked = send_string (codes "0") (record s { input = count ∷ location ∷ ws })

  asked-IsReady : IsReady asked d xs
  unfolding asked
  asked-IsReady = record { some_node = ready.some_node; below = ready.below; is_dir = ready.is_dir }

  stored : Grown asked d xs new → Server
  stored grown = record asked {
    heap = write grown.heap s.fresh (with_next (with_location new location) null);
    fresh = s.fresh + 1;
    input = ws;
  }

  -- In a ready state `tobigfs`, for a base name that no child has and sizes that fit, ends normally,
  -- appends a file with that name, number of chunks and location, and answers "0".
  pub to_bigfs-Stored : Stored s d xs (base_name path) c location ws
  unfolding asked new stored to_bigfs add_file set_loc_name
  to_bigfs-Stored =
      let grown = ready-Grown {s = asked} new asked-IsReady in
      let at = last-holds grown.heap xs s.fresh new grown.is_dir.chain in
      record {
        after = stored grown;
        runs = rw (
          receive-cons max_size s path (count ∷ location ∷ ws) e short,
          load-cur ready,
          find_child-first s.heap s.fresh (base_name path) xs ready.is_dir.chain (fuel ready),
          free,
          lt→ltb (length (base_name path)) 256 base_short,
          receive-cons 20 asked count (location ∷ ws) refl count_short,
          count_number,
          grown.runs,
          receive-cons max_size
              (record asked {
                input = location ∷ ws;
                heap = write s.heap s.fresh new;
                fresh = s.fresh + 1;
              })
              location ws refl location_short,
          load-some grown.heap at.0 at.1,
        );
        ready = record {
          some_node = omega arith;
          below = IsBelow-write _ grown.below (omega arith);
          is_dir = IsDir-set_last xs s.fresh new (with_location new location) grown.is_dir;
        };
        cur = refl;
        input = refl;
        output = refl;
      }

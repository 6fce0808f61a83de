-- ===== src/BigFs/NameServer/Retrieval.antt =====
-- `cat` and `frombigfs` of Assignment2P1/fileNameServer.c, and how they meet `tobigfs`.
use network_programming_assi.Base.{
  ◌<◌, ◌≡◌, refl, Str, ℤ, List, [], ◌∷◌, ◌++◌, some, ok, fault, Bool, true, Bool-cases, inl, inr,
  length, lt→ltb, arith, codes, str_eq, str_eq_refl,
}
use network_programming_assi.Base.Decimal.{show}
use network_programming_assi.BigFs.NameServer.Heap.{Ptr, null, Heap, Node, load}
use network_programming_assi.BigFs.NameServer.Server.{Server, max_size, send_string, send_location}
use network_programming_assi.BigFs.NameServer.Commands.{new_file, cat_file, from_bigfs}
use network_programming_assi.BigFs.NameServer.Chain.{Cells, with_next, Chain, load-some}
use network_programming_assi.BigFs.NameServer.Siblings.{first, named, file_named, find_file-first}
use network_programming_assi.BigFs.NameServer.Ready.{IsReady, load-cur, fuel, receive-cons}
use network_programming_assi.BigFs.NameServer.Files.{Stored, with_location, last-holds, base_name}

-- A state with its input replaced.
abbrev pub with_input : Server → List Str → Server
with_input s input = record s { input = input }

-- What a client is sent for a file that was found.
abbrev pub found_reply : Str → ℤ → Server → Server
found_reply location c s = send_string (show c) (send_string location (send_string (codes "1") s))

first-append :
    (test : Node → Bool) (xs : Cells) (p : Ptr) (m : Node)
    → test m ≡ true
    → first test xs ≡ null
    → (h : Heap) → Chain h xs
    → first test (xs ++ (p, m) ∷ []) ≡ p
unfolding first
first-append test [] p m hit none_yet h c = rw hit
first-append test ((q, n) ∷ xs) p m hit none_yet h c = elim (Bool-cases (test n)) [
  | inl e ↦ absurd (ground (arith, c.0))
  | inr e ↦ rw e (first-append test xs p m hit (rw e at none_yet) h c.3)
]

file_named-first :
    (name : Str) (xs : Cells) (h : Heap)
    → Chain h xs
    → first (named name) xs ≡ null
    → first (file_named name) xs ≡ null
unfolding first
file_named-first name [] h c e = refl
file_named-first name ((q, n) ∷ xs) h c e = elim (Bool-cases (str_eq n.name name)) [
  | inl t ↦ absurd (ground (arith, c.0))
  | inr t ↦ rw t (file_named-first name xs h c.3 (rw t at e))
]

pub send_location-null : (s : Server) → send_location null s ≡ fault
unfolding send_location load
send_location-null s = refl

-- In a ready state `cat` and `frombigfs` of a name that no file in the current directory has
-- dereference NULL, after they have answered "0".
pub cat_file-missing :
    {s : Server} {d : Node} {xs : Cells} (name : Str) (ws : List Str)
    → IsReady s d xs
    → s.input ≡ name ∷ ws
    → length name < max_size
    → first (file_named name) xs ≡ null
    → (cat_file s ≡ fault) × (from_bigfs s ≡ fault)
unfolding cat_file from_bigfs
cat_file-missing {s} {xs} name ws ready e short missing =
    let searched = find_file-first s.heap s.fresh name xs ready.is_dir.chain (fuel ready) in
    let taken = receive-cons max_size s name ws e short in
    (
      rw (taken, load-cur ready, searched, missing, send_location-null),
      rw (taken, load-cur ready, searched, missing, send_location-null),
    )

pub send_location-found :
    (s : Server) (p : Ptr) (n : Node) (location : Str) (c : ℤ)
    → load s.heap p ≡ ok (with_location n location)
    → n.no_of_chunks ≡ some c
    → length (show c) < 10
    → send_location p s ≡ ok (send_string (show c) (send_string location s))
unfolding send_location
send_location-found s p n location c there chunks few =
    rw (there, chunks, lt→ltb (length (show c)) 10 few)

module _ {s : Server} {d : Node} {xs : Cells} (path : Str) (c : ℤ) (location : Str) (ws : List Str)
    (old : IsReady s d xs) (free : first (named (base_name path)) xs ≡ null)
    (stored : Stored s d xs (base_name path) c location ws) (short : length (base_name path) < 256)
    (few : length (show c) < 10) where
  -- When `tobigfs` has stored a file in a ready state under a base name that was free and fits
  -- the node, with a number of chunks that fits the buffer, `cat` of that name answers "1", the
  -- location and the number of chunks that were stored, and changes nothing else; so does
  -- `frombigfs`.
  pub cat_file-to_bigfs :
      (rest : List Str)
      → let asked = with_input stored.after (base_name path ∷ rest) in
        let told = found_reply location c (with_input stored.after rest) in
        (cat_file asked ≡ ok told) × (from_bigfs asked ≡ ok told)
  unfolding cat_file from_bigfs
  cat_file-to_bigfs rest =
      let cells = xs ++ (s.fresh, kept) ∷ [] in
      let after = with_input stored.after rest in
      let asked = with_input stored.after (base_name path ∷ rest) in
      let taken = receive-cons max_size asked (base_name path) rest refl (omega arith) in
      let chain = stored.ready.is_dir.chain in
      let searched =
        find_file-first stored.after.heap stored.after.fresh (base_name path) cells chain
          (fuel stored.ready) in
      let hit =
        first-append (file_named (base_name path)) xs s.fresh kept
          (rw (str_eq_refl (base_name path)))
          (file_named-first (base_name path) xs s.heap old.is_dir.chain free) s.heap
          old.is_dir.chain in
      let at = last-holds stored.after.heap xs s.fresh kept chain in
      let sent =
        send_location-found (send_string (codes "1") after) s.fresh (with_next kept null) location c
          (load-some stored.after.heap at.0 at.1) refl few in
      (
        rw (taken, load-cur stored.ready, searched, hit, at.0, sent),
        rw (taken, load-cur stored.ready, searched, hit, at.0, sent),
      )
    where
      kept : Node
      kept = with_location (new_file (base_name path) s.cur c) location

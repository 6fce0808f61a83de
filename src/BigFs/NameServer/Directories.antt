-- ===== src/BigFs/NameServer/Directories.antt =====
-- `ls` and `mkdir` of Assignment2P1/fileNameServer.c.
use network_programming_assi.Base.{
  ◌+◌, ◌<◌, ◌≡◌, refl, ◌∙◌, Str, List, [], ◌∷◌, ◌++◌, ok, length, lt→ltb, arith, ap, append_assoc,
}
use network_programming_assi.BigFs.NameServer.Heap.{Ptr, Node}
use network_programming_assi.BigFs.NameServer.Server.{Server, max_size, send_string}
use network_programming_assi.BigFs.NameServer.Commands.{
  list_directory, make_directory, new_directory,
}
use network_programming_assi.BigFs.NameServer.Chain.{Cells, ptrs, SameOutside}
use network_programming_assi.BigFs.NameServer.Siblings.{listing, list_from-listing}
use network_programming_assi.BigFs.NameServer.Ready.{
  IsReady, load-cur, fuel, receive-cons, ready-Grown,
}

-- In a ready state `ls` answers with the names of the children in order, a newline after each and a
-- NUL at the end, and changes nothing else.
pub list_directory-listing :
    {s : Server} {d : Node} {xs : Cells}
    → IsReady s d xs
    → list_directory s ≡ ok (send_string (listing xs) s)
unfolding list_directory
list_directory-listing {s} {xs} ready =
    rw (load-cur ready, list_from-listing s.heap s.fresh xs ready.is_dir.chain (fuel ready))

-- What `mkdir w` leaves.
pub record Made (s : Server) (d : Node) (xs : Cells) (w : Str) (ws : List Str) : Type 0 where
  pub after : Server
  pub runs : make_directory s ≡ ok after
  pub ready : IsReady after d (xs ++ (s.fresh, new_directory w s.cur) ∷ [])
  pub cur : after.cur ≡ s.cur
  pub input : after.input ≡ ws
  pub output : after.output ≡ s.output
  pub same : SameOutside (s.fresh ∷ s.cur ∷ ptrs xs) s.heap after.heap

-- In a ready state `mkdir w`, for a name that fits the node, ends normally, appends one directory
-- of that name to the children of the current directory, answers nothing, and changes no node but
-- the new one, the current directory and its children.
pub make_directory-Made :
    {s : Server} {d : Node} {xs : Cells} (w : Str) (ws : List Str)
    → IsReady s d xs
    → s.input ≡ w ∷ ws
    → length w < 256
    → Made s d xs w ws
unfolding make_directory
make_directory-Made {s} {d} {xs} w ws is_ready e short =
    let grown = ready-Grown (new_directory w s.cur) is_ready in
    record {
      after = record s { heap = grown.heap; fresh = s.fresh + 1; input = ws };
      runs =
          rw
            (receive-cons max_size s w ws e (omega arith), lt→ltb (length w) 256 short, grown.runs);
      ready = record { some_node = omega arith; below = grown.below; is_dir = grown.is_dir };
      cur = refl;
      input = refl;
      output = refl;
      same = grown.same;
    }

pub listing-append :
    (xs : Cells) (p : Ptr) (n : Node)
    → listing (xs ++ (p, n) ∷ []) ≡ listing xs ++ (n.name ++ (b'\n' ∷ []))
unfolding listing
listing-append [] p n = refl
listing-append ((q, m) ∷ xs) p n = simp (listing-append xs p n, append_assoc)

-- In a ready state, for a name `w` that fits the node, `mkdir w` and then `ls` answers with the
-- old names and then with `w`.
pub list_directory-make_directory :
    {s : Server} {d : Node} {xs : Cells} (w : Str) (ws : List Str)
    → IsReady s d xs
    → s.input ≡ w ∷ ws
    → length w < 256
    → (t : Server) × (make_directory s ≡ ok t)
      × (list_directory t ≡ ok (send_string (listing xs ++ (w ++ (b'\n' ∷ []))) t))
list_directory-make_directory {s} {xs} w ws is_ready e short =
    let made = make_directory-Made w ws is_ready e short in
    (
      made.after,
      made.runs,
      list_directory-listing made.ready
          ∙ ap (λ l. ok (send_string l made.after))
              (listing-append xs s.fresh (new_directory w s.cur)),
    )

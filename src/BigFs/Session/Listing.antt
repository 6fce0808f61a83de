-- ===== src/BigFs/Session/Listing.antt =====
-- A client of Assignment2P1 and the name server together: a directory is made and listed.
use network_programming_assi.Base.{
  ◌+◌, ◌<◌, ◌≡◌, refl, ap, ◌∙◌, List, [], ◌∷◌, ◌++◌, append_assoc, ok, Str, codes, str_eq, split_on,
  split_on_word, Without, lt→ltb, length, length-append, arith,
}
use network_programming_assi.BigFs.Receiver.Copy.{IsText}
use network_programming_assi.BigFs.NameServer.Heap.{Node}
use network_programming_assi.BigFs.NameServer.Server.{
  Server, receive as server_receive, send_string,
}
use network_programming_assi.BigFs.NameServer.Chain.{Cells}
use network_programming_assi.BigFs.NameServer.Siblings.{listing}
use network_programming_assi.BigFs.NameServer.Ready.{IsReady}
use network_programming_assi.BigFs.NameServer.Commands.{
  new_directory, make_directory as server_make, list_directory as server_list,
}
use network_programming_assi.BigFs.NameServer.Directories.{
  make_directory-Made, list_directory-listing, listing-append,
}
use network_programming_assi.BigFs.NameServer.Transfer.{handle}
use network_programming_assi.BigFs.Client.Strings.{cut, strings, strings-text}
use network_programming_assi.BigFs.Client.State.{name_server, Client, receive, argument}
use network_programming_assi.BigFs.Client.Commands.{
  Local, list_directory, make_directory, run, run_line,
}
use network_programming_assi.BigFs.Session.Requests.{IsText-append, IsText-has}

abbrev mkdir_line : Str → Str
mkdir_line w = codes "mkdir " ++ w

-- The bytes of the request.
abbrev mkdir_bytes : Str → Str
mkdir_bytes w = (codes "mkdir" ++ 0 ∷ []) ++ (w ++ 0 ∷ [])

client-mkdir :
    (disk : Local) (w : Str) (c : Client)
    → Without b' ' w
    → run_line disk (mkdir_line w) c
      ≡ ok (record c {
        command = [];
        sent =
            (c.sent ++ (name_server, codes "mkdir" ++ 0 ∷ []) ∷ [])
            ++ (name_server, w ++ 0 ∷ []) ∷ [];
      })
unfolding run_line argument run make_directory split_on str_eq
client-mkdir disk w c free = rw (split_on_word b' ' w free) refl

client-ls :
    (disk : Local) (text : Str) (ws : List Str) (c : Client)
    → c.from_name ≡ text ∷ ws
    → length text < 1024
    → run_line disk (codes "ls") c
      ≡ ok (record c {
        command = [];
        from_name = ws;
        sent = c.sent ++ (name_server, codes "ls" ++ 0 ∷ []) ∷ [];
        printed = c.printed ++ text;
      })
unfolding run_line argument run list_directory receive split_on str_eq
client-ls disk text ws c e small = rw (e, lt→ltb (length text) 1024 small) refl

strings_nil : strings [] ≡ []
unfolding cut
strings_nil = refl

strings_one : (w : Str) → IsText w → strings (w ++ 0 ∷ []) ≡ w ∷ []
strings_one w text = strings-text w [] text ∙ ap (λ l. w ∷ l) strings_nil

strings-mkdir : (w : Str) → IsText w → strings (mkdir_bytes w) ≡ codes "mkdir" ∷ w ∷ []
strings-mkdir w text =
    ap strings (append_assoc (codes "mkdir") (0 ∷ []) (w ++ 0 ∷ []))
    ∙ strings-text (codes "mkdir") (w ++ 0 ∷ []) (IsText-has (codes "mkdir") refl)
    ∙ ap (λ l. codes "mkdir" ∷ l) (strings_one w text)

handle-mkdir :
    (s : Server) (ws : List Str)
    → s.input ≡ codes "mkdir" ∷ ws
    → handle s ≡ server_make (record s { input = ws })
unfolding handle server_receive str_eq
handle-mkdir s ws e = rw e refl

handle-ls :
    (s : Server) (ws : List Str)
    → s.input ≡ codes "ls" ∷ ws
    → handle s ≡ server_list (record s { input = ws })
unfolding handle server_receive str_eq
handle-ls s ws e = rw e refl

with_input :
    {s : Server} {d : Node} {xs : Cells} (ws : List Str)
    → IsReady s d xs
    → IsReady (record s { input = ws }) d xs
with_input ws h = record { some_node = h.some_node; below = h.below; is_dir = h.is_dir }

-- The client makes a directory and lists the current one: what the name server reads of its two
-- requests makes it append the directory to the children of the current one and answer with their
-- names in order, and the client prints these. The name has no space and no NUL and fits a node, and
-- the listing has no NUL and fits the client's buffer.
pub listing_roundtrip :
    (disk : Local) (w : Str) (c : Client) (s : Server) (d : Node) (xs : Cells)
    → IsReady s d xs
    → Without b' ' w
    → IsText w
    → IsText (listing xs)
    → length w < 256
    → length (listing xs) + length w < 1023
    → let made = record c {
      command = [];
      sent =
          (c.sent ++ (name_server, codes "mkdir" ++ 0 ∷ []) ∷ [])
          ++ (name_server, w ++ 0 ∷ []) ∷ [];
    } in
      let names = listing xs ++ (w ++ b'\n' ∷ []) in
      (s1 s2 : Server) × (back : Str) × (run_line disk (mkdir_line w) c ≡ ok made)
      × (handle (record s { input = strings (mkdir_bytes w) }) ≡ ok s1)
      × (run_line disk (codes "ls") (record made { from_name = strings back })
          ≡ ok (record made {
            command = [];
            from_name = [];
            sent = made.sent ++ (name_server, codes "ls" ++ 0 ∷ []) ∷ [];
            printed = c.printed ++ names;
          }))
      × (handle (record s1 { input = strings (codes "ls" ++ 0 ∷ []) }) ≡ ok s2)
      × (s2.output ≡ s.output ++ back)
      × IsReady s2 d (xs ++ (s.fresh, new_directory w s.cur) ∷ [])
listing_roundtrip disk w c s d xs ready one_word text names_text short small =
    let names = listing xs ++ (w ++ b'\n' ∷ []) in
    let made = make_directory-Made w [] (with_input (w ∷ []) ready) refl short in
    let s1 = made.after in
    let idle : Server = record s1 { input = [] } in
    let grown = listing-append xs s.fresh (new_directory w s.cur) in
    let names_IsText =
      IsText-append (listing xs) (w ++ b'\n' ∷ []) names_text
        (IsText-append w (b'\n' ∷ []) text (IsText-has (codes "\n") refl)) in
    let size : length names < 1024 =
      omega (arith, length-append (listing xs) (w ++ b'\n' ∷ []), length-append w (b'\n' ∷ [])) in
    (
      s1,
      send_string names idle,
      names ++ 0 ∷ [],
      client-mkdir disk w c one_word,
      handle-mkdir (record s { input = strings (mkdir_bytes w) }) (w ∷ []) (strings-mkdir w text)
          ∙ made.runs,
      client-ls disk names [] _ (strings_one names names_IsText) size,
      handle-ls (record s1 { input = strings (codes "ls" ++ 0 ∷ []) }) []
            (strings_one (codes "ls") (IsText-has (codes "ls") refl))
          ∙ list_directory-listing (with_input [] made.ready)
          ∙ ap (λ l. ok (send_string l idle)) grown,
      ap (λ o. o ++ (names ++ 0 ∷ [])) made.output,
      record {
        some_node = made.ready.some_node;
        below = made.ready.below;
        is_dir = made.ready.is_dir;
      },
    )

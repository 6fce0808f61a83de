-- ===== src/BigFs/Session/Chunk.antt =====
-- A chunk that Assignment2P1/Client.c uploads comes back from the data server.
use mathlib.Core.Path.{subst}
use network_programming_assi.Base.{
  ℕ, zero, suc, ◌+◌, ◌<◌, ◌≤◌, ◌≡◌, refl, ap, sym, ◌∙◌, inl, inr, false, ◌&&◌, Str, codes, str_eq,
  List, [], ◌∷◌, ◌++◌, append-nil, ◌%◌, ok, ◌>>=◌, ltb, lt→ltb, take, length, length-take,
  length-append, flatten, arith, Bool-cases,
}
use network_programming_assi.Base.Decimal.{show_nat}
use network_programming_assi.BigFs.Receiver.Copy.{IsText}
use network_programming_assi.BigFs.Receiver.Programs.{max_size, block_size}
use network_programming_assi.BigFs.Client.Strings.{cut, strings, gather}
use network_programming_assi.BigFs.Client.State.{Client, name_server, data_receive, advance}
use network_programming_assi.BigFs.Client.Chunks.{upload, ask, report, base_name}
use network_programming_assi.BigFs.DataServer.Files.{FileSystem, access}
use network_programming_assi.BigFs.DataServer.Server.{
  DataServer, numbered, free_name, place, to_bigfs, print_file, command,
}
use network_programming_assi.BigFs.DataServer.Storing.{
  Writable, receive-lt, place-Placed, to_bigfs-place, print_file-gathered,
}
use network_programming_assi.BigFs.Session.Requests.{
  to_server, upload_writes, upload_rest, upload-writes, strings-upload_writes, ask_writes,
  strings-ask_writes, ask-writes, IsText-append, IsText-has, show_nat-IsText,
}

numbered-IsText : (dir : Str) (i : ℕ) → IsText dir → IsText (numbered dir i)
unfolding numbered
numbered-IsText dir i text =
    let opened = IsText-append dir (codes "(") text (IsText-has (codes "(") refl) in
    let counted = IsText-append (dir ++ codes "(") (show_nat i) opened (show_nat-IsText i) in
    IsText-append ((dir ++ codes "(") ++ show_nat i) (codes ")") counted
      (IsText-has (codes ")") refl)

show_zero : length (show_nat 0) < 10
unfolding show_nat
show_zero = omega arith

no_strings : strings [] ≡ []
unfolding cut
no_strings = refl

same_text : {A : Type 0} (a b : A) → ok a ≡ ok b → a ≡ b
same_text a b e = cc

advance-ok : (servers ptr : ℕ) → 0 < servers → advance servers ptr ≡ ok ((ptr + 1) % servers)
unfolding advance
advance-ok servers ptr some = rw (lt→ltb 0 servers some) refl

module _ {Fs : Type 0} (os : FileSystem Fs) where
  -- The name that the data server chooses is text.
  free_name-IsText :
      (k : ℕ) (d : Fs) (dir : Str) (i : ℕ) (loc : Str)
      → IsText dir
      → free_name os k d dir i ≡ ok loc
      → IsText loc
  unfolding free_name
  free_name-IsText zero d dir i loc text run = absurd (ground arith)
  free_name-IsText (suc k) d dir i loc text run =
      elim (Bool-cases (ltb (length (numbered dir i)) max_size)) [
        | inr long ↦ absurd (ground arith)
        | inl fit ↦ elim (Bool-cases (access os d (numbered dir i))) [
          | inl used ↦ free_name-IsText k d dir (i + 1) loc text (rw (fit, used) at run)
          | inr unused ↦
              subst IsText (same_text (numbered dir i) loc (rw (fit, unused) at run))
                (numbered-IsText dir i text)
        ]
      ]

  place-IsText :
      (limit : ℕ) (d : Fs) (dir count loc : Str)
      → IsText dir
      → place os limit d dir count ≡ ok loc
      → IsText loc
  unfolding place
  place-IsText limit d dir count loc text run =
      elim (Bool-cases (str_eq count (codes "0") && access os d dir)) [
        | inl e ↦ free_name-IsText limit d dir 0 loc text (rw e at run)
        | inr e ↦ subst IsText (same_text dir loc (rw e at run)) text
      ]

  command-tobigfs :
      (limit : ℕ) (d : Fs) (out : Str) (rest : List Str)
      → command os limit (record { input = codes "tobigfs" ∷ rest; disk = d; sent = out })
        ≡ to_bigfs os limit (record { input = rest; disk = d; sent = out })
  unfolding command str_eq
  command-tobigfs limit d out rest =
      rw (receive-lt max_size (codes "tobigfs") rest d out (omega arith)) refl

  command-cat :
      (limit : ℕ) (d : Fs) (out : Str) (rest : List Str)
      → command os limit (record { input = codes "cat" ∷ rest; disk = d; sent = out })
        ≡ print_file os (record { input = rest; disk = d; sent = out })
  unfolding command str_eq
  command-cat limit d out rest =
      rw (receive-lt max_size (codes "cat") rest d out (omega arith)) refl

  -- If the text fits the program's buffers, holds no NUL and is not empty, the name is text and a
  -- name is free on the data server, then for the first chunk of an upload, the first block of
  -- `text`: the client writes a request and waits for the location; the data server with that request
  -- answers a location; the client passes this location on to the name server; a client that asks for
  -- the first chunk of a file at this location writes a request; and from what the data server answers
  -- to it the client gathers the chunk, and nothing is left over.
  pub chunk_roundtrip :
      (limit : ℕ) (d : Fs) (out : Str) (k ptr count : ℕ) (dir text : Str) (c : Client) (n : ℕ)
      → 0 < c.servers
      → length (show_nat count) < 10
      → IsText (take block_size text)
      → 0 < length text
      → IsText dir
      → length (codes "data/" ++ dir) + 20 < max_size
      → ((j : ℕ) → j ≤ n → length (numbered (codes "data/" ++ dir) j) + 20 < max_size)
      → access os d (numbered (codes "data/" ++ dir) n) ≡ false
      → n < limit
      → Writable os
      → (ws : List Str) × (loc : Str) × (stored : DataServer Fs) × (back : Str) × (upload
            (suc k)
            0
            ptr
            count
            dir
            text
            c
          ≡ (data_receive max_size ptr
                (record c { sent = c.sent ++ to_server ptr (upload_writes ws dir count 0) })
              >>= upload_rest k 0 ptr count dir text))
        × (command os limit (record {
          input = strings (flatten (upload_writes ws dir count 0));
          disk = d;
          sent = out;
        })
            ≡ ok stored)
        × (stored.sent ≡ out ++ (loc ++ 0 ∷ []))
        × (report 0 loc dir c
            ≡ (base_name loc, record c { sent = c.sent ++ (name_server, loc ++ 0 ∷ []) ∷ [] }))
        × (ask 1 0 ptr loc c ≡ ok (record c { sent = c.sent ++ to_server ptr (ask_writes loc 0) }))
        × (command os limit (record stored { input = strings (flatten (ask_writes loc 0)) })
            ≡ ok (record stored { input = []; sent = stored.sent ++ back }))
        × (gather (strings back) ≡ ok (take block_size text, []))
  chunk_roundtrip limit d out k ptr count dir text c n some_server count_lt is_text full named
        base_lt shorts free fuel writable =
      let zero_lt = show_zero in
      let base = codes "data/" ++ dir in
      let chunk = take block_size text in
      let size = length-take block_size text in
      let (ws, parts, up) = upload-writes k 0 ptr count dir text c count_lt zero_lt in
      let (loc, placed, run) =
        place-Placed os limit d base (show_nat count) n base_lt shorts free fuel in
      let is_loc =
        place-IsText limit d base (show_nat count) loc
          (IsText-append (codes "data/") dir (IsText-has (codes "data/") refl) named) run in
      let (s', stores, stored, left) =
        to_bigfs-place os limit d out chunk dir (show_nat count) (show_nat 0) loc []
          (omega (arith, size)) count_lt (omega arith) base_lt placed run writable in
      let short : length (loc ++ show_nat 0) < max_size =
        omega (arith, length-append loc (show_nat 0), placed.short) in
      let (back, prints, gathers) =
        print_file-gathered os s'.disk s'.sent (loc ++ show_nat 0) chunk [] [] stored.text short
          is_text (omega (arith, size)) (omega (arith, size)) in
      (
        ws,
        loc,
        s',
        back,
        up,
        ap (λ l. command os limit (record { input = l; disk = d; sent = out }))
              (strings-upload_writes ws dir count 0 (rw parts is_text) named
                ∙ ap (λ l. codes "tobigfs" ∷ l ∷ dir ∷ show_nat count ∷ show_nat 0 ∷ []) parts)
            ∙ command-tobigfs limit d out (chunk ∷ dir ∷ show_nat count ∷ show_nat 0 ∷ [])
            ∙ stores,
        stored.reply,
        unfold report in refl,
        ask-writes 0 ptr ((ptr + 1) % c.servers) loc c zero_lt
            (advance-ok c.servers ptr some_server),
        ap (λ l. command os limit (record { input = l; disk = s'.disk; sent = s'.sent }))
              (strings-ask_writes loc 0 is_loc)
            ∙ command-cat limit s'.disk s'.sent ((loc ++ show_nat 0) ∷ [])
            ∙ prints,
        ap (λ u. gather (strings u)) (sym (append-nil back))
            ∙ gathers
            ∙ ap (λ r. ok (chunk, r)) no_strings,
      )

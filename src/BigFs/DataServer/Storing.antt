-- ===== src/BigFs/DataServer/Storing.antt =====
-- What `tobigfs` and `printfile` of Assignment2P1/fileDataServer.c do with the files.
use mathlib.Core.Path.{subst}
use network_programming_assi.Base.{
  ℕ, zero, suc, ◌+◌, ◌*◌, ◌/◌, ◌<◌, ◌≤◌, ◌≡◌, ◌≢◌, refl, ap, ◌∙◌, Str, str_eq, codes, some, List,
  [], ◌∷◌, ◌++◌, length-append, append-nil, true, false, ◌&&◌, Outcome, ok, fault, blocked, stopped,
  out_of_fuel, length, take, arith, Bool-cases, inl, inr,
}
use network_programming_assi.BigFs.Receiver.Copy.{IsText}
use network_programming_assi.BigFs.Receiver.Programs.{max_size, block_size}
use network_programming_assi.BigFs.Client.Strings.{cut, strings, gather}
use network_programming_assi.BigFs.DataServer.Files.{FileSystem, access}
use network_programming_assi.BigFs.DataServer.Server.{
  DataServer, numbered, receive, place, pieces, print_pieces, to_bigfs, print_file,
}
use network_programming_assi.BigFs.DataServer.Naming.{free_name-Fresh, fits-lt}
use network_programming_assi.BigFs.DataServer.Pieces.{gathered, pieces-gathered}

pub receive-lt :
    {Fs : Type 0} (cap : ℕ) (w : Str) (ws : List Str) (d : Fs) (out : Str)
    → length w < cap
    → receive cap (record { input = w ∷ ws; disk = d; sent = out })
      ≡ ok (w, record { input = ws; disk = d; sent = out })
unfolding receive
receive-lt cap w ws d out lt = rw (fits-lt cap w lt) refl

module _ {Fs : Type 0} (os : FileSystem Fs) where
  -- Every file can be written.
  abbrev pub Writable : Type 0
  Writable = (d : Fs) (p text : Str) → (d' : Fs) × (os.save d p text ≡ some d')

  -- The name of a stored file: no file had it if this is the first chunk on this server.
  pub record Placed (d : Fs) (count dir : Str) : Type 0 where
    pub short : length dir + 20 < max_size
    pub unused : str_eq count (codes "0") ≡ true → access os d dir ≡ false

  pub place-Placed :
      (limit : ℕ) (d : Fs) (base count : Str) (n : ℕ)
      → length base + 20 < max_size
      → ((j : ℕ) → j ≤ n → length (numbered base j) + 20 < max_size)
      → access os d (numbered base n) ≡ false
      → n < limit
      → (dir : Str) × Placed d count dir × (place os limit d base count ≡ ok dir)
  unfolding place
  place-Placed limit d base count n short shorts free fuel =
      elim (Bool-cases (str_eq count (codes "0") && access os d base)) [
        | inl e ↦
            let (m, f, run) =
              free_name-Fresh os limit d base 0 n free (λ j le. omega (arith, shorts j le))
                (omega arith) (omega arith) in
            (numbered base m, record { short = shorts m f.upto; unused = λ z. f.free }, rw e run)
        | inr e ↦ (base, record { short = short; unused = λ z. ground arith }, rw e refl)
      ]

  -- The state after `tobigfs`, of which `dir` is the name that was chosen.
  pub record Stored (s : DataServer Fs) (temp_buf count num : Str) (s' : DataServer Fs) (dir : Str)
      : Type 0 where
    pub text : os.contents s'.disk (dir ++ num) ≡ some temp_buf
    pub reply : s'.sent ≡ s.sent ++ (dir ++ 0 ∷ [])
    pub unused : str_eq count (codes "0") ≡ true → access os s.disk dir ≡ false
    pub others : (q : Str) → dir ≢ q → dir ++ num ≢ q → os.contents s'.disk q ≡ os.contents s.disk q

  -- `tobigfs` once the name is chosen.
  pub to_bigfs-place :
      (limit : ℕ) (d : Fs) (out temp_buf name count num dir : Str) (rest : List Str)
      → length temp_buf < 2 * block_size
      → length count < 10
      → length num < 20
      → length (codes "data/" ++ name) + 20 < max_size
      → Placed d count dir
      → place os limit d (codes "data/" ++ name) count ≡ ok dir
      → Writable
      → (s' : DataServer Fs) × (to_bigfs os limit
            (record { input = temp_buf ∷ name ∷ count ∷ num ∷ rest; disk = d; sent = out })
          ≡ ok s')
        × Stored
            (record { input = temp_buf ∷ name ∷ count ∷ num ∷ rest; disk = d; sent = out })
            temp_buf
            count
            num
            s'
            dir
        × (s'.input ≡ rest)
  unfolding to_bigfs
  to_bigfs-place limit d out temp_buf name count num dir rest text_lt count_lt num_lt base_lt placed
        run writable =
      let base = codes "data/" ++ name in
      let (d1, saved1) = writable d dir [] in
      let (d2, saved2) = writable d1 (dir ++ num) temp_buf in
      let dir_lt : length (dir ++ num) < max_size =
        omega (arith, length-append dir num, placed.short) in
      (
        record { input = rest; disk = d2; sent = out ++ (dir ++ 0 ∷ []) },
        rw
            (
              receive-lt (2 * block_size) temp_buf (name ∷ count ∷ num ∷ rest) d out text_lt,
              receive-lt max_size name (count ∷ num ∷ rest) d out (omega arith),
              receive-lt 10 count (num ∷ rest) d out count_lt,
              receive-lt 20 num rest d out num_lt,
              fits-lt max_size base (omega arith),
              run,
              saved1,
              fits-lt max_size (dir ++ num) dir_lt,
              saved2,
            )
            refl,
        record {
          text = os.contents-save d1 (dir ++ num) temp_buf d2 saved2;
          reply = refl;
          unused = placed.unused;
          others = λ q ne ne'.
              os.contents-save_ne d1 (dir ++ num) temp_buf q d2 saved2 ne'
              ∙ os.contents-save_ne d dir [] q d1 saved1 ne;
        },
        refl,
      )

  -- If the strings fit the buffers, files can be written, and one of the first `limit` numbered names
  -- is free, `tobigfs` ends normally: it stores the text under the chosen name and the chunk's
  -- number, tells the client the name, which no file had if the chunk is the server's first, and
  -- leaves all files but those two as they were.
  pub to_bigfs-Stored_chunk :
      (limit : ℕ) (d : Fs) (out temp_buf name count num : Str) (rest : List Str) (n : ℕ)
      → length temp_buf < 2 * block_size
      → length count < 10
      → length num < 20
      → length (codes "data/" ++ name) + 20 < max_size
      → ((j : ℕ) → j ≤ n → length (numbered (codes "data/" ++ name) j) + 20 < max_size)
      → access os d (numbered (codes "data/" ++ name) n) ≡ false
      → n < limit
      → Writable
      → (dir : Str) × (s' : DataServer Fs) × (to_bigfs os limit
            (record { input = temp_buf ∷ name ∷ count ∷ num ∷ rest; disk = d; sent = out })
          ≡ ok s')
        × Stored
            (record { input = temp_buf ∷ name ∷ count ∷ num ∷ rest; disk = d; sent = out })
            temp_buf
            count
            num
            s'
            dir
  to_bigfs-Stored_chunk limit d out temp_buf name count num rest n text_lt count_lt num_lt base_lt
        shorts free fuel writable =
      let base = codes "data/" ++ name in
      let (dir, placed, run) = place-Placed limit d base count n base_lt shorts free fuel in
      let (s', runs, stored, left) =
        to_bigfs-place limit d out temp_buf name count num dir rest text_lt count_lt num_lt base_lt
          placed run writable in
      (dir, s', runs, stored)

  take_all : (n : ℕ) (s : Str) → length s ≤ n → take n s ≡ s
  take_all zero [] le = refl
  take_all zero (c ∷ s) le = absurd (omega arith)
  take_all (suc n) [] le = refl
  take_all (suc n) (c ∷ s) le = ap (c ∷◌) (take_all n s (omega arith))

  gathered-ok :
      (o : Outcome Str) (more t : Str)
      → gathered o more ≡ ok (t, strings more)
      → (u : Str) × (o ≡ ok u)
  gathered-ok (ok u) more t e = (u, refl)
  gathered-ok fault more t e = ground arith
  gathered-ok blocked more t e = ground arith
  gathered-ok stopped more t e = ground arith
  gathered-ok out_of_fuel more t e = ground arith

  print_pieces-gathered :
      (block : ℕ) (text more : Str)
      → 1000 ≤ block
      → 0 < length text
      → length text ≤ block
      → IsText text
      → gathered (print_pieces block text) more ≡ ok (text, strings more)
  unfolding print_pieces
  print_pieces-gathered block text more big full le is_text = rw (take_all block text le) (
      pieces-gathered (suc (length text)) (block / 1000) text more (omega arith) full is_text
        (omega arith))

  -- `printfile` of a file that is there, with a path that fits the buffer and a text that is
  -- neither empty nor larger than a block and holds no NUL, ends normally, and from what it
  -- writes the client's loop gathers that text.
  pub print_file-gathered :
      (d : Fs) (sent loc text more : Str) (rest : List Str)
      → os.contents d loc ≡ some text
      → length loc < max_size
      → IsText text
      → 0 < length text
      → length text ≤ block_size
      → (out : Str) × (print_file os (record { input = loc ∷ rest; disk = d; sent = sent })
          ≡ ok (record { input = rest; disk = d; sent = sent ++ out }))
        × (gather (strings (out ++ more)) ≡ ok (text, strings more))
  unfolding print_file
  print_file-gathered d sent loc text more rest found loc_lt is_text full le =
      let all = print_pieces-gathered block_size text more (omega arith) full le is_text in
      let (out, run) = gathered-ok (print_pieces block_size text) more text all in
      (
        out,
        rw (receive-lt max_size loc rest d sent loc_lt, found, run) refl,
        subst (λ o. gathered o more ≡ ok (text, strings more)) run all,
      )

  print_pieces-empty : (block : ℕ) → print_pieces block [] ≡ ok []
  unfolding print_pieces pieces
  print_pieces-empty block = rw (take_all block [] (omega arith)) refl

  -- `printfile` of an empty file, with a path that fits the buffer, writes nothing, so that the
  -- client, which reads until an empty string comes, waits.
  pub print_file-empty :
      (d : Fs) (sent loc : Str) (rest : List Str)
      → os.contents d loc ≡ some []
      → length loc < max_size
      → (print_file os (record { input = loc ∷ rest; disk = d; sent = sent })
          ≡ ok (record { input = rest; disk = d; sent = sent }))
        × (gather (strings []) ≡ blocked)
  unfolding print_file
  print_file-empty d sent loc rest found loc_lt = (
    rw
        (
          receive-lt max_size loc rest d sent loc_lt,
          found,
          print_pieces-empty block_size,
          append-nil sent,
        )
        refl,
    unfold gather cut in refl,
  )

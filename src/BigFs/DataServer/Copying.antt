-- ===== src/BigFs/DataServer/Copying.antt =====
-- What `copyfile` of Assignment2P1/fileDataServer.c does with the files.
use network_programming_assi.Base.{
  ℕ, ◌+◌, ◌<◌, ◌≤◌, ◌≡◌, ◌≢◌, refl, ap, sym, ◌∙◌, Str, str_eq, codes, some, List, [], ◌∷◌, ◌++◌,
  append_assoc, append-nil, Without, length-append, false, ok, length, drop, get_or, arith,
}
use network_programming_assi.Base.Decimal.{show_nat}
use network_programming_assi.BigFs.Receiver.Programs.{max_size}
use network_programming_assi.BigFs.DataServer.Files.{FileSystem, access}
use network_programming_assi.BigFs.DataServer.Server.{
  DataServer, numbered, target, until_eof, copy_file,
}
use network_programming_assi.BigFs.DataServer.Naming.{free_name-Fresh, fits-lt}
use network_programming_assi.BigFs.DataServer.Storing.{Writable, receive-lt}

drop-append : (w x : Str) → drop (length w) (w ++ x) ≡ x
drop-append [] x = refl
drop-append (c ∷ w) x = drop-append w x

heads_differ : (w x y : Str) → w ++ (b'(' ∷ x) ≢ w ++ (b'0' ∷ y)
heads_differ w x y e =
    let rest : b'(' ∷ x ≡ b'0' ∷ y =
      sym (drop-append w (b'(' ∷ x)) ∙ ap (drop (length w)) e ∙ drop-append w (b'0' ∷ y) in
    let head : ◌≡◌ {A = ℕ} b'(' b'0' = ap (λ s. get_or s 0 0) rest in absurd (omega arith)

numbered-starts : (w : Str) (i : ℕ) → numbered w i ≡ w ++ (b'(' ∷ (show_nat i ++ codes ")"))
unfolding numbered
numbered-starts w i =
    append_assoc (w ++ codes "(") (show_nat i) (codes ")")
    ∙ append_assoc w (codes "(") (show_nat i ++ codes ")")

-- A numbered name is not that of the first chunk of the file, with or without a suffix.
numbered-ne : (w s : Str) (i : ℕ) → numbered w i ++ s ≢ w ++ codes "0"
numbered-ne w s i e = heads_differ w ((show_nat i ++ codes ")") ++ s) [] (
    sym (append_assoc w (b'(' ∷ (show_nat i ++ codes ")")) s)
    ∙ ap (λ t. t ++ s) (sym (numbered-starts w i))
    ∙ e)

-- What follows the part of a text that the copy loop reads: nothing, or a byte that it takes for EOF.
abbrev pub EndsText : Str → Type 0
EndsText [] = Unit
EndsText (c ∷ s) = c ≡ 255

until_eof-append :
    (text tail : Str) → Without 255 text → EndsText tail → until_eof (text ++ tail) ≡ text
unfolding until_eof
until_eof-append [] [] bytes ends = refl
until_eof-append [] (c ∷ s) bytes ends = rw (ends) refl
until_eof-append (c ∷ w) tail bytes ends = rw (bytes.0, until_eof-append w tail bytes.1 ends) refl

module _ {Fs : Type 0} (os : FileSystem Fs) where
  -- The state after a file's first chunk was copied to the name `copy`, with the text `text`.
  pub record Copied (s : DataServer Fs) (text : Str) (s' : DataServer Fs) (copy : Str)
      : Type 0 where
    pub stored : os.contents s'.disk (copy ++ codes "0") ≡ some text
    pub unused : access os s.disk copy ≡ false
    pub reply : s'.sent ≡ s.sent ++ (copy ++ 0 ∷ [])
    pub others :
        (q : Str) → copy ≢ q → copy ++ codes "0" ≢ q → os.contents s'.disk q ≡ os.contents s.disk q

  -- `copyfile` of the first chunk of a file that is there: if the strings fit the buffers, files can
  -- be written, and one of the first `limit` numbered names is free, it ends normally, chooses a
  -- name that no file had, tells it to the client, and stores there the source's text if no byte of
  -- it is 255, and else what stands before the first such byte; all files but the two of the new name
  -- stay as they were.
  pub copy_file-Copied :
      (limit : ℕ) (d : Fs) (out name text tail : Str) (rest : List Str) (n : ℕ)
      → os.contents d (name ++ codes "0") ≡ some (text ++ tail)
      → Without 255 text
      → EndsText tail
      → length name + 1 < max_size
      → ((j : ℕ) → j ≤ n → length (numbered name j) + 1 < max_size)
      → access os d (numbered name n) ≡ false
      → n < limit
      → Writable os
      → (copy : Str) × (s' : DataServer Fs) × (copy_file os limit
            (record { input = name ∷ codes "0" ∷ rest; disk = d; sent = out })
          ≡ ok s')
        × Copied (record { input = name ∷ codes "0" ∷ rest; disk = d; sent = out }) text s' copy
  unfolding copy_file target str_eq
  copy_file-Copied limit d out name text tail rest n found bytes ends short shorts free fuel
        writable =
      let (m, f, run) =
        free_name-Fresh os limit d name 0 n free (λ j le. omega (arith, shorts j le)) (omega arith)
          (omega arith) in
      let copy = numbered name m in
      let (d1, saved1) = writable d copy [] in
      let (d2, saved2) = writable d1 (copy ++ codes "0") [] in
      let (d3, saved3) = writable d2 (copy ++ codes "0") text in
      let ne : copy ≢ name ++ codes "0" =
        λ e. numbered-ne name [] m (append-nil (numbered name m) ∙ e) in
      let there =
        os.contents-save_ne d1 (copy ++ codes "0") [] (name ++ codes "0") d2 saved2
          (numbered-ne name (codes "0") m)
        ∙ os.contents-save_ne d copy [] (name ++ codes "0") d1 saved1 ne
        ∙ found in
      let read = until_eof-append text tail bytes ends in
      (
        copy,
        record { input = rest; disk = d3; sent = out ++ (copy ++ 0 ∷ []) },
        rw
            (
              receive-lt max_size name (codes "0" ∷ rest) d out (omega arith),
              receive-lt 10 (codes "0") rest d out (omega arith),
              run,
              fits-lt max_size (name ++ codes "0") (omega (arith, length-append name (codes "0"))),
              found,
              saved1,
              fits-lt max_size (copy ++ codes "0")
                  (omega (arith, length-append copy (codes "0"), shorts m f.upto)),
              saved2,
              there,
              read,
              saved3,
            )
            refl,
        record {
          stored = os.contents-save d2 (copy ++ codes "0") text d3 saved3;
          unused = f.free;
          reply = refl;
          others = λ q ne ne'.
              os.contents-save_ne d2 (copy ++ codes "0") text q d3 saved3 ne'
              ∙ os.contents-save_ne d1 (copy ++ codes "0") [] q d2 saved2 ne'
              ∙ os.contents-save_ne d copy [] q d1 saved1 ne;
        },
      )

-- ===== src/BigFs/Receiver/Programs.antt =====
-- The buffers of the three programs of Assignment2P1: `MAX_SIZE` and `BLOCKSIZE` are the limits. The
-- client has one pair of buffers for the name server and one for each data server.
use network_programming_assi.Base.{
  ℕ, ◌+◌, ◌<◌, ◌≡◌, ◌≢◌, refl, ◌∙◌, sym, Str, List, [], ◌∷◌, ◌++◌, true, false, ◌&&◌, Outcome, ok,
  fault, ◌>>=◌, ltb, leb, length, arith, Option, none, some, get_elem?, set, get_elem?-set_ne,
  Option-cases, inl, inr,
}
use network_programming_assi.BigFs.Receiver.Buffers.{
  Half, Buffers, read_round, copy_to_string, finish,
}
use network_programming_assi.BigFs.Receiver.Copy.{Reads, IsText, copy_string-here}
use network_programming_assi.BigFs.Receiver.Refine.{deliver, take}

abbrev pub max_size : ℕ
max_size = 1024

abbrev pub block_size : ℕ
block_size = 1_024_000

-- fileNameServer.c
unfoldable pub name_server_copy : Buffers → Outcome (Str × Buffers)
name_server_copy = copy_to_string max_size

unfoldable pub name_server_read : Str → Buffers → Buffers
name_server_read = read_round max_size

-- fileDataServer.c
unfoldable pub data_server_copy : Buffers → Outcome (Str × Buffers)
data_server_copy = copy_to_string block_size

unfoldable pub data_server_read : Str → Buffers → Buffers
data_server_read = read_round block_size

-- Client.c, `copyToString` and `readfromName`
unfoldable pub client_copy : Buffers → Outcome (Str × Buffers)
client_copy = copy_to_string max_size

unfoldable pub client_read : Str → Buffers → Buffers
client_read = read_round max_size

-- Client.c, `datacopyToString` and a round of `readfromData`: the buffers of the data server `i`.
abbrev put_back : ℕ → List Buffers → Outcome (Str × Buffers) → Outcome (Str × List Buffers)
put_back i bs r = r >>= λ t. ok (t.0, set bs i t.1)

abbrev at_index : Option Buffers → Outcome Buffers
at_index none = fault
at_index (some b) = ok b

unfoldable pub data_copy : ℕ → List Buffers → Outcome (Str × List Buffers)
data_copy i bs = do b ← at_index (get_elem? bs i); put_back i bs (copy_to_string block_size b)

abbrev read_at : ℕ → Str → List Buffers → Option Buffers → List Buffers
read_at i chunk bs none = bs
read_at i chunk bs (some b) = set bs i (read_round block_size chunk b)

unfoldable pub data_read : ℕ → Str → List Buffers → List Buffers
data_read i chunk bs = read_at i chunk bs (get_elem? bs i)

-- The text of a copy, or why there is none.
abbrev pub text {ℓ} : {A : Type ℓ} → Outcome (Str × A) → Outcome Str
text r = r >>= λ t. ok t.0

get_elem?-data_read :
    (i j : ℕ) (chunk : Str) (bs : List Buffers)
    → i ≢ j
    → get_elem? (data_read i chunk bs) j ≡ get_elem? bs j
unfolding data_read
get_elem?-data_read i j chunk bs ne = elim (Option-cases (get_elem? bs i)) [
  | inl e ↦ rw e
  | inr (b, e) ↦ rw e (get_elem?-set_ne bs (read_round block_size chunk b) ne)
]

text-put_back :
    (i : ℕ) (bs : List Buffers) (r : Outcome (Str × Buffers)) → text (put_back i bs r) ≡ text r
text-put_back i bs (ok (w, b)) = refl
text-put_back i bs _ = refl

text-data_copy :
    (i : ℕ) (bs : List Buffers)
    → text (data_copy i bs)
      ≡ (at_index (get_elem? bs i) >>= λ b. text (copy_to_string block_size b))
unfolding data_copy
text-data_copy i bs = elim (Option-cases (get_elem? bs i)) [
  | inl e ↦ rw e
  | inr (b, e) ↦ rw e (text-put_back i bs (copy_to_string block_size b))
]

-- Bytes that arrive from one data server leave the string that is taken next from another as it
-- is.
pub data_copy-data_read :
    (i j : ℕ) (chunk : Str) (bs : List Buffers)
    → i ≢ j
    → text (data_copy j (data_read i chunk bs)) ≡ text (data_copy j bs)
data_copy-data_read i j chunk bs ne =
    text-data_copy j (data_read i chunk bs)
    ∙ rw (get_elem?-data_read i j chunk bs ne) (sym (text-data_copy j bs))

-- When the last string in a full second half ends where the half ends, and the thread that reads
-- the socket has not run since, the next copy gives the first string of the first half once more.
pub copy_to_string-stale :
    (limit : ℕ) (h g : Half) (v w : Str)
    → IsText v
    → IsText w
    → Reads h.bytes 0 (v ++ 0 ∷ [])
    → length v < h.start
    → Reads g.bytes g.cur (w ++ 0 ∷ [])
    → g.cur + length w + 1 ≡ g.start
    → limit < g.start
    → deliver limit
        (take ∷ take ∷ [])
        (record { first = h; second = g; bufsel = true; cursel = true })
      ≡ ok (w ∷ v ∷ [])
unfolding deliver finish
copy_to_string-stale limit h g v w text_v text_w reads_v lt reads_w end full =
    let moved : (leb g.start (g.cur + length w + 1) && ltb limit g.start) ≡ true = ground arith in
    rw (
      copy_string-here 2 limit [] (record { first = h; second = g; bufsel = true; cursel = true }) w
          text_w reads_w (omega arith),
      moved,
      copy_string-here 2 limit []
          (record {
            first = record h { cur = 0 };
            second = record g { cur = g.cur + length w + 1 };
            bufsel = true;
            cursel = false;
          })
          v text_v reads_v (omega arith),
    )

-- ===== src/BigFs/Receiver/Copy.antt =====
-- `copyToString` of Assignment2P1 on what has arrived.
use network_programming_assi.Base.{
  ℕ, zero, suc, ◌+◌, ◌<◌, ◌≡◌, ◌≢◌, refl, ◌∙◌, ap, ap₂, sym, Str, [], ◌∷◌, ◌++◌, Bool, true, false,
  not, ◌&&◌, Outcome, ok, out_of_fuel, ◌==◌, ltb, leb, length, arith, append_assoc, append-nil,
}
use network_programming_assi.BigFs.Receiver.Buffers.{
  Half, Buffers, half, set_half, Taken, copy_half, finish, cross, copy_string,
}

-- The bytes from index `i` on begin with `w`.
abbrev pub Reads : (ℕ → ℕ) → ℕ → Str → Type 0
Reads bytes i [] = Unit
Reads bytes i (b ∷ w) = (bytes i ≡ b) × Reads bytes (i + 1) w

-- A C string holds no NUL.
abbrev pub IsText : Str → Type 0
IsText [] = Unit
IsText (c ∷ w) = ((c == 0) ≡ false) × IsText w

pub step_again :
    (k limit : ℕ) (h : Half) (cur : ℕ) (buf : Str) (b : ℕ)
    → h.bytes cur ≡ b
    → (b == 0) ≡ false
    → cur + 1 < h.start
    → copy_half (suc k) limit h cur buf ≡ copy_half k limit h (cur + 1) (buf ++ b ∷ [])
unfolding copy_half
step_again k limit h cur buf b e ne lt =
    let t : leb h.start (cur + 1) ≡ false = ground arith in rw (e, ne, t)

abbrev taken : Bool → Str → ℕ → Outcome Taken
taken crossed text cur = ok (record { text = text; cur = cur; crossed = crossed })

stop :
    (k limit : ℕ) (h : Half) (cur : ℕ) (buf : Str)
    → h.bytes cur ≡ 0
    → copy_half (suc k) limit h cur buf ≡ taken false buf cur
unfolding copy_half
stop k limit h cur buf e = rw e

pub not_blocked :
    (limit : ℕ) (h : Half)
    → leb h.start h.cur ≡ false
    → (ltb h.start limit && leb h.start h.cur) ≡ false
not_blocked limit h e = ground arith

-- A string that ends in the half.
pub copy_half-ended :
    (k limit : ℕ) (h : Half) (cur : ℕ) (w buf : Str)
    → length w < k
    → IsText w
    → Reads h.bytes cur (w ++ 0 ∷ [])
    → cur + length w < h.start
    → copy_half k limit h cur buf ≡ taken false (buf ++ w) (cur + length w)
copy_half-ended zero limit h cur w buf few text reads lt = absurd (omega arith)
copy_half-ended (suc k) limit h cur [] buf few text reads lt =
    stop k limit h cur buf reads.0 ∙ ap₂ (taken false) (sym (append-nil buf)) (omega arith)
copy_half-ended (suc k) limit h cur (b ∷ w) buf few text reads lt =
    step_again k limit h cur buf b reads.0 text.0 (omega arith)
    ∙ copy_half-ended k limit h (cur + 1) w (buf ++ b ∷ []) (omega arith) text.1 reads.1
        (omega arith)
    ∙ ap₂ (taken false) (append_assoc buf (b ∷ []) w) (omega arith)

step_across :
    (k limit : ℕ) (h : Half) (cur : ℕ) (buf : Str) (b : ℕ)
    → h.bytes cur ≡ b
    → (b == 0) ≡ false
    → h.start ≡ cur + 1
    → limit < h.start
    → copy_half (suc k) limit h cur buf ≡ taken true (buf ++ b ∷ []) (cur + 1)
unfolding copy_half
step_across k limit h cur buf b e ne end full =
    let t : (leb h.start (cur + 1) && ltb limit h.start) ≡ true = ground arith in rw (e, ne, t)

-- A string that fills the rest of a full half and goes on in the other half.
pub copy_half-crossed :
    (k limit : ℕ) (h : Half) (cur : ℕ) (b : ℕ) (w buf : Str)
    → length w < k
    → IsText (b ∷ w)
    → Reads h.bytes cur (b ∷ w)
    → h.start ≡ cur + length (b ∷ w)
    → limit < h.start
    → copy_half k limit h cur buf ≡ taken true (buf ++ b ∷ w) (cur + length (b ∷ w))
copy_half-crossed zero limit h cur b w buf few text reads end full = absurd (omega arith)
copy_half-crossed (suc k) limit h cur b [] buf few text reads end full =
    step_across k limit h cur buf b reads.0 text.0 (omega arith) full
    ∙ ap (taken true _) (omega arith)
copy_half-crossed (suc k) limit h cur b (c ∷ w) buf few text reads end full =
    step_again k limit h cur buf b reads.0 text.0 (omega arith)
    ∙ copy_half-crossed k limit h (cur + 1) c w (buf ++ b ∷ []) (omega arith) text.1 reads.1
        (omega arith) full
    ∙ ap₂ (taken true) (append_assoc buf (b ∷ []) (c ∷ w)) (omega arith)

-- With the fuel that it is given the loop in one half ends or waits.
pub copy_half-ne-out_of_fuel :
    (k limit : ℕ) (h : Half) (cur : ℕ) (buf : Str)
    → h.start < cur + k
    → 0 < k
    → copy_half k limit h cur buf ≢ out_of_fuel
unfolding copy_half
copy_half-ne-out_of_fuel zero limit h cur buf few some = absurd (omega arith)
copy_half-ne-out_of_fuel (suc k) limit h cur buf few some =
    ground (arith, copy_half-ne-out_of_fuel k limit h (cur + 1) (buf ++ h.bytes cur ∷ []))

-- When the string and its NUL have arrived in the half that is being taken, `copyToString` gives
-- exactly that string and passes the NUL.
pub copy_string-here :
    (k limit : ℕ) (buf : Str) (s : Buffers) (w : Str)
    → IsText w
    → Reads (half s.cursel s).bytes (half s.cursel s).cur (w ++ 0 ∷ [])
    → (half s.cursel s).cur + length w < (half s.cursel s).start
    → copy_string (suc k) limit buf s
      ≡ ok (buf ++ w, finish limit ((half s.cursel s).cur + length w) s)
unfolding copy_string
copy_string-here k limit buf s w text reads lt =
    let h = half s.cursel s in
    let more : leb h.start h.cur ≡ false = ground arith in
    let done =
      copy_half-ended (suc (suc h.start)) limit h h.cur w buf (omega arith) text reads lt in
    rw (not_blocked limit h more, done)

set_half-other :
    (sel : Bool) (h : Half) (c : Bool) (s : Buffers)
    → half (not sel) (record (set_half sel h s) { cursel = c }) ≡ half (not sel) s
set_half-other false h c s = refl
set_half-other true h c s = refl

half-cross :
    (cur : ℕ) (s : Buffers) → half (cross cur s).cursel (cross cur s) ≡ half (not s.cursel) s
unfolding cross
half-cross cur s = set_half-other s.cursel _ (not s.cursel) s

copy_string-cross :
    (k limit : ℕ) (s : Buffers) (b : ℕ) (v : Str)
    → IsText (b ∷ v)
    → Reads (half s.cursel s).bytes (half s.cursel s).cur (b ∷ v)
    → (half s.cursel s).start ≡ (half s.cursel s).cur + length (b ∷ v)
    → limit < (half s.cursel s).start
    → copy_string (suc k) limit [] s ≡ copy_string k limit (b ∷ v) (cross (half s.cursel s).start s)
unfolding copy_string
copy_string-cross k limit s b v text reads end full =
    let h = half s.cursel s in
    let more : leb h.start h.cur ≡ false = ground arith in
    let done =
      copy_half-crossed (suc (suc h.start)) limit h h.cur b v [] (omega arith) text reads end
        full in
    rw (not_blocked limit h more, done, ← end)

-- When a string without NUL fills the rest of a full half and ends in the other half, where it
-- begins at the front, `copyToString` gives the two parts as one string and goes on in the other
-- half.
pub copy_string-across :
    (k limit : ℕ) (s : Buffers) (b : ℕ) (v w : Str)
    → IsText (b ∷ v)
    → IsText w
    → Reads (half s.cursel s).bytes (half s.cursel s).cur (b ∷ v)
    → (half s.cursel s).start ≡ (half s.cursel s).cur + length (b ∷ v)
    → limit < (half s.cursel s).start
    → Reads (half (not s.cursel) s).bytes 0 (w ++ 0 ∷ [])
    → (half (not s.cursel) s).cur ≡ 0
    → length w < (half (not s.cursel) s).start
    → copy_string (suc (suc k)) limit [] s
      ≡ ok ((b ∷ v) ++ w, finish limit (length w) (cross (half s.cursel s).start s))
copy_string-across k limit s b v w text text' reads end full reads' front more =
    let over = half-cross (half s.cursel s).start s in
    copy_string-cross (suc k) limit s b v text reads end full
    ∙ copy_string-here k limit (b ∷ v) (cross (half s.cursel s).start s) w text'
        (rw (over, front) reads') (rw (over, front) (omega arith))
    ∙ ap (λ n. ok ((b ∷ v) ++ w, finish limit n (cross (half s.cursel s).start s)))
        (rw (over, front) (omega arith))

-- With the fuel that `copyToString` gives it, the loop in one half always ends: it gives text, waits,
-- or goes to the other half.
pub copy_half-ends :
    (limit : ℕ) (h : Half) (cur : ℕ) (buf : Str)
    → copy_half (suc (suc h.start)) limit h cur buf ≢ out_of_fuel
copy_half-ends limit h cur buf =
    copy_half-ne-out_of_fuel (suc (suc h.start)) limit h cur buf (omega arith) (omega arith)

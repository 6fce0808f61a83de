-- ===== src/BigFs/Receiver/Delivery.antt =====
-- The strings that `copyToString` of Assignment2P1 gives, whatever the order in which bytes arrive
-- and strings are taken.
use network_programming_assi.Base.{
  ℕ, zero, suc, ◌+◌, ◌-◌, ◌*◌, ◌<◌, ◌≤◌, ◌≡◌, refl, ◌∙◌, ap, sym, Str, List, [], ◌∷◌, ◌++◌, Bool,
  true, false, ◌&&◌, ok, blocked, ◌==◌, ltb, leb, length, length-append, arith, take, append_assoc,
  ==_iff,
}
use mathlib.Core.Path.{subst}
use network_programming_assi.BigFs.Receiver.Buffers.{
  Half, Buffers, store, fill, switch, read_round, copy_half, finish, copy_to_string,
}
use network_programming_assi.BigFs.Receiver.Copy.{Reads, IsText, step_again, copy_string-here}

store-before :
    (at : ℕ) (chunk : Str) (bytes : ℕ → ℕ) (i : ℕ) → i < at → store at chunk bytes i ≡ bytes i
unfolding store
store-before at [] bytes i lt = refl
store-before at (b ∷ chunk) bytes i lt =
    let ne : (i == at) ≡ false = ground arith in
    rw ne (store-before (at + 1) chunk bytes i (omega arith))

Reads-ext :
    (f g : ℕ → ℕ) (i : ℕ) (w : Str)
    → ((j : ℕ) → i ≤ j → j < i + length w → g j ≡ f j)
    → Reads f i w
    → Reads g i w
Reads-ext f g i [] same r = tt
Reads-ext f g i (b ∷ w) same r = (
  same i (omega arith) (omega arith) ∙ r.0,
  Reads-ext f g (i + 1) w (λ j a b. same j (omega arith) (omega arith)) r.1,
)

Reads-store : (at : ℕ) (chunk : Str) (bytes : ℕ → ℕ) → Reads (store at chunk bytes) at chunk
unfolding store
Reads-store at [] bytes = tt
Reads-store at (b ∷ chunk) bytes =
    let here : (at == at) ≡ true = (==_iff at at).1 refl in
    (
      rw here,
      Reads-ext (store (at + 1) chunk bytes) (store at (b ∷ chunk) bytes) (at + 1) chunk
          (λ j a c. let ne : (j == at) ≡ false = ground arith in rw ne)
          (Reads-store (at + 1) chunk bytes),
    )

Reads-append :
    (f : ℕ → ℕ) (i j : ℕ) (v w : Str)
    → j ≡ i + length v
    → Reads f i v
    → Reads f j w
    → Reads f i (v ++ w)
Reads-append f i j [] w e r t = subst (λ k. Reads f k w) (omega arith) t
Reads-append f i j (b ∷ v) w e r t = (r.0, Reads-append f (i + 1) j v w (omega arith) r.1 t)

Reads-drop : (f : ℕ → ℕ) (i j : ℕ) (v w : Str) → j ≡ i + length v → Reads f i (v ++ w) → Reads f j w
Reads-drop f i j [] w e r = subst (λ k. Reads f k w) (omega arith) r
Reads-drop f i j (b ∷ v) w e r = Reads-drop f (i + 1) j v w (omega arith) r.1

Reads-keep : (f : ℕ → ℕ) (i : ℕ) (v w : Str) → Reads f i (v ++ w) → Reads f i v
Reads-keep f i [] w r = tt
Reads-keep f i (b ∷ v) w r = (r.0, Reads-keep f (i + 1) v w r.1)

and-false : (b : Bool) → (b && false) ≡ false
and-false true = refl
and-false false = refl

step_waits :
    (k limit : ℕ) (h : Half) (cur : ℕ) (buf : Str) (b : ℕ)
    → h.bytes cur ≡ b
    → (b == 0) ≡ false
    → h.start ≡ cur + 1
    → h.start ≤ limit
    → copy_half (suc k) limit h cur buf ≡ blocked
unfolding copy_half
step_waits k limit h cur buf b e ne end small =
    let t : leb h.start (cur + 1) ≡ true = ground arith in
    let u : ltb limit h.start ≡ false = ground arith in rw (e, ne, t, u)

-- Both sides work on the first half.
abbrev pub front : Half → Half → Buffers
front h g = record { first = h; second = g; bufsel = false; cursel = false }

-- `u` has arrived in the half and was not taken.
pub record Holds (h : Half) (u : Str) : Type 0 where
  pub reads : Reads h.bytes h.cur u
  pub count : h.cur + length u ≡ h.start

take-all {ℓ} : {A : Type ℓ} (n : ℕ) (xs : List A) → length xs ≤ n → take n xs ≡ xs
take-all zero [] h = refl
take-all zero (x ∷ xs) h = absurd (omega arith)
take-all (suc n) [] h = refl
take-all (suc n) (x ∷ xs) h = ap (λ l. x ∷ l) (take-all n xs (omega arith))

pub read_round-fill :
    (limit : ℕ) (chunk : Str) (h g : Half)
    → h.start + length chunk ≤ limit
    → read_round limit chunk (front h g) ≡ front (fill chunk h) g
unfolding read_round switch
read_round-fill limit chunk h g room =
    let small : ltb limit h.start ≡ false = ground arith in
    rw (small, take-all (2 * limit - h.start) chunk (omega arith))

pub fill-Holds : {h : Half} {u : Str} (chunk : Str) → Holds h u → Holds (fill chunk h) (u ++ chunk)
unfolding fill
fill-Holds {h} {u} chunk holds = record {
  reads =
      Reads-append (store h.start chunk h.bytes) h.cur h.start u chunk (sym holds.count)
        (Reads-ext h.bytes _ h.cur u
          (λ j a b. store-before h.start chunk h.bytes j (omega (arith, holds.count))) holds.reads)
        (Reads-store h.start chunk h.bytes);
  count = omega (arith, length-append u chunk, holds.count);
}

-- The half after a string of `n` bytes was taken.
abbrev pub passed : ℕ → Half → Half
passed n h = record h { cur = h.cur + n + 1 }

abbrev pub rewound : Half → Half
rewound g = record g { cur = 0 }

pub passed-Holds : {h : Half} (w u : Str) → Holds h (w ++ 0 ∷ u) → Holds (passed (length w) h) u
passed-Holds {h} w u holds = record {
  reads =
      Reads-drop h.bytes h.cur (h.cur + length w + 1) (w ++ 0 ∷ []) u
        (omega (arith, length-append w (0 ∷ []))) (rw (append_assoc w (0 ∷ []) u) holds.reads);
  count = omega (arith, length-append w (0 ∷ u), holds.count);
}

pub copy-front :
    (limit : ℕ) (h g : Half) (w u : Str)
    → Holds h (w ++ 0 ∷ u)
    → IsText w
    → h.start ≤ limit
    → copy_to_string limit (front h g) ≡ ok (w, front (passed (length w) h) (rewound g))
unfolding finish
copy-front limit h g w u holds text small =
    let full : ltb limit h.start ≡ false = ground arith in
    copy_string-here 2 limit [] (front h g) w text
      (Reads-keep h.bytes h.cur (w ++ 0 ∷ []) u (rw (append_assoc w (0 ∷ []) u) holds.reads))
      (omega (arith, length-append w (0 ∷ u), holds.count))
    ∙ rw (full, and-false (leb h.start (h.cur + length w + 1)))

-- Text without its NUL makes the copy wait.
pub copy_half-waits :
    (k limit : ℕ) (h : Half) (cur : ℕ) (b : ℕ) (u buf : Str)
    → length u < k
    → IsText (b ∷ u)
    → Reads h.bytes cur (b ∷ u)
    → cur + length (b ∷ u) ≡ h.start
    → h.start ≤ limit
    → copy_half k limit h cur buf ≡ blocked
copy_half-waits zero limit h cur b u buf few text reads end small = absurd (omega arith)
copy_half-waits (suc k) limit h cur b [] buf few text reads end small =
    step_waits k limit h cur buf b reads.0 text.0 (omega arith) small
copy_half-waits (suc k) limit h cur b (c ∷ u) buf few text reads end small =
    step_again k limit h cur buf b reads.0 text.0 (omega arith)
    ∙ copy_half-waits k limit h (cur + 1) c u (buf ++ b ∷ []) (omega arith) text.1 reads.1
        (omega arith) small

-- ===== src/Labs/Checksum.antt =====
-- `checksum` of labs/2016A7PS0064P_lab8/read_icmp.c.
use network_programming_assi.Base.{
  ℕ, zero, suc, ◌+◌, ◌-◌, ◌*◌, ◌/◌, ◌%◌, ◌^◌, ◌<◌, ◌≤◌, ◌≡◌, ap, ◌∙◌, Str, [], ◌∷◌, ◌++◌, arith,
}

-- The loop over the 16-bit words, in the byte order of a little-endian machine, and the byte that
-- may be left. `unsigned int` wraps at 2 ^ 32.
unfoldable pub sum_words : ℕ → Str → ℕ
sum_words sum [] = sum
sum_words sum (b ∷ []) = (sum + b) % 2 ^ 32
sum_words sum (lo ∷ hi ∷ buf) = sum_words ((sum + (lo + 256 * hi)) % 2 ^ 32) buf

-- The carries are added twice; `~` is taken in 32 bits and cut to 16.
unfoldable pub fold : ℕ → ℕ
fold sum =
    let once = sum / 2 ^ 16 + sum % 2 ^ 16 in
    let twice = (once + once / 2 ^ 16) % 2 ^ 32 in (2 ^ 32 - 1 - twice) % 2 ^ 16

unfoldable pub checksum : Str → ℕ
checksum b = fold (sum_words 0 b)

-- A result is a 16-bit word.
pub checksum-lt : (b : Str) → checksum b < 2 ^ 16
unfolding checksum fold
checksum-lt b = omega arith

-- The number of 16-bit words of a text of even length.
pub data HasWords : ℕ → Str → Type 0 where
  nil : HasWords zero []
  word :
      {n : ℕ} {s : Str} (lo hi : ℕ)
      → lo < 256
      → hi < 256
      → HasWords n s
      → HasWords (suc n) (lo ∷ hi ∷ s)

-- The sum without wrap.
total : Str → ℕ
total [] = 0
total (b ∷ []) = b
total (lo ∷ hi ∷ buf) = lo + 256 * hi + total buf

total-le : {n : ℕ} {s : Str} → HasWords n s → total s ≤ 65535 * n
unfolding total
total-le nil = omega arith
total-le (word lo hi l h rest) = omega (arith, total-le rest)

sum_words-total :
    {n : ℕ} {s : Str} (sum : ℕ)
    → HasWords n s
    → sum + 65535 * n < 2 ^ 32
    → sum_words sum s ≡ sum + total s
unfolding sum_words total
sum_words-total sum nil small = omega arith
sum_words-total sum (word {s} lo hi l h rest) small =
    let exact : (sum + (lo + 256 * hi)) % 2 ^ 32 ≡ sum + (lo + 256 * hi) = omega arith in
    rw exact (omega (arith, sum_words-total (sum + (lo + 256 * hi)) rest (omega arith)))

total-append :
    {n : ℕ} {s : Str} (lo hi : ℕ)
    → HasWords n s
    → total (s ++ lo ∷ hi ∷ []) ≡ total s + (lo + 256 * hi)
unfolding total
total-append lo hi nil = omega arith
total-append lo hi (word a b l h rest) = omega (arith, total-append lo hi rest)

HasWords-append :
    {n : ℕ} {s : Str} (lo hi : ℕ)
    → lo < 256
    → hi < 256
    → HasWords n s
    → HasWords (suc n) (s ++ lo ∷ hi ∷ [])
HasWords-append lo hi l h nil = word lo hi l h nil
HasWords-append lo hi l h (word a b l' h' rest) = word a b l' h' (HasWords-append lo hi l h rest)

-- The ones' complement sum of the words and the checksum has all bits set.
fold-cancels : (t : ℕ) → t < 2 ^ 32 - 2 ^ 16 → fold (t + fold t) ≡ 0
unfolding fold
fold-cancels t small = omega arith

checksum-total : (n : ℕ) (s : Str) → HasWords n s → n ≤ 65536 → checksum s ≡ fold (total s)
unfolding checksum
checksum-total n s words few = ap fold (sum_words-total 0 words (omega arith) ∙ omega arith)

-- A packet of at most 65,535 words to which its checksum is added, low byte first, has the
-- checksum zero: the test that a receiver makes.
pub checksum-verifies :
    (n : ℕ) (s : Str)
    → HasWords n s
    → n < 65536
    → checksum (s ++ (checksum s % 256) ∷ (checksum s / 256) ∷ []) ≡ 0
checksum-verifies n s words few =
    let c = checksum s in
    let sums = checksum-total n s words (omega arith) in
    let more =
      HasWords-append (c % 256) (c / 256) (omega arith) (omega (arith, checksum-lt s)) words in
    checksum-total (suc n) (s ++ (c % 256) ∷ (c / 256) ∷ []) more (omega arith)
    ∙ ap fold (omega (arith, total-append (c % 256) (c / 256) words))
    ∙ ap (λ k. fold (total s + k)) sums
    ∙ fold-cancels (total s) (omega (arith, total-le words))

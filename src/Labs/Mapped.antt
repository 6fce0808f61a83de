-- ===== src/Labs/Mapped.antt =====
-- labs/2016A7PS0064P_lab6/code/mmap: write.c and read.c, which map the same file of ints.
use network_programming_assi.Base.{
  ℕ, zero, suc, ◌+◌, ◌*◌, ◌<◌, ◌≤◌, ◌≡◌, ◌⊎◌, inl, inr, Bool-cases, refl, ap, sym, ◌∙◌, Option,
  none, some, List, [], ◌∷◌, ◌++◌, Outcome, ok, fault, ◌>>=◌, ◌>>◌, require, ltb, lt→ltb, get_elem?,
  get_elem?-set_self, get_elem?-set_ne, set, take, length, length-set, length-take, replicate,
  arith,
}

-- The writer's loop, with `k` rounds to go from the index `i` on.
unfoldable pub write_ints : ℕ → ℕ → List ℕ → Outcome (List ℕ)
write_ints zero i mem = ok mem
write_ints (suc k) i mem = do require (ltb i (length mem)); write_ints k (i + 1) (set mem i (2 * i))

-- write.c: a new file of `num_ints` zeros is mapped. The mapping ends with its page, where `page` ints
-- behind the file can be written too; they do not get into the file.
unfoldable pub write_file : ℕ → ℕ → Outcome (List ℕ)
write_file num_ints page = do
  mem ← write_ints num_ints 1 (replicate (num_ints + page) 0)
  ok (take num_ints mem)

abbrev pub element : Option ℕ → Outcome ℕ
element none = fault
element (some n) = ok n

-- The reader's loop: the numbers and the ints that it prints.
unfoldable pub read_ints : ℕ → ℕ → List ℕ → Outcome (List (ℕ × ℕ))
read_ints zero i mem = ok []
read_ints (suc k) i mem = do
  n ← element (get_elem? mem i)
  printed ← read_ints k (i + 1) mem
  ok ((i, n) ∷ printed)

-- read.c, which finds the file and the ints behind it on its page.
unfoldable pub read_file : ℕ → List ℕ → List ℕ → Outcome (List (ℕ × ℕ))
read_file num_ints file page = read_ints num_ints 1 (file ++ page)

-- The numbers from `i` on with their doubles.
abbrev pub doubles : ℕ → ℕ → List (ℕ × ℕ)
doubles zero i = []
doubles (suc k) i = (i, 2 * i) ∷ doubles k (i + 1)

-- What the writer's loop leaves.
abbrev Written : ℕ → ℕ → List ℕ → List ℕ → Type 0
Written k i mem mem' =
    (length mem' ≡ length mem)
    × ((j : ℕ) → i ≤ j → j < i + k → get_elem? mem' j ≡ some (2 * j))
    × ((j : ℕ) → j < i → get_elem? mem' j ≡ get_elem? mem j)

at_or_after : (i j : ℕ) → i ≤ j → (j ≡ i) ⊎ (i + 1 ≤ j)
at_or_after i j le = elim (Bool-cases (ltb i j)) [
  | inl e ↦ inr (ground arith)
  | inr e ↦ inl (ground arith)
]

write_ints-Written :
    (k i : ℕ) (mem : List ℕ)
    → i + k ≤ length mem
    → (mem' : List ℕ) × (write_ints k i mem ≡ ok mem') × Written k i mem mem'
unfolding write_ints
write_ints-Written zero i mem le =
    (mem, refl, (refl, (λ j ge lt. absurd (omega arith)), (λ j lt. refl)))
write_ints-Written (suc k) i mem le =
    let mem1 = set mem i (2 * i) in
    let size = length-set mem i (2 * i) in
    let (mem', run, (size', there, others)) =
      write_ints-Written k (i + 1) mem1 (omega (arith, size)) in
    let here : get_elem? mem' i ≡ some (2 * i) =
      others i (omega arith) ∙ get_elem?-set_self mem i (2 * i) (omega arith) in
    (
      mem',
      rw (lt→ltb i (length mem) (omega arith)) run,
      (
        size' ∙ size,
        (λ j ge lt. elim (at_or_after i j ge) [
          | inl e ↦ rw e here
          | inr later ↦ there j later (omega arith)
        ]),
        (λ j lt. others j (omega arith) ∙ get_elem?-set_ne mem (2 * i) (λ e. absurd (omega arith))),
      ),
    )

get_elem?-take : (n j : ℕ) (xs : List ℕ) → j < n → get_elem? (take n xs) j ≡ get_elem? xs j
get_elem?-take zero j xs lt = absurd (omega arith)
get_elem?-take (suc n) j [] lt = refl
get_elem?-take (suc n) zero (x ∷ xs) lt = refl
get_elem?-take (suc n) (suc j) (x ∷ xs) lt = get_elem?-take n j xs (omega arith)

get_elem?-append :
    (xs ys : List ℕ) (j : ℕ) → j < length xs → get_elem? (xs ++ ys) j ≡ get_elem? xs j
get_elem?-append [] ys j lt = absurd (omega arith)
get_elem?-append (x ∷ xs) ys zero lt = refl
get_elem?-append (x ∷ xs) ys (suc j) lt = get_elem?-append xs ys j (omega arith)

get_elem?_next : (xs : List ℕ) (y : ℕ) (ys : List ℕ) → get_elem? (xs ++ y ∷ ys) (length xs) ≡ some y
get_elem?_next [] y ys = refl
get_elem?_next (x ∷ xs) y ys = get_elem?_next xs y ys

read_ints_step :
    (k i n : ℕ) (mem : List ℕ) (printed : List (ℕ × ℕ))
    → get_elem? mem i ≡ some n
    → read_ints k (i + 1) mem ≡ ok printed
    → read_ints (suc k) i mem ≡ ok ((i, n) ∷ printed)
unfolding read_ints
read_ints_step k i n mem printed e run = rw (e, run) refl

-- The reader's loop up to the last of its rounds, whose index is `end` and whose int is `y`.
read_ints-doubles :
    (k i end y : ℕ) (mem : List ℕ)
    → end ≡ i + k
    → ((j : ℕ) → i ≤ j → j < end → get_elem? mem j ≡ some (2 * j))
    → get_elem? mem end ≡ some y
    → read_ints (suc k) i mem ≡ ok (doubles k i ++ (end, y) ∷ [])
read_ints-doubles zero i end y mem e there last =
    let same : i ≡ end = omega arith in
    read_ints_step 0 i y mem [] (ap (get_elem? mem) same ∙ last) (unfold read_ints in refl)
    ∙ ap (λ (n : ℕ). ok ((n, y) ∷ [])) same
read_ints-doubles (suc k) i end y mem e there last =
    read_ints_step (suc k) i (2 * i) mem (doubles k (i + 1) ++ (end, y) ∷ [])
      (there i (omega arith) (omega arith))
      (read_ints-doubles k (i + 1) end y mem (omega arith) (λ j ge lt. there j (omega arith) lt)
        last)

length-replicate : (k : ℕ) → length (replicate {A = ℕ} k 0) ≡ k
length-replicate zero = refl
length-replicate (suc k) = ap suc (length-replicate k)

-- If the page has room behind the file, the reader prints every number with its double, as they were
-- written, but the last: the int with the index NUMINTS is behind the file, and is whatever its page
-- holds there. NUMINTS is any number but 0.
pub read_file-write_file :
    (n page y : ℕ) (ys : List ℕ)
    → 0 < page
    → (file : List ℕ) × (write_file (suc n) page ≡ ok file)
      × (length file ≡ suc n)
      × (read_file (suc n) file (y ∷ ys) ≡ ok (doubles n 1 ++ (suc n, y) ∷ []))
unfolding write_file read_file
read_file-write_file n page y ys more =
    let size = length-replicate (suc n + page) in
    let (mem, run, (size', there, others)) =
      write_ints-Written (suc n) 1 (replicate (suc n + page) 0) (omega (arith, size)) in
    let file = take (suc n) mem in
    let whole : length file ≡ suc n = length-take (suc n) mem ∙ omega (arith, size, size') in
    (
      file,
      rw run refl,
      whole,
      read_ints-doubles n 1 (suc n) y (file ++ y ∷ ys) (omega arith)
          (λ j ge lt.
            get_elem?-append file (y ∷ ys) j (omega (arith, whole))
            ∙ get_elem?-take (suc n) j mem lt
            ∙ there j ge (omega arith))
          (ap (get_elem? (file ++ y ∷ ys)) (sym whole) ∙ get_elem?_next file y ys),
    )

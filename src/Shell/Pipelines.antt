-- ===== src/Shell/Pipelines.antt =====
-- How `pipecommand` of Assignment1P1/functions.c cuts a command at its pipes.
use network_programming_assi.Base.{
  ℕ, zero, suc, ◌+◌, ◌-◌, ◌≡◌, refl, ap, sym, ◌∙◌, inl, inr, Option, none, some, List, [], ◌∷◌,
  Outcome, ok, fault, ◌>>=◌, Str, codes, str_eq, str_eq→eq, if◌then◌else◌, take, drop, get_elem?,
  length, length-drop, arith, Bool-cases,
}
use network_programming_assi.Shell.Redirections.{index_from, strinarr}

unfoldable pub count_pipes : List Str → ℕ
count_pipes [] = 0
count_pipes (w ∷ ws) = (if str_eq w (codes "|") then 1 else 0) + count_pipes ws

-- `subarray(argv, start, end - 1)`
unfoldable pub subarray : List Str → ℕ → ℕ → List Str
subarray argv start end = take (end - start) (drop start argv)

-- The word whose program `getfile` looks for. Behind the last argument stands NULL, which `getfile`
-- passes to `strcat`.
abbrev pub stage_word : Option Str → Outcome Str
stage_word none = fault
stage_word (some w) = ok w

-- A stage that ends at the next pipe, and what the loop does from there on.
unfoldable pub stage_at :
    List Str
    → ℕ
    → Option ℕ
    → (ℕ → Outcome (List (Str × List Str)))
    → Outcome (List (Str × List Str))
stage_at argv start none rest = fault
stage_at argv start (some index) rest = do
  w ← stage_word (get_elem? argv start)
  stages ← rest (index + 1)
  ok ((w, subarray argv start index) ∷ stages)

-- The loop, with `k` pipes ahead and `start` the index after the last pipe: for each stage the word
-- whose program `getfile` looks for, and the arguments. The last stage ends with the arguments.
unfoldable pub stages_from : ℕ → ℕ → List Str → Outcome (List (Str × List Str))
stages_from zero start argv = do
  w ← stage_word (get_elem? argv start)
  ok ((w, subarray argv start (length argv)) ∷ [])
stages_from (suc k) start argv =
    stage_at argv start (strinarr argv (codes "|") start) (λ next. stages_from k next argv)

unfoldable pub pipe_stages : List Str → Outcome (List (Str × List Str))
pipe_stages argv = stages_from (count_pipes argv) 0 argv

-- The arguments between the pipes.
abbrev push_arg : Str → List (List Str) → List (List Str)
push_arg w [] = (w ∷ []) ∷ []
push_arg w (s ∷ ss) = (w ∷ s) ∷ ss

unfoldable pub split_pipes : List Str → List (List Str)
split_pipes [] = [] ∷ []
split_pipes (w ∷ ws) =
    if str_eq w (codes "|") then [] ∷ split_pipes ws else push_arg w (split_pipes ws)

-- The first word of a stage that a pipe ends: if it has no arguments it is the pipe.
abbrev pub word_or_pipe : List Str → Str
word_or_pipe [] = codes "|"
word_or_pipe (w ∷ ws) = w

-- Each piece is a stage, and an empty last piece is a fault.
abbrev pub as_stages : List (List Str) → Outcome (List (Str × List Str))
as_stages [] = fault
as_stages ([] ∷ []) = fault
as_stages ((w ∷ ws) ∷ []) = ok ((w, w ∷ ws) ∷ [])
as_stages (s ∷ t ∷ ss) = as_stages (t ∷ ss) >>= λ stages. ok ((word_or_pipe s, s) ∷ stages)

-- The arguments before the first pipe, and those after it.
abbrev upto : List Str → List Str
upto [] = []
upto (w ∷ ws) = if str_eq w (codes "|") then [] else w ∷ upto ws

abbrev after : List Str → List Str
after [] = []
after (w ∷ ws) = if str_eq w (codes "|") then ws else after ws

-- A pipe that is ahead is found at the end of the stage.
find_pipe :
    (i k : ℕ) (ws : List Str)
    → count_pipes ws ≡ suc k
    → (index_from (codes "|") i ws ≡ some (i + length (upto ws)))
      × (take (length (upto ws)) ws ≡ upto ws)
      × (drop (length (upto ws) + 1) ws ≡ after ws)
      × (count_pipes (after ws) ≡ k)
      × (split_pipes ws ≡ upto ws ∷ split_pipes (after ws))
unfolding count_pipes index_from split_pipes
find_pipe i k [] e = absurd (omega arith)
find_pipe i k (w ∷ ws) e = elim (Bool-cases (str_eq w (codes "|"))) [
  | inl p ↦ rw p (ap some (omega arith), refl, refl, ground arith, refl)
  | inr p ↦
      let (found, taken, dropped, left, split) = find_pipe (suc i) k ws (ground arith) in
      let next : suc (length (upto ws)) + 1 ≡ suc (length (upto ws) + 1) = omega arith in
      rw (p, split)
        (
          found ∙ ap some (omega arith),
          ap (λ l. w ∷ l) taken,
          ap (λ n. drop n (w ∷ ws)) next ∙ dropped,
          left,
          refl,
        )
]

no_pipe : (ws : List Str) → count_pipes ws ≡ 0 → split_pipes ws ≡ ws ∷ []
unfolding count_pipes split_pipes
no_pipe [] e = refl
no_pipe (w ∷ ws) e = elim (Bool-cases (str_eq w (codes "|"))) [
  | inl p ↦ absurd (ground arith)
  | inr p ↦ rw (p, no_pipe ws (ground arith)) refl
]

drop_nil : (n : ℕ) → drop {A = Str} n [] ≡ []
drop_nil zero = refl
drop_nil (suc n) = refl

pub drop-drop : (a b : ℕ) (xs : List Str) → drop (a + b) xs ≡ drop b (drop a xs)
drop-drop zero b xs = ap (λ n. drop n xs) (omega arith)
drop-drop (suc a) b [] = drop_nil (suc a + b) ∙ sym (drop_nil b)
drop-drop (suc a) b (x ∷ xs) =
    let next : suc a + b ≡ suc (a + b) = omega arith in
    ap (λ n. drop n (x ∷ xs)) next ∙ drop-drop a b xs

pub take_all : (n : ℕ) (xs : List Str) → n ≡ length xs → take n xs ≡ xs
take_all zero [] e = refl
take_all zero (x ∷ xs) e = absurd (omega arith)
take_all (suc n) [] e = refl
take_all (suc n) (x ∷ xs) e = ap (λ l. x ∷ l) (take_all n xs (omega arith))

abbrev first : List Str → Option Str
first [] = none
first (w ∷ ws) = some w

get_elem?-drop : (i : ℕ) (argv : List Str) → get_elem? argv i ≡ first (drop i argv)
get_elem?-drop zero [] = refl
get_elem?-drop (suc i) [] = refl
get_elem?-drop zero (w ∷ ws) = refl
get_elem?-drop (suc i) (w ∷ ws) = get_elem?-drop i ws

first-upto :
    (k : ℕ) (ws : List Str) → count_pipes ws ≡ suc k → first ws ≡ some (word_or_pipe (upto ws))
unfolding count_pipes
first-upto k [] e = absurd (omega arith)
first-upto k (w ∷ ws) e = elim (Bool-cases (str_eq w (codes "|"))) [
  | inl p ↦ rw p (ap some (str_eq→eq w (codes "|") p))
  | inr p ↦ rw p refl
]

last_stage :
    (rest : List Str)
    → (stage_word (first rest) >>= λ w. ok ((w, rest) ∷ [])) ≡ as_stages (rest ∷ [])
last_stage [] = refl
last_stage (w ∷ ws) = refl

split_pipes-nonempty :
    (ws : List Str) → (s : List Str) × (ss : List (List Str)) × (split_pipes ws ≡ s ∷ ss)
unfolding split_pipes
split_pipes-nonempty [] = ([], [], refl)
split_pipes-nonempty (w ∷ ws) =
    let (s, ss, e) = split_pipes-nonempty ws in
    elim (Bool-cases (str_eq w (codes "|"))) [
      | inl p ↦ ([], split_pipes ws, rw p refl)
      | inr p ↦ (w ∷ s, ss, rw (p, e) refl)
    ]

as_stages-cons :
    (s ws : List Str)
    → (as_stages (split_pipes ws) >>= λ stages. ok ((word_or_pipe s, s) ∷ stages))
      ≡ as_stages (s ∷ split_pipes ws)
as_stages-cons s ws = let (t, ss, e) = split_pipes-nonempty ws in rw e refl

stages_from-split :
    (k start : ℕ) (argv : List Str)
    → count_pipes (drop start argv) ≡ k
    → stages_from k start argv ≡ as_stages (split_pipes (drop start argv))
unfolding stages_from stage_at subarray
stages_from-split zero start argv e =
    rw
      (
        get_elem?-drop start argv,
        take_all (length argv - start) (drop start argv) (sym (length-drop start argv)),
        no_pipe (drop start argv) e,
      )
      (last_stage (drop start argv))
stages_from-split (suc k) start argv e =
    let rest = drop start argv in
    let (found, taken, dropped, left, split) = find_pipe start k rest e in
    let index = start + length (upto rest) in
    let found_index : strinarr argv (codes "|") start ≡ some index = unfold strinarr in found in
    let there : drop (index + 1) argv ≡ after rest =
      ap (λ n. drop n argv) (sym (omega arith))
      ∙ drop-drop start (length (upto rest) + 1) argv
      ∙ dropped in
    let run = stages_from-split k (index + 1) argv (ap count_pipes there ∙ left) in
    let size : index - start ≡ length (upto rest) = omega arith in
    let head = get_elem?-drop start argv ∙ first-upto k rest e in
    let args : subarray argv start index ≡ upto rest = ap (λ n. take n rest) size ∙ taken in
    ap (λ o. stage_at argv start o (λ next. stages_from k next argv)) found_index
    ∙ rw (head, run, args, there, split) (as_stages-cons (upto rest) (after rest))

-- For every list of arguments, the stages that run are the arguments between the pipes, in order and
-- none left out, each with its first word, or with the pipe if it has none; only if nothing stands
-- after the last pipe, or there are no arguments, the code looks for a program with no name, which is
-- a fault.
pub pipe_stages-split_pipes : (argv : List Str) → pipe_stages argv ≡ as_stages (split_pipes argv)
unfolding pipe_stages
pipe_stages-split_pipes argv = stages_from-split (count_pipes argv) 0 argv refl

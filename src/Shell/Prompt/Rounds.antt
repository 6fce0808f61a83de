-- ===== src/Shell/Prompt/Rounds.antt =====
-- What the shell of Assignment1P1 does about a line.
use network_programming_assi.Base.{
  ℕ, zero, suc, ◌<◌, length-append, take, ◌≡◌, refl, ap, ◌∙◌, true, false, none, some, List, [],
  ◌∷◌, ◌++◌, append_assoc, map, Outcome, ok, fault, ◌>>=◌, Str, before, strtok, Without, has, ◌==◌,
  if◌then◌else◌, replicate, drop, length, arith,
}
use network_programming_assi.Shell.Jobs.{Slot, start_jobs, insert_job, get_next_job_id, next_id}
use network_programming_assi.Shell.Redirections.{Files}
use network_programming_assi.Shell.Prompt.{Step, Prompt, first_word, after_read, input_round, round}

-- What the buffer holds after the newlines are replaced.
abbrev lines : Str → Str
lines s = map (λ b. if b == b'\n' then 0 else b) s

first_line :
    (text rest : Str)
    → Without 0 text
    → Without b'\n' text
    → (has 0 (lines (text ++ b'\n' ∷ rest)) ≡ true)
      × (before 0 (lines (text ++ b'\n' ∷ rest)) ≡ text)
unfolding before
first_line [] rest full one = (refl, refl)
first_line (c ∷ text) rest (nul, full) (newline, one) =
    let (found, kept) = first_line text rest full one in
    rw (newline, nul, kept) (ground arith, refl)

filled : Str → Prompt → Str
filled bytes s = lines (bytes ++ drop (length bytes) s.buf)

-- What a round does about the text in the buffer, if it takes `bytes` from the input and leaves
-- `left`.
abbrev About : Files → Str → ℕ → Str → Str → Str → Prompt → Outcome (Step × Prompt)
About os path pid bytes left text s =
    first_word os path pid s.jobs text (strtok b' ' text) >>= λ step.
    ok (step, record s { buf = filled bytes s; input = left })

after_read-filled :
    (os : Files) (path : Str) (pid : ℕ) (bytes left text : Str) (s : Prompt)
    → has 0 (filled bytes s) ≡ true
    → before 0 (filled bytes s) ≡ text
    → after_read os path pid bytes left s ≡ About os path pid bytes left text s
unfolding after_read filled
after_read-filled os path pid bytes left text s found kept = rw (found, kept) refl

input_round-input :
    (os : Files) (path : Str) (pid : ℕ) (input : Str) (s : Prompt)
    → 0 < length input
    → input_round os path pid input s ≡ after_read os path pid (take 100 input) (drop 100 input) s
unfolding input_round
input_round-input os path pid [] s more = absurd (omega arith)
input_round-input os path pid (c ∷ input) s more = refl

filled-line :
    (text rest : Str) (s : Prompt)
    → Without 0 text
    → Without b'\n' text
    → (has 0 (filled (text ++ b'\n' ∷ rest) s) ≡ true)
      × (before 0 (filled (text ++ b'\n' ∷ rest) s) ≡ text)
unfolding filled
filled-line text rest s full one =
    let bytes = text ++ b'\n' ∷ rest in
    rw (append_assoc text (b'\n' ∷ rest) (drop (length bytes) s.buf))
      (first_line text (rest ++ drop (length bytes) s.buf) full one)

-- A line with its newline that is within the first `n` bytes.
take_line :
    (n : ℕ) (text rest : Str)
    → length text < n
    → (more : Str) × (take n (text ++ b'\n' ∷ rest) ≡ text ++ b'\n' ∷ more)
take_line zero text rest lt = absurd (omega arith)
take_line (suc n) [] rest lt = (take n rest, refl)
take_line (suc n) (c ∷ text) rest lt =
    let (more, taken) = take_line n text rest (omega arith) in (more, ap (λ l. c ∷ l) taken)

-- The line in the input before the newline is what the round is about.
round-line :
    (os : Files) (path : Str) (pid : ℕ) (arrived text rest : Str) (s : Prompt)
    → s.input ++ arrived ≡ text ++ b'\n' ∷ rest
    → length text < 100
    → Without 0 text
    → Without b'\n' text
    → (bytes : Str) × (round os path pid arrived s
        ≡ About os path pid bytes (drop 100 (text ++ b'\n' ∷ rest)) text s)
unfolding round
round-line os path pid arrived text rest s input fit full one =
    let (more, taken) = take_line 100 text rest fit in
    let (found, kept) = filled-line text more s full one in
    (
      text ++ b'\n' ∷ more,
      ap (λ l. input_round os path pid l s) input
          ∙ input_round-input os path pid (text ++ b'\n' ∷ rest) s
              (omega (arith, length-append text (b'\n' ∷ rest)))
          ∙ ap (λ b. after_read os path pid b (drop 100 (text ++ b'\n' ∷ rest)) s) taken
          ∙ after_read-filled os path pid (text ++ b'\n' ∷ more) (drop 100 (text ++ b'\n' ∷ rest))
              text s found kept,
    )

strtok_spaces : (n : ℕ) → strtok b' ' (replicate n b' ') ≡ none
unfolding strtok
strtok_spaces zero = refl
strtok_spaces (suc n) = strtok_spaces n

length-spaces : (n : ℕ) → length {A = ℕ} (replicate n b' ') ≡ n
length-spaces zero = refl
length-spaces (suc n) = ap suc (length-spaces n)

spaces-Without : (n c : ℕ) → (b' ' == c) ≡ false → Without c (replicate n b' ')
spaces-Without zero c e = tt
spaces-Without (suc n) c e = (e, spaces-Without n c e)

-- An empty line, and a line of spaces, make the shell compare NULL with a text.
pub round_blank :
    (os : Files) (path : Str) (pid n : ℕ) (arrived rest : Str) (s : Prompt)
    → s.input ++ arrived ≡ replicate n b' ' ++ b'\n' ∷ rest
    → n < 100
    → round os path pid arrived s ≡ fault
unfolding first_word
round_blank os path pid n arrived rest s input fit =
    let (bytes, line) =
      round-line os path pid arrived (replicate n b' ') rest s input (rw (length-spaces n) fit)
        (spaces-Without n 0 refl) (spaces-Without n b'\n' refl) in
    line ∙ rw (strtok_spaces n) refl

pub start_jobs-insert :
    (pid : ℕ) → (jobs : List Slot) × (insert_job pid start_jobs ≡ ok (some 1, jobs))
unfolding insert_job get_next_job_id next_id start_jobs
start_jobs-insert pid = (_, refl)

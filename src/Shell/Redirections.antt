-- ===== src/Shell/Redirections.antt =====
-- How Assignment1P1/functions.c finds the program of a command, and the files of its redirections.
use network_programming_assi.Base.{
  ℕ, suc, ◌+◌, ◌-◌, Bool, true, false, not, ◌&&◌, ◌||◌, Option, none, some, List, [], ◌∷◌, ◌++◌,
  Outcome, ok, fault, stopped, ◌>>=◌, ◌>>◌, fits, require, Str, codes, str_eq, split_on, ltb,
  if◌then◌else◌, get_elem?, take, drop, length,
}

-- What the operating system says of files: if they exist, and can be opened for reading and for
-- writing.
pub record Files : Type 0 where
  pub exists : Str → Bool
  pub readable : Str → Bool
  pub writable : Str → Bool

-- The directories that strtok_r gives: an empty one is passed over.
unfoldable pub find_program : Files → Str → List Str → Outcome (Option Str)
find_program os name [] = ok none
find_program os name ([] ∷ dirs) = find_program os name dirs
find_program os name ((c ∷ dir) ∷ dirs) =
    let rest = find_program os name dirs in
    let file = (c ∷ dir) ++ name in
    fits 100 file >> (if os.exists file then ok (some file) else rest)

unfoldable pub getfile : Files → Str → Str → Outcome (Option Str)
getfile os path first = do
  fits 100 (b'/' ∷ first)
  fits 100 path
  find_program os (b'/' ∷ first) (split_on b':' path)

unfoldable pub index_from : Str → ℕ → List Str → Option ℕ
index_from sym i [] = none
index_from sym i (w ∷ ws) =
    let rest = index_from sym (suc i) ws in if str_eq w sym then some i else rest

-- The index of a symbol from `start` on, or none for -1. All arguments are there.
unfoldable pub strinarr : List Str → Str → ℕ → Option ℕ
strinarr argv sym start = index_from sym start (drop start argv)

-- The program that is started, with the files that are its input and its output; the Boolean says
-- that the output is appended.
pub record Exec : Type 0 where
  pub args : List Str
  pub input : Option Str
  pub output : Option (Bool × Str)

-- fopen for writing, of an argument that may be the NULL after the last; `fileno` of NULL faults.
abbrev pub opened : Files → Option Str → Outcome Str
opened os none = fault
opened os (some f) = if os.writable f then ok f else fault

-- The output beside an input, for the indices of `>` and `>>`.
unfoldable pub output_of : Files → List Str → Option ℕ → Option ℕ → Outcome (Option (Bool × Str))
output_of os argv none none = ok none
output_of os argv (some g) appsign =
    opened os (get_elem? argv (g + 1)) >>= λ f. ok (some (false, f))
output_of os argv none (some a) = opened os (get_elem? argv (a + 1)) >>= λ f. ok (some (true, f))

abbrev pub same : Option Str → Str → Bool
same none sym = false
same (some w) sym = str_eq w sym

abbrev pub is_at : List Str → ℕ → Str → Bool
is_at argv i sym = same (get_elem? argv i) sym

-- `lessersign` with the argument after the `<`, whose index is given. The arguments from it on are
-- set to NULL.
unfoldable pub with_input : Files → List Str → ℕ → Option Str → Outcome Exec
with_input os argv index none = stopped
with_input os argv index (some f) =
    if os.exists f
    then (do
      require (os.readable f)
      output ← output_of os argv (strinarr argv (codes ">") 0) (strinarr argv (codes ">>") 0)
      ok (record { args = take index argv; input = some f; output = output }))
    else stopped

unfoldable pub lessersign : Files → List Str → ℕ → Outcome Exec
lessersign os argv index = with_input os argv index (get_elem? argv (index + 1))

-- `greatersign`: the last two arguments are the symbol and the file.
unfoldable pub greatersign : Files → List Str → Outcome Exec
greatersign os argv = do
  let size = length argv - 2
  f ← opened os (get_elem? argv (size + 1))
  ok (record {
    args = take size argv;
    input = none;
    output = some (not (is_at argv size (codes ">")), f);
  })

-- What `parsecommand` does with a command.
pub data Choice : Type 0 where
  pipes : Choice
  input : ℕ → Choice
  queue : Choice
  two_queues : Choice
  memory : Choice
  output : Choice
  plain : Choice

abbrev or_else : Option ℕ → (ℕ → Choice) → Choice → Choice
or_else none f rest = rest
or_else (some i) f rest = f i

-- The tests in their order: what each one calls does not come back.
unfoldable pub choose_command : List Str → Choice
choose_command argv =
    let size = length argv - 2 in
    or_else (strinarr argv (codes "|") 0) (λ i. pipes)
      (or_else (strinarr argv (codes "<") 0) input (
        or_else (strinarr argv (codes "#") 0) (λ i. queue)
          (or_else (strinarr argv (codes "##") 0) (λ i. two_queues)
            (or_else (strinarr argv (codes "S") 0) (λ i. memory)
              (if ltb 2 (length argv)
                  && (is_at argv size (codes ">") || is_at argv size (codes ">>"))
                then output
                else plain)))))

-- The program that a command without pipes, queues and shared memory starts.
unfoldable pub start_chosen : Files → List Str → Choice → Option (Outcome Exec)
start_chosen os argv (input i) = some (lessersign os argv i)
start_chosen os argv output = some (greatersign os argv)
start_chosen os argv plain = some (ok (record { args = argv; input = none; output = none }))
start_chosen os argv c = none

unfoldable pub parsecommand : Files → List Str → Option (Outcome Exec)
parsecommand os argv = start_chosen os argv (choose_command argv)

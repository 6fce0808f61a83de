-- ===== src/Shell/Handover/Tests.antt =====
-- Commands of Assignment1P1 whose programs hand texts on.
use network_programming_assi.Base.{
  ℕ, ◌+◌, ◌≡◌, refl, true, Option, none, some, Str, codes, str_eq, before, split_on, List, [], ◌∷◌,
  ◌++◌, ok, fault, replicate, arith,
}
use network_programming_assi.Shell.Redirections.{Files, getfile, find_program}
use network_programming_assi.Shell.Handover.{
  Start, World, count_separators, program_of, strcpy_over, shm_pipe, message_queue_pipe,
  double_message_queue,
}
use network_programming_assi.Shell.Handover.Room.{split_at, hand_over-one_separator}
use network_programming_assi.Shell.Handover.Flow.{done, next}
use network_programming_assi.Shell.Handover.Both.{double_message_queue-both}
use network_programming_assi.Shell.Handover.Texts.{HandedOn, with_newline, pipes_hand_over}

abbrev os : Files
os = record { exists = λ f. true; readable = λ f. true; writable = λ f. true }

-- A program writes `ab`, or a `>` and the text that it is given.
abbrev written : Option Str → Str
written none = codes "ab"
written (some input) = b'>' ∷ before 0 input

abbrev reply : List Start → Str
reply [] = []
reply (s ∷ []) = written s.input
reply (s ∷ t ∷ log) = reply (t ∷ log)

abbrev world : (ℕ → ℕ) → World
world slots = record { files = os; path = codes "/bin"; slots = slots; behind = 8; output = reply }

abbrev zeros : Str
zeros = replicate 100 0

abbrev ls : Start
ls = record { program = codes "/bin/ls"; args = codes "ls" ∷ codes "-l" ∷ []; input = none }

abbrev wc : Str → Start
wc input = record { program = codes "/bin/wc"; args = codes "wc" ∷ []; input = some input }

abbrev one_queue : List Str
one_queue = codes "ls" ∷ codes "-l" ∷ codes "#" ∷ codes "wc" ∷ []

abbrev one_memory : List Str
one_memory = codes "ls" ∷ codes "-l" ∷ codes "S" ∷ codes "wc" ∷ []

abbrev spare : World
spare = world (λ n. n + 2)

memory_hands :
    HandedOn spare
      (codes "S")
      with_newline
      zeros
      one_memory
      (codes ">ab\n\n")
      (ls ∷ wc (codes "ab\n" ++ replicate 97 0) ∷ [])
unfolding count_separators split_at program_of getfile find_program split_on str_eq before
    strcpy_over
memory_hands = (
  codes "/bin/ls",
  (omega arith, (omega arith, (omega arith, tt)), refl),
  (omega arith, omega arith),
  next (omega arith) (omega arith, (omega arith, tt), refl) (omega arith, omega arith) done,
)

queue_hands :
    HandedOn spare
      (codes "#")
      (λ text. text)
      zeros
      one_queue
      (codes ">ab")
      (ls ∷ wc (codes "ab" ++ replicate 98 0) ∷ [])
unfolding count_separators split_at program_of getfile find_program split_on str_eq before
    strcpy_over
queue_hands = (
  codes "/bin/ls",
  (omega arith, (omega arith, (omega arith, tt)), refl),
  (omega arith, omega arith),
  next (omega arith) (omega arith, (omega arith, tt), refl) (omega arith, omega arith) done,
)

pipes_hand_over_example :
    (shm_pipe spare zeros one_memory
      ≡ ok (codes ">ab\n\n", ls ∷ wc (codes "ab\n" ++ replicate 97 0) ∷ []))
    × (message_queue_pipe spare [] zeros one_queue
        ≡ ok (codes ">ab", ls ∷ wc (codes "ab" ++ replicate 98 0) ∷ []))
pipes_hand_over_example =
    pipes_hand_over spare zeros one_memory one_queue (codes ">ab\n\n") (codes ">ab")
      (ls ∷ wc (codes "ab\n" ++ replicate 97 0) ∷ []) (ls ∷ wc (codes "ab" ++ replicate 98 0) ∷ [])
      (omega arith) memory_hands queue_hands

-- Malloc as it is promised.
hand_over-one_separator_example :
    (shm_pipe (world (λ n. n)) zeros one_memory ≡ fault)
    × (message_queue_pipe (world (λ n. n)) [] zeros one_queue ≡ fault)
unfolding count_separators str_eq
hand_over-one_separator_example =
    hand_over-one_separator (world (λ n. n)) zeros [] one_memory one_queue refl refl refl

-- `sort ## wc , wc`
abbrev sort : Start
sort = record { program = codes "/bin/sort"; args = codes "sort" ∷ []; input = none }

double_message_queue-both_example :
    double_message_queue spare
      (codes "/bin/sort")
      (codes "sort" ∷ codes "##" ∷ codes "wc" ∷ codes "," ∷ codes "wc" ∷ [])
    ≡ ok (sort ∷ wc (codes "ab") ∷ wc (codes "ab") ∷ [])
unfolding getfile find_program split_on str_eq
double_message_queue-both_example =
    double_message_queue-both spare (codes "/bin/sort") (codes "/bin/wc") (codes "/bin/wc")
      (codes "wc") (codes "wc") (codes "sort" ∷ []) [] [] (refl, tt) (refl, tt) refl refl
      (omega arith) (omega arith)

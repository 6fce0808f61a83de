-- ===== src/Shell/Handover.antt =====
-- `shmPipe`, `messageQueuePipe` and `doubleMessageQueue` of Assignment1P1/functions.c: programs that
-- hand their output on through the shell, which keeps it in shared memory, in a message queue or in
-- its own buffer.
use network_programming_assi.Base.{
  ℕ, zero, suc, ◌+◌, ◌-◌, Bool, true, false, Option, none, some, List, [], ◌∷◌, ◌++◌, Outcome, ok,
  fault, blocked, stopped, ◌>>=◌, ◌>>◌, require, fits, Str, codes, str_eq, before, ltb,
  if◌then◌else◌, get_elem?, take, drop, length,
}
use network_programming_assi.Shell.Redirections.{Files, getfile, strinarr}
use network_programming_assi.Shell.Pipelines.{subarray}
pub mod Flow
pub mod Room
pub mod Texts
pub mod Both
mod Tests

-- A program that was started, with its arguments and its standard input: none for the shell's.
pub record Start : Type 0 where
  pub program : Str
  pub args : List Str
  pub input : Option Str

-- The files, the variable PATH, malloc, where a block for `n` pointers has room for `slots n` of
-- them, the bytes behind a message that may be read and written, and the programs: what the last one
-- that was started writes to its standard output, which a pipe has room for.
pub record World : Type 0 where
  pub files : Files
  pub path : Str
  pub slots : ℕ → ℕ
  pub behind : ℕ
  pub output : List Start → Str

-- Where the text of a stage is kept until the next one.
pub record Medium (M : Type 0) : Type 0 where
  pub put : Str → M → Outcome M
  pub get : M → Outcome (Str × M)

-- sprintf(ptr, "%s\n", buffer). The mapping is a page, which the text does not fill.
abbrev pub shared_memory : Medium Str
shared_memory = record { put = λ text m. ok (text ++ b'\n' ∷ []); get = λ m. ok (m, m) }

-- A message is 8 bytes of type, 100 of text and 4 to align it. msgsnd and msgrcv are told that the text
-- has as many bytes as the message: they read and write 8 bytes behind it.
unfoldable pub whole_message : ℕ → Outcome (Unit {0})
whole_message behind = require (ltb 7 behind)

abbrev pub msgrcv : ℕ → List Str → Outcome (Str × List Str)
msgrcv behind [] = blocked
msgrcv behind (m ∷ q) = whole_message behind >> ok (m, q)

abbrev pub msgsnd : ℕ → Str → List Str → Outcome (List Str)
msgsnd behind text q = whole_message behind >> ok (q ++ text ∷ [])

-- Messages of one type.
abbrev pub message_queue : ℕ → Medium (List Str)
message_queue behind = record { put = msgsnd behind; get = msgrcv behind }

unfoldable pub count_separators : Str → List Str → ℕ
count_separators sep [] = 0
count_separators sep (w ∷ ws) = (if str_eq w sep then 1 else 0) + count_separators sep ws

-- The arguments of a stage, copied to a block for `room` pointers with the NULL after them, and what
-- follows the separator.
unfoldable pub cut : Str → ℕ → List Str → Outcome (List Str × List Str)
cut sep zero ws = fault
cut sep (suc room) [] = ok ([], [])
cut sep (suc room) (w ∷ ws) =
    let rest = cut sep room ws in
    if str_eq w sep then ok ([], ws) else (do fits 100 w; (args, left) ← rest; ok (w ∷ args, left))

-- After an exec that fails the child goes on with the code of the shell, which is not modelled: the
-- model is then `stopped`.
abbrev pub found : Option Str → Outcome Str
found none = stopped
found (some p) = ok p

-- getfile(getenv("PATH"), temp[0])
unfoldable pub program_of : World → List Str → Outcome Str
program_of w [] = fault
program_of w (a ∷ args) = getfile w.files w.path a >>= found

-- A read of the pipe into a buffer of 100 bytes, and a NUL after it. The shell holds the pipe open
-- for writing.
unfoldable pub read_buffer : Str → Outcome Str
read_buffer [] = blocked
read_buffer (c ∷ s) = do require (ltb (length (c ∷ s)) 100); ok (before 0 (c ∷ s))

-- strcpy of `text` over the bytes of `old`.
unfoldable pub strcpy_over : Str → Str → Str
strcpy_over text old = text ++ 0 ∷ drop (length text + 1) old

-- Between two rounds: argv from `index` on, the 100 bytes of `tempdata`, the medium, and the programs
-- that were started.
pub record Shell (M : Type 0) : Type 0 where
  pub left : List Str
  pub tempdata : Str
  pub medium : M
  pub log : List Start

module _ {M : Type 0} (w : World) (md : Medium M) (sep : Str) where
  -- The input of a stage that is not the first: all of `tempdata`.
  unfoldable pub fetch_input : Bool → Shell M → Outcome (Option Str × Shell M)
  fetch_input true h = ok (none, h)
  fetch_input false h = do
    (text, m) ← md.get h.medium
    fits 100 text
    let bytes = strcpy_over text h.tempdata
    ok (some bytes, record h { tempdata = bytes; medium = m })

  -- A round of the loop, for a block with `room` arguments.
  unfoldable pub run_stage : ℕ → Bool → Shell M → Outcome (Shell M)
  run_stage room first h = do
    (input, h') ← fetch_input first h
    (args, left) ← cut sep room h'.left
    program ← program_of w args
    let log = h'.log ++ record { program = program; args = args; input = input } ∷ []
    text ← read_buffer (w.output log)
    m ← md.put text h'.medium
    ok (record h' { left = left; medium = m; log = log })

  -- The rounds, with `k` separators ahead.
  unfoldable pub run_stages : ℕ → ℕ → Bool → Shell M → Outcome (Shell M)
  run_stages room zero first h = run_stage room first h
  run_stages room (suc k) first h = run_stage room first h >>= run_stages room k false

  -- All of it: what is printed, and the programs that were started.
  unfoldable pub hand_over : M → Str → List Str → Outcome (Str × List Start)
  hand_over m tempdata argv = do
    let count = count_separators sep argv
    let h : Shell M = record { left = argv; tempdata = tempdata; medium = m; log = [] }
    end ← run_stages (w.slots count) count true h
    (text, m') ← md.get end.medium
    ok (text, end.log)

-- The mapping is new and full of zeros.
unfoldable pub shm_pipe : World → Str → List Str → Outcome (Str × List Start)
shm_pipe w tempdata argv = hand_over w shared_memory (codes "S") [] tempdata argv

unfoldable pub message_queue_pipe : World → List Str → Str → List Str → Outcome (Str × List Start)
message_queue_pipe w queue tempdata argv =
    hand_over w (message_queue w.behind) (codes "#") queue tempdata argv

-- getfile of an argument that may be the NULL after the last.
unfoldable pub program_at : World → Option Str → Outcome Str
program_at w none = fault
program_at w (some a) = getfile w.files w.path a >>= found

-- A read of at most 10000 bytes, which are written to both pipes: the second program finds what the
-- read has left before them. The shell holds the pipe open for writing.
unfoldable pub read_both : Str → Outcome (Str × Str)
read_both [] = blocked
read_both (c ∷ s) = ok (drop 10000 (c ∷ s) ++ take 10000 (c ∷ s), take 10000 (c ∷ s))

-- The programs that are started with the arguments between the two symbols. Without one of them
-- `subarray` writes before its block.
unfoldable pub start_three : World → Str → List Str → Option ℕ → Option ℕ → Outcome (List Start)
start_three w path1 argv none index2 = fault
start_three w path1 argv (some index) none = fault
start_three w path1 argv (some index) (some index2) = do
  path2 ← program_at w (get_elem? argv (index + 1))
  path3 ← program_at w (get_elem? argv (index2 + 1))
  let first : Start = record { program = path1; args = subarray argv 0 index; input = none }
  (input2, input3) ← read_both (w.output (first ∷ []))
  let second : Start = record {
    program = path2;
    args = subarray argv (index + 1) index2;
    input = some input2;
  }
  let third : Start = record {
    program = path3;
    args = subarray argv (index2 + 1) (length argv);
    input = some input3;
  }
  ok (first ∷ second ∷ third ∷ [])

abbrev pub next_symbol : List Str → Option ℕ → Option ℕ
next_symbol argv none = strinarr argv (codes ",") 0
next_symbol argv (some index) = strinarr argv (codes ",") (index + 1)

unfoldable pub double_message_queue : World → Str → List Str → Outcome (List Start)
double_message_queue w path1 argv =
    let index = strinarr argv (codes "##") 0 in
    start_three w path1 argv index (next_symbol argv index)

-- ===== src/Shell/Prompt.antt =====
-- The loop of `main` of Assignment1P1/shell.c.
use network_programming_assi.Base.{
  ℕ, ◌-◌, Bool, true, false, not, Option, none, some, List, [], ◌∷◌, ◌++◌, map, Outcome, ok, fault,
  ◌>>=◌, ◌>>◌, require, fits, Str, codes, str_eq, before, strtok, has, ◌==◌, ltb, if◌then◌else◌,
  take, drop, length,
}
use network_programming_assi.Shell.Tokens.{skip_spaces, get_command, Arguments, get_argv}
use network_programming_assi.Shell.Jobs.{Slot, insert_job}
use network_programming_assi.Shell.Redirections.{Files, getfile}
pub mod Rounds
pub mod Numbers
mod Tests

-- What the child of a command does: it prints that there is no program, or calls `parsecommand` with
-- the program and the arguments, after `insert_job` has given it a number, or none for -1. What
-- `parsecommand` makes of pipes and redirections in the arguments is in Shell.Redirections.
pub data Child : Type 0 where
  lost : Str → Child
  runs : Str → List Str → Option ℕ → Child

-- What a round does: nothing, print, exit, exit and leave a daemon that executes a program with the
-- arguments, or start a child, for which the shell waits if the Boolean says so.
pub data Step : Type 0 where
  again : Step
  said : Str → Step
  left : Step
  daemon : List Str → Step
  started : Child → Bool → Step

-- The 100 bytes of `buf`, the job table, which is the process's own, and what has arrived in the
-- input and is not read.
pub record Prompt : Type 0 where
  pub buf : Str
  pub jobs : List Slot
  pub input : Str

unfoldable pub after_word : Str → Str
after_word [] = []
after_word (c ∷ s) = let rest = after_word s in if c == b' ' then s else rest

-- What `strtok(NULL, " ")` gives after the first word.
unfoldable pub second_word : Str → Option Str
second_word text = strtok b' ' (after_word (skip_spaces text))

-- The daemon executes the compiler: the `execl` after it is not reached.
unfoldable pub daemonize : Option Str → Outcome Step
daemonize none = ok (said (codes "Invalid Argument\n"))
daemonize (some second) =
    let program = codes "./" ++ second in
    if ltb 2 (length second)
    then fits 100 program >> ok (daemon (codes "cc" ∷ codes "-o" ∷ codes "./a.out" ∷ program ∷ []))
    else ok (said (codes "Invalid Argument\n"))

-- The child, whose copy of the job table is `jobs`.
unfoldable pub child : ℕ → List Slot → Str → List Str → Option Str → Outcome Child
child pid jobs text v none = ok (lost (codes "Command " ++ text ++ codes " not found\n"))
child pid jobs text v (some p) = insert_job pid jobs >>= λ r. ok (runs p v r.0)

-- The shell goes on after a step that leaves the state `s`, unless it exits.
unfoldable pub go_on :
    Step → Prompt → (Unit {0} → Outcome (List Step × Prompt)) → Outcome (List Step × Prompt)
go_on left s rest = ok (left ∷ [], s)
go_on (daemon args) s rest = ok (daemon args ∷ [], s)
go_on step s rest = rest tt >>= λ r. ok (step ∷ r.0, r.1)

module _ (os : Files) (path : Str) where
  -- From the test of `exit` on, for what `getcommand` gives.
  unfoldable pub start_command : ℕ → List Slot → Str → ℕ → Option Str → Outcome Step
  start_command pid jobs text nofargs none = ok again
  start_command pid jobs text nofargs (some command) =
      if str_eq command (codes "exit") then ok left else (do
        p ← getfile os path command
        args ← get_argv text nofargs
        c ← child pid jobs text args.v p
        ok (started c (not args.back_pr)))

  -- The tests on the first word, which is NULL on a blank line.
  unfoldable pub first_word : ℕ → List Slot → Str → Option Str → Outcome Step
  first_word pid jobs text none = fault
  first_word pid jobs text (some first) =
      if str_eq first (codes "daemonize")
      then daemonize (second_word text)
      else (do (command, nofargs) ← get_command text; start_command pid jobs text nofargs command)

  -- What follows a `read` that gives `bytes` and leaves `input`, with the number of the child's process.
  -- Newlines become NULs, and a buffer without one is read past its end.
  unfoldable pub after_read : ℕ → Str → Str → Prompt → Outcome (Step × Prompt)
  after_read pid bytes input s = do
    let buf = map (λ b. if b == b'\n' then 0 else b) (bytes ++ drop (length bytes) s.buf)
    require (has 0 buf)
    let text = before 0 buf
    step ← first_word pid s.jobs text (strtok b' ' text)
    ok (step, record s { buf = buf; input = input })

  -- A round for what stands in the input, of which `read` takes the first 100 bytes.
  unfoldable pub input_round : ℕ → Str → Prompt → Outcome (Step × Prompt)
  input_round pid [] s = ok (again, record s { input = [] })
  input_round pid (c ∷ input) s = after_read pid (take 100 (c ∷ input)) (drop 100 (c ∷ input)) s

  -- A round before whose `read` so much has arrived.
  unfoldable pub round : ℕ → Str → Prompt → Outcome (Step × Prompt)
  round pid arrived s = input_round pid (s.input ++ arrived) s

  -- The rounds until the shell exits: the steps, and the shell's state at the end.
  unfoldable pub run : List (ℕ × Str) → Prompt → Outcome (List Step × Prompt)
  run [] s = ok ([], s)
  run ((pid, arrived) ∷ rounds) s = round pid arrived s >>= λ r. go_on r.0 r.1 (λ _. run rounds r.1)

-- ===== src/Shell/Prompt/Numbers.antt =====
-- The numbers that the shell of Assignment1P1 gives to its jobs.
use network_programming_assi.Base.{
  ℕ, ◌≡◌, refl, inl, inr, Option, none, some, List, [], ◌∷◌, ◌++◌, map, Outcome, ok, ◌>>=◌, AllOk,
  AllOk-bind, AllOk-after, Str, codes, str_eq, strtok, All, Bool-cases, has, require, before,
  if◌then◌else◌, ◌==◌, ltb, take, drop, length, fits,
}
use network_programming_assi.Shell.Tokens.{get_command, get_argv}
use network_programming_assi.Shell.Jobs.{start_jobs}
use network_programming_assi.Shell.Redirections.{Files, getfile}
use network_programming_assi.Shell.Prompt.{
  Child, lost, runs, Step, again, said, left, daemon, started, Prompt, daemonize, second_word,
  child, go_on, start_command, first_word, after_read, input_round, round, run,
}
use network_programming_assi.Shell.Prompt.Rounds.{start_jobs-insert}

-- The job of a child that calls `parsecommand` has number 1.
abbrev IsNumbered : Child → Type 0
IsNumbered (lost text) = Unit
IsNumbered (runs p v id) = id ≡ some 1

abbrev pub StartsFirst : Step → Type 0
StartsFirst (started c waits) = IsNumbered c
StartsFirst again = Unit
StartsFirst (said text) = Unit
StartsFirst left = Unit
StartsFirst (daemon args) = Unit

-- And the shell's own table is as it was set up.
abbrev Kept : Step × Prompt → Type 0
Kept (step, s) = StartsFirst step × (s.jobs ≡ start_jobs)

child-IsNumbered :
    (pid : ℕ) (text : Str) (v : List Str) (p : Option Str)
    → AllOk IsNumbered (child pid start_jobs text v p)
unfolding child
child-IsNumbered pid text v none = tt
child-IsNumbered pid text v (some p) = let (jobs, job) = start_jobs-insert pid in rw job refl

daemonize-StartsFirst : (second : Option Str) → AllOk StartsFirst (daemonize second)
unfolding daemonize
daemonize-StartsFirst none = tt
daemonize-StartsFirst (some second) = elim (Bool-cases (ltb 2 (length second))) [
  | inl e ↦ rw e (AllOk-after StartsFirst (fits 100 (codes "./" ++ second)) _ (λ u. tt))
  | inr e ↦ rw e tt
]

module _ (os : Files) (path : Str) where
  start_command-StartsFirst :
      (pid : ℕ) (text : Str) (nofargs : ℕ) (command : Option Str)
      → AllOk StartsFirst (start_command os path pid start_jobs text nofargs command)
  unfolding start_command
  start_command-StartsFirst pid text nofargs none = tt
  start_command-StartsFirst pid text nofargs (some command) =
      elim (Bool-cases (str_eq command (codes "exit"))) [
        | inl e ↦ rw e tt
        | inr e ↦ rw e (
            AllOk-after StartsFirst (getfile os path command) _ (λ p.
              AllOk-after StartsFirst (get_argv text nofargs) _ (λ a.
                AllOk-bind IsNumbered StartsFirst (child pid start_jobs text a.v p) _
                  (child-IsNumbered pid text a.v p) (λ c numbered. numbered))))
      ]

  first_word-StartsFirst :
      (pid : ℕ) (text : Str) (first : Option Str)
      → AllOk StartsFirst (first_word os path pid start_jobs text first)
  unfolding first_word
  first_word-StartsFirst pid text none = tt
  first_word-StartsFirst pid text (some first) =
      elim (Bool-cases (str_eq first (codes "daemonize"))) [
        | inl e ↦ rw e (daemonize-StartsFirst (second_word text))
        | inr e ↦ rw e (
            AllOk-after StartsFirst (get_command text) _
              (λ c. start_command-StartsFirst pid text c.1 c.0))
      ]

  after_read-StartsFirst :
      (pid : ℕ) (bytes input : Str) (s : Prompt)
      → s.jobs ≡ start_jobs
      → AllOk Kept (after_read os path pid bytes input s)
  unfolding after_read
  after_read-StartsFirst pid bytes input s e =
      let buf = map (λ b. if b == b'\n' then 0 else b) (bytes ++ drop (length bytes) s.buf) in
      let text = before 0 buf in
      let step = first_word os path pid start_jobs text (strtok b' ' text) in
      let end : Step → Outcome (Step × Prompt) =
        λ step. ok (step, record { buf = buf; jobs = start_jobs; input = input }) in
      rw e (
        AllOk-after Kept (require (has 0 buf)) (λ u. step >>= end)
          (λ u.
            AllOk-bind StartsFirst Kept step end
              (first_word-StartsFirst pid text (strtok b' ' text)) (λ a first. (first, refl))))

  input_round-StartsFirst :
      (pid : ℕ) (input : Str) (s : Prompt)
      → s.jobs ≡ start_jobs
      → AllOk Kept (input_round os path pid input s)
  unfolding input_round
  input_round-StartsFirst pid [] s e = (tt, e)
  input_round-StartsFirst pid (c ∷ input) s e =
      after_read-StartsFirst pid (take 100 (c ∷ input)) (drop 100 (c ∷ input)) s e

-- What holds of all steps and of the state at the end.
abbrev Ran : List Step × Prompt → Type 0
Ran (steps, s) = All StartsFirst steps × (s.jobs ≡ start_jobs)

go_on-StartsFirst :
    (step : Step) (s : Prompt) (rest : Unit {0} → Outcome (List Step × Prompt))
    → Kept (step, s)
    → AllOk Ran (rest tt)
    → AllOk Ran (go_on step s rest)
unfolding go_on
go_on-StartsFirst left s rest kept h = ((tt, tt), kept.1)
go_on-StartsFirst (daemon args) s rest kept h = ((tt, tt), kept.1)
go_on-StartsFirst again s rest kept h =
    AllOk-bind Ran Ran (rest tt) _ h (λ r ran. ((tt, ran.0), ran.1))
go_on-StartsFirst (said text) s rest kept h =
    AllOk-bind Ran Ran (rest tt) _ h (λ r ran. ((tt, ran.0), ran.1))
go_on-StartsFirst (started c waits) s rest kept h =
    AllOk-bind Ran Ran (rest tt) _ h (λ r ran. ((kept.0, ran.0), ran.1))

-- Whatever is read, if the rounds end without an error, then for every command that has a program the
-- child that calls `parsecommand` has given its job the number 1, and the shell's job table at the end
-- is as it was set up: `insert_job` changes the child's own copy.
pub run-StartsFirst :
    (os : Files) (path : Str) (reads : List (ℕ × Str)) (s : Prompt)
    → s.jobs ≡ start_jobs
    → AllOk (λ r. All StartsFirst r.0 × (r.1.jobs ≡ start_jobs)) (run os path reads s)
unfolding run round
run-StartsFirst os path [] s e = (tt, e)
run-StartsFirst os path ((pid, arrived) ∷ reads) s e =
    AllOk-bind Kept Ran (input_round os path pid (s.input ++ arrived) s) _
      (input_round-StartsFirst os path pid (s.input ++ arrived) s e)
      (λ r kept.
        go_on-StartsFirst r.0 r.1 (λ u. run os path reads r.1) kept
          (run-StartsFirst os path reads r.1 kept.1))

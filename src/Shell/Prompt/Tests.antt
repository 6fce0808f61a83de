-- ===== src/Shell/Prompt/Tests.antt =====
-- Lines that the shell of Assignment1P1 reads.
use network_programming_assi.Base.{
  ◌≡◌, refl, true, some, Str, codes, str_eq, before, strtok, [], ◌∷◌, ok, fault, replicate, ◌++◌,
  arith, All, AllOk,
}
use network_programming_assi.Shell.Tokens.{
  tokens, next_token, skip_spaces, word, symbol, is_symbol, is_doubled, ends_word, get_command,
}
use network_programming_assi.Shell.Jobs.{start_jobs}
use network_programming_assi.Shell.Redirections.{Files}
use network_programming_assi.Shell.Prompt.{
  said, left, daemon, Prompt, daemonize, second_word, after_word, first_word, start_command, go_on,
  after_read, input_round, round, run,
}
use network_programming_assi.Shell.Prompt.Rounds.{round_blank}
use network_programming_assi.Shell.Prompt.Numbers.{StartsFirst, run-StartsFirst}

abbrev os : Files
os = record { exists = λ f. true; readable = λ f. true; writable = λ f. true }

abbrev prompt : Prompt
prompt = record { buf = replicate 100 0; jobs = start_jobs; input = [] }

abbrev path : Str
path = codes "/bin"

daemon_run :
    first_word os path 7 start_jobs (codes "daemonize  loop.c x") (some (codes "daemonize"))
    ≡ ok (daemon (codes "cc" ∷ codes "-o" ∷ codes "./a.out" ∷ codes "./loop.c" ∷ []))
unfolding first_word daemonize second_word after_word skip_spaces strtok str_eq before
daemon_run = refl

two_lines_run :
    run os path ((7, codes "daemonize\n") ∷ (7, codes "exit\nls\n") ∷ (7, codes "ls\n") ∷ []) prompt
    ≡ ok (
      said (codes "Invalid Argument\n") ∷ left ∷ [],
      record prompt { buf = codes "exit" ++ 0 ∷ codes "ls" ++ 0 ∷ codes "e" ++ 0 ∷ replicate 90 0 },
    )
unfolding run round after_read input_round go_on first_word daemonize second_word after_word
    start_command get_command tokens next_token skip_spaces word symbol is_symbol is_doubled
    ends_word strtok str_eq before
two_lines_run = refl

round_blank_example : round os path 7 (codes "  \n") prompt ≡ fault
round_blank_example = round_blank os path 7 2 (codes "  \n") [] prompt refl (omega arith)

run-StartsFirst_example :
    AllOk
      (λ r. All StartsFirst r.0 × (r.1.jobs ≡ start_jobs))
      (run os path ((7, codes "ls\n") ∷ (8, codes "wc\n") ∷ []) prompt)
run-StartsFirst_example =
    run-StartsFirst os path ((7, codes "ls\n") ∷ (8, codes "wc\n") ∷ []) prompt refl

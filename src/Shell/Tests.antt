-- ===== src/Shell/Tests.antt =====
-- Command lines of Assignment1P1, and the theorems on the tokens at them.
use network_programming_assi.Base.{true, false, split_on}
use network_programming_assi.Shell.Redirections.{
  Files, getfile, find_program, parsecommand, start_chosen, choose_command, strinarr, index_from,
  lessersign, with_input, output_of,
}
use network_programming_assi.Shell.Starting.{IsPlain}
use network_programming_assi.Shell.Redirects.{both, parsecommand-started}
use network_programming_assi.Shell.Pipelines.{
  pipe_stages, count_pipes, stages_from, stage_at, subarray, split_pipes, as_stages,
  pipe_stages-split_pipes,
}
use network_programming_assi.Base.{
  fault, ◌≡◌, refl, Str, List, [], ◌∷◌, ok, codes, All, flatten, str_eq,
}
use network_programming_assi.Shell.Tokens.{
  all_tokens, tokens, next_token, skip_spaces, word, symbol, is_symbol, is_doubled, ends_word,
}
use network_programming_assi.Shell.Scanner.{IsToken, Cuts, all_tokens-Scanned, is_plain, squeeze}
use network_programming_assi.Shell.Printing.{spaced, all_tokens-spaced}
use network_programming_assi.Base.{none, some, ◌++◌, map, arith}
use network_programming_assi.Shell.Jobs.{used, insert_job, get_next_job_id, next_id}

abbrev line : Str
line = codes "ls -l|||wc>>f &"

abbrev words : List Str
words = codes "ls" ∷ codes "-l" ∷ codes "|||" ∷ codes "wc" ∷ codes ">>" ∷ codes "f" ∷ codes "&" ∷ []

line_run : all_tokens line ≡ ok words
unfolding tokens next_token skip_spaces word symbol is_symbol is_doubled ends_word
line_run = refl

all_tokens-Scanned_example :
    (ts : List Str) × (all_tokens line ≡ ok ts)
    × Cuts line ts
    × (flatten ts ≡ squeeze line)
    × All IsToken ts
all_tokens-Scanned_example = all_tokens-Scanned line

words-IsToken : All IsToken words
unfolding IsToken is_plain str_eq ends_word is_symbol
words-IsToken = (refl, (refl, (refl, (refl, (refl, (refl, (refl, tt)))))))

all_tokens-spaced_example : all_tokens (spaced words) ≡ ok words
all_tokens-spaced_example = all_tokens-spaced words words-IsToken

two_jobs_run :
    insert_job 8 (some none ∷ (map used (record { id = 1; pid = 7 } ∷ []) ++ some none ∷ []))
    ≡ ok (
      some 2,
      some none ∷ used (record { id = 1; pid = 7 }) ∷ used (record { id = 2; pid = 8 }) ∷ [],
    )
unfolding insert_job get_next_job_id next_id
two_jobs_run = refl

-- A command with an output and an input, in both orders: the arguments before the input are kept.
abbrev os : Files
os = record { exists = λ f. true; readable = λ f. true; writable = λ f. true }

abbrev sorted : List Str
sorted = codes "sort" ∷ codes "-r" ∷ []

out_in_run :
    parsecommand os (codes "sort" ∷ codes ">" ∷ codes "g" ∷ codes "<" ∷ codes "f" ∷ [])
    ≡ some (
        ok (record {
          args = codes "sort" ∷ codes ">" ∷ codes "g" ∷ [];
          input = some (codes "f");
          output = some (false, codes "g");
        }))
unfolding parsecommand start_chosen choose_command strinarr index_from lessersign with_input
    output_of str_eq
out_in_run = refl

file-IsPlain : IsPlain (codes "f")
unfolding str_eq
file-IsPlain = (refl, refl, refl, refl, refl, refl, refl)

sorted-IsPlain : All IsPlain sorted
unfolding str_eq
sorted-IsPlain =
    ((refl, refl, refl, refl, refl, refl, refl), ((refl, refl, refl, refl, refl, refl, refl), tt))

parsecommand-started_example :
    parsecommand os
      (codes "sort" ∷ codes "-r" ∷ codes "<" ∷ codes "f" ∷ codes ">>" ∷ codes "f" ∷ [])
    ≡ some
        (ok (record { args = sorted; input = some (codes "f"); output = some (true, codes "f") }))
parsecommand-started_example =
    parsecommand-started os sorted (both (codes "f") true (codes "f")) sorted-IsPlain (omega arith)
      (file-IsPlain, refl, refl, file-IsPlain, refl)

abbrev three_stages : List Str
three_stages = codes "ls" ∷ codes "|" ∷ codes "grep" ∷ codes "c" ∷ codes "|" ∷ codes "wc" ∷ []

stages_run :
    pipe_stages three_stages
    ≡ ok (
        (codes "ls", codes "ls" ∷ [])
        ∷ (codes "grep", codes "grep" ∷ codes "c" ∷ [])
        ∷ (codes "wc", codes "wc" ∷ [])
        ∷ [])
unfolding pipe_stages count_pipes stages_from stage_at subarray strinarr index_from str_eq
stages_run = refl

pipe_stages-split_pipes_example : pipe_stages three_stages ≡ as_stages (split_pipes three_stages)
pipe_stages-split_pipes_example = pipe_stages-split_pipes three_stages

-- A pipe at the end.
abbrev no_last_stage : List Str
no_last_stage = codes "ls" ∷ codes "|" ∷ []

trailing_pipe_run : pipe_stages no_last_stage ≡ fault
unfolding pipe_stages count_pipes stages_from stage_at subarray strinarr index_from str_eq
trailing_pipe_run = refl

getfile_run : getfile os (codes "::/bin:/usr/bin") (codes "ls") ≡ ok (some (codes "/bin/ls"))
unfolding getfile find_program split_on
getfile_run = refl

-- ===== src/Cluster/Tests.antt =====
-- Runs of the cluster shell, and its theorems at them.
use network_programming_assi.Base.{
  ℕ, ◌+◌, ◌≡◌, refl, true, false, Bool, List, [], ◌∷◌, ok, Str, str_eq, codes, before, split_on,
  replicate, length, arith, ltb, if◌then◌else◌,
}
use network_programming_assi.Cluster.Arguments.{
  spaces, fill, parse_args, nonempty, words, parse_args-words,
}
use network_programming_assi.Base.{has-Without}
use network_programming_assi.Cluster.Config.{Node}
use network_programming_assi.Cluster.Nodes.{every, here, find_from, findnode}
use network_programming_assi.Cluster.Commands.{
  Action, exec, send, feed, print, Cluster, run_args, run_here, run_at, run_one, run_from,
  runcommand,
}
use network_programming_assi.Cluster.Routing.{runcommand-plan, executeshell-route}
use network_programming_assi.Cluster.Pipes.{World, checkpipe, executeshell}
use network_programming_assi.Cluster.Flow.{last, next, executeshell-Flow}
use network_programming_assi.Cluster.Server.{
  serve, flag_bytes, message_bytes, answered, serve-served,
}

abbrev command : Str
command = codes "ls  -l"

words_run : words command ≡ codes "ls" ∷ codes "-l" ∷ []
unfolding words nonempty split_on
words_run = refl

parse_args-words_example : parse_args command ≡ (words command, true)
parse_args-words_example = parse_args-words command

-- Three nodes as in the repository's file, of which the last is not active.
abbrev n1 : Node
n1 = record { name = codes "n1"; ip = codes "10.0.0.1"; active = 1 }

abbrev n2 : Node
n2 = record { name = codes "n2"; ip = codes "10.0.0.2"; active = 1 }

abbrev n3 : Node
n3 = record { name = codes "n3"; ip = codes "10.0.0.3"; active = 0 }

abbrev three : Cluster
three = record { nodes = n1 ∷ n2 ∷ n3 ∷ []; idx = 0; log = [] }

-- The second node does not come back after its command.
abbrev up : List Action → ℕ → Bool
up log i = false

everywhere_run :
    runcommand up every (codes "ls") false three
    ≡ ok (record {
      nodes = n1 ∷ record n2 { active = 0 } ∷ n3 ∷ [];
      idx = 0;
      log = exec (codes "ls" ∷ []) ∷ send 1 false (codes "ls") ∷ [];
    })
unfolding runcommand run_from run_one run_here run_at run_args parse_args fill split_on spaces
    str_eq
everywhere_run = refl

ls_ok : run_args (words (codes "ls")) ≡ ok (exec (codes "ls" ∷ []))
unfolding run_args words nonempty split_on str_eq
ls_ok = refl

wc_ok : run_args (words (codes "wc")) ≡ ok (exec (codes "wc" ∷ []))
unfolding run_args words nonempty split_on str_eq
wc_ok = refl

runcommand-plan_example :
    (s' : Cluster) × (runcommand up every (codes "ls") false three ≡ ok s')
    × (s'.log ≡ exec (codes "ls" ∷ []) ∷ send 1 false (codes "ls") ∷ [])
runcommand-plan_example =
    runcommand-plan up (codes "ls") false three (exec (codes "ls" ∷ [])) (omega arith) ls_ok

n2_ne : str_eq (codes "n2") (codes "n*") ≡ false
unfolding str_eq
n2_ne = refl

n2_ne_n1 : str_eq (codes "n2") (codes "n1") ≡ false
unfolding str_eq
n2_ne_n1 = refl

-- `ls` writes a name, and `wc`, the third action, a number.
abbrev world : World
world = record { up = up; output = λ log. if ltb (length log) 2 then codes "file" else codes "1" }

executeshell-route_example :
    (s' : Cluster) × (executeshell world (codes "n2.ls") three ≡ ok s')
    × (s'.log ≡ send 1 false (codes "ls") ∷ [])
executeshell-route_example =
    executeshell-route world (codes "n2") (codes "ls") 1 three n2 (exec (codes "ls" ∷ []))
      (omega arith) (has-Without 124 (codes "n2.ls") refl) (has-Without 46 (codes "n2") refl) n2_ne
      refl refl (n2_ne_n1, tt) ls_ok

abbrev piped : Str
piped = codes "ls|wc"

piped_check : checkpipe piped ≡ true
unfolding checkpipe split_on
piped_check = refl

piped_pieces : split_on b'|' piped ≡ codes "ls" ∷ codes "wc" ∷ []
unfolding split_on
piped_pieces = refl

ls_here : findnode (codes "ls") three.nodes ≡ here
unfolding findnode find_from before str_eq
ls_here = refl

wc_here : findnode (codes "wc") three.nodes ≡ here
unfolding findnode find_from before str_eq
wc_here = refl

abbrev piped_log : List Action
piped_log =
    exec (codes "ls" ∷ [])
    ∷ feed (before 0 (codes "file"))
    ∷ exec (codes "wc" ∷ [])
    ∷ print (before 0 (codes "1"))
    ∷ []

executeshell-Flow_example :
    (s' : Cluster) × (executeshell world piped three ≡ ok s') × (s'.log ≡ piped_log)
executeshell-Flow_example =
    executeshell-Flow world piped (codes "ls") (codes "wc" ∷ []) three (exec (codes "ls" ∷ []))
      (exec (codes "wc" ∷ []) ∷ []) piped_log (omega arith) piped_check piped_pieces
      (ls_here, ls_ok, (wc_here, wc_ok, tt))
      (next (omega arith) (omega arith) (last (omega arith) (omega arith)))

-- A block of malloc with 8 bytes more, and a buffer with 1021 zero bytes after the text.
serve-served_example :
    serve
      (λ n. n + 8)
      (flag_bytes true)
      (message_bytes (codes "wc") (replicate 1021 0))
      (codes "file")
    ≡ ok (answered (feed (before 0 (codes "file")) ∷ exec (codes "wc" ∷ []) ∷ []))
serve-served_example =
    serve-served (λ n. n + 8) true (codes "wc") (replicate 1021 0) (codes "file")
      (exec (codes "wc" ∷ [])) (omega arith) (omega arith) refl (omega arith)
      (has-Without 0 (codes "wc") refl) wc_ok

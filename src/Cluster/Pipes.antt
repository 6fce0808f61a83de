-- ===== src/Cluster/Pipes.antt =====
-- `executeshell` of Assignment1P2/clustershell_client.c, and commands joined by pipes.
use network_programming_assi.Base.{
  ℕ, ◌+◌, Bool, true, false, List, [], ◌∷◌, ◌++◌, Outcome, ok, fault, blocked, stopped, ◌>>=◌, ◌>>◌,
  require, fits, Str, codes, str_eq, split_on, before, has, ◌==◌, ltb, if◌then◌else◌, length, drop,
}
use network_programming_assi.Cluster.Nodes.{Target, every, at, here, findnode, command_of}
use network_programming_assi.Cluster.Commands.{
  Action, feed, print, Cluster, did, runcommand, list_nodes, run_line,
}

-- The nodes and the programs: if a node accepts a connection, and what the last action writes to
-- its standard output.
pub record World : Type 0 where
  pub up : List Action → ℕ → Bool
  pub output : List Action → Str

-- What the actions `new` write, after those of `log`.
unfoldable pub outputs : (List Action → Str) → List Action → List Action → Str
outputs out log [] = []
outputs out log (a ∷ new) = out (log ++ a ∷ []) ++ outputs out (log ++ a ∷ []) new

-- A read of the pipe, which stays open for writing, into a buffer of 1024 bytes whose last `spare`
-- bytes are written after it; the text ends at a NUL.
unfoldable pub read_pipe : ℕ → Str → Outcome Str
read_pipe spare [] = blocked
read_pipe spare (c ∷ s) = do require (ltb (length (c ∷ s) + spare) 1025); ok (before 0 (c ∷ s))

-- The text from the next piece on.
abbrev joined : Str → List Str → Str
joined y [] = y
joined y (z ∷ zs) = y ++ b'|' ∷ joined z zs

abbrev left : List Str → Outcome Str
left [] = fault
left (y ∷ ys) = ok (joined y ys)

-- The command of a piece. After a target without a dot the pointer goes past the end of the piece,
-- to the pieces that are left, or out of the text after the last.
unfoldable pub piece_command : Str → List Str → Outcome Str
piece_command y rest = if has b'.' y then ok (command_of y) else left rest

unfoldable pub stage_target : Str → List Str → Target → Cluster → Outcome (Str × Target)
stage_target y rest here s = ok (y, here)
stage_target y rest every s = piece_command y rest >>= λ m. ok (m, every)
stage_target y rest (at i) s =
    piece_command y rest >>= λ m. ok (m, if i == s.idx then here else at i)

-- A stage. The text in the pipe is copied to its standard input before it runs, unless it is the
-- first, and what it writes is then in the pipe.
unfoldable pub stage : World → Bool → Str → List Str → Str → Cluster → Outcome (Str × Cluster)
stage w piped y rest pipe s = do
  (msg, target) ← stage_target y rest (findnode y s.nodes) s
  fed ← if piped then (read_pipe 2 pipe >>= λ t. ok (did (feed t) s)) else ok s
  after ← runcommand w.up target msg piped fed
  ok (outputs w.output fed.log (drop (length fed.log) after.log), after)

-- The loop over the pieces, and the text that is printed at the end.
unfoldable pub stages : World → Bool → List Str → Str → Cluster → Outcome Cluster
stages w piped [] pipe s = read_pipe 1 pipe >>= λ t. ok (did (print t) s)
stages w piped (y ∷ ys) pipe s = do
  (pipe', s') ← stage w piped y ys pipe s
  stages w true ys pipe' s'

abbrev has_second : List Str → Bool
has_second [] = false
has_second (a ∷ []) = false
has_second (a ∷ b ∷ ws) = true

-- checkpipe: the second strsep finds a piece.
unfoldable pub checkpipe : Str → Bool
checkpipe msg = has_second (split_on b'|' msg)

unfoldable pub executeshell : World → Str → Cluster → Outcome Cluster
executeshell w msg s =
    if str_eq msg (codes "nodes")
    then list_nodes w.up s
    else if str_eq msg (codes "exit")
    then stopped
    else (do
      fits 1024 msg
      if checkpipe msg then stages w false (split_on b'|' msg) [] s else run_line w.up msg s)

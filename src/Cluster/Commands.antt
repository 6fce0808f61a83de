-- ===== src/Cluster/Commands.antt =====
-- `runcommand` and the commands without a pipe of
-- Assignment1P2/clustershell_client.c.
use network_programming_assi.Base.{
  ℕ, zero, suc, Bool, false, Option, none, some, List, [], ◌∷◌, ◌++◌, Outcome, ok, fault, ◌>>=◌,
  ◌>>◌, require, fits, Str, codes, str_eq, ◌==◌, if◌then◌else◌, get_elem?, set, length,
}
use network_programming_assi.Cluster.Config.{Node}
use network_programming_assi.Cluster.Arguments.{parse_args}
use network_programming_assi.Cluster.Nodes.{Target, every, at, here, findnode, command_of}

-- What the shell does: chdir and execvp, a command sent to a node with the flag of a pipe, the
-- message that a node is not active, a printed node, the text on the standard input of what
-- follows, a printed text, and the home directory sent to a node that has accepted a connection.
pub data Action : Type 0 where
  chdir : Option Str → Action
  exec : List Str → Action
  send : ℕ → Bool → Str → Action
  refuse : Action
  show_node : Str → Str → Action
  feed : Str → Action
  print : Str → Action
  greet : ℕ → Action

pub record Cluster : Type 0 where
  pub nodes : List Node
  pub idx : ℕ
  pub log : List Action

abbrev pub did : Action → Cluster → Cluster
did a s = record s { log = s.log ++ a ∷ [] }

abbrev head? : List Str → Option Str
head? [] = none
head? (w ∷ ws) = some w

-- What becomes of the words of a command. `strcmp(arg[0], "cd")` dereferences NULL if there are
-- none.
unfoldable pub run_args : List Str → Outcome Action
run_args [] = fault
run_args (w ∷ ws) = ok (if str_eq w (codes "cd") then chdir (head? ws) else exec (w ∷ ws))

-- The part of `runcommand` for the node itself. The NULL after the arguments is what execvp needs.
unfoldable pub run_here : Str → Cluster → Outcome Cluster
run_here msg s = do let args = parse_args msg; require args.1; a ← run_args args.0; ok (did a s)

abbrev pub node : Option Node → Outcome Node
node none = fault
node (some x) = ok x

-- The part for another node. `up` says if the node accepts the connection that is made anew after
-- the command, given what was done before.
unfoldable pub run_at : (List Action → ℕ → Bool) → ℕ → Str → Bool → Cluster → Outcome Cluster
run_at up i msg piped s = do
  x ← node (get_elem? s.nodes i)
  if x.active == 0 then ok (did refuse s) else (do
    fits 1024 msg
    let s' = did (send i piped msg) s
    ok (if up s'.log i then s' else record s' { nodes = set s'.nodes i (record x { active = 0 }) }))

-- The body of the loop over all nodes: -2 stands for the node itself.
unfoldable pub run_one : (List Action → ℕ → Bool) → ℕ → Str → Bool → Cluster → Outcome Cluster
run_one up i msg piped s = do
  x ← node (get_elem? s.nodes i)
  if x.active == 1
      then (do fits 1024 msg; if i == s.idx then run_here msg s else run_at up i msg piped s)
      else ok s

-- The loop over `k` nodes from `i` on.
unfoldable pub run_from : (List Action → ℕ → Bool) → ℕ → ℕ → Str → Bool → Cluster → Outcome Cluster
run_from up zero i msg piped s = ok s
run_from up (suc k) i msg piped s = do
  s ← run_one up i msg piped s
  run_from up k (suc i) msg piped s

unfoldable pub runcommand :
    (List Action → ℕ → Bool) → Target → Str → Bool → Cluster → Outcome Cluster
runcommand up here msg piped s = run_here msg s
runcommand up (at i) msg piped s = run_at up i msg piped s
runcommand up every msg piped s = run_from up (length s.nodes) 0 msg piped s

unfoldable pub show_active : List Node → List Action
show_active [] = []
show_active (x ∷ xs) =
    let rest = show_active xs in if x.active == 1 then show_node x.name x.ip ∷ rest else rest

-- The command `nodes`: a short sleep everywhere finds out which nodes are still there.
unfoldable pub list_nodes : (List Action → ℕ → Bool) → Cluster → Outcome Cluster
list_nodes up s = do
  s ← runcommand up every (codes "sleep 0.00001") false s
  ok (record s { log = s.log ++ show_active s.nodes })

-- A command without a pipe, for its target: what stands before the dot is dropped unless the
-- command is for no node, and the node itself has no message to send.
unfoldable pub run_target : (List Action → ℕ → Bool) → Str → Target → Cluster → Outcome Cluster
run_target up msg here s = runcommand up here msg false s
run_target up msg every s = runcommand up every (command_of msg) false s
run_target up msg (at i) s =
    runcommand up (if i == s.idx then here else at i) (command_of msg) false s

unfoldable pub run_line : (List Action → ℕ → Bool) → Str → Cluster → Outcome Cluster
run_line up msg s = run_target up msg (findnode msg s.nodes) s

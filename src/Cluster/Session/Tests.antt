-- ===== src/Cluster/Session/Tests.antt =====
-- A session of the cluster shell of Assignment1P2.
use network_programming_assi.Base.{
  ◌≡◌, refl, true, false, List, [], ◌∷◌, map, ok, AllOk, codes, str_eq, split_on, before,
  has-Without, arith,
}
use network_programming_assi.Cluster.Config.{Node, IsNode, print_nodes}
use network_programming_assi.Cluster.Arguments.{spaces, fill, parse_args}
use network_programming_assi.Cluster.Nodes.{find_from, findnode}
use network_programming_assi.Cluster.Commands.{
  exec, greet, Cluster, run_args, run_here, runcommand, run_target, run_line,
}
use network_programming_assi.Cluster.Pipes.{World, checkpipe, executeshell}
use network_programming_assi.Cluster.Session.{
  Event, typed, tried, activate, connected, start, read_prompt, try_node, step, run,
}
use network_programming_assi.Cluster.Session.Running.{id_of, IsRunning}
use network_programming_assi.Cluster.Session.Kept.{start-IsRunning}

abbrev n3 : Node
n3 = record { name = codes "n3"; ip = codes "10.0.0.3"; active = 0 }

abbrev n4 : Node
n4 = record { name = codes "n4"; ip = codes "10.0.0.4"; active = 0 }

n3-IsNode : IsNode n3
n3-IsNode = record {
  name_size = omega arith;
  ip_size = omega arith;
  name_space = has-Without 32 n3.name refl;
  name_newline = has-Without 10 n3.name refl;
  ip_newline = has-Without 10 n3.ip refl;
  waits = refl;
}

n4-IsNode : IsNode n4
n4-IsNode = record {
  name_size = omega arith;
  ip_size = omega arith;
  name_space = has-Without 32 n4.name refl;
  name_newline = has-Without 10 n4.name refl;
  ip_newline = has-Without 10 n4.ip refl;
  waits = refl;
}

abbrev world : World
world = record { up = λ log i. false; output = λ log. [] }

abbrev events : List Event
events = tried 1 true ∷ typed (codes "ls\n") ∷ tried 1 true ∷ []

abbrev started : Cluster
started = record { nodes = record n3 { active = 1 } ∷ n4 ∷ []; idx = 0; log = [] }

greeting_run :
    run world events started
    ≡ ok (record {
      nodes = record n3 { active = 1 } ∷ record n4 { active = 1 } ∷ [];
      idx = 0;
      log = greet 1 ∷ exec (codes "ls" ∷ []) ∷ [];
    })
unfolding run step read_prompt try_node connected activate executeshell checkpipe split_on before
    str_eq findnode find_from run_line run_target runcommand run_here run_args parse_args spaces
    fill
greeting_run = refl

start-IsRunning_example :
    (s : Cluster) × (start 2 (print_nodes (n3 ∷ n4 ∷ [])) ≡ ok s)
    × AllOk (IsRunning 0 (map id_of (n3 ∷ n4 ∷ []))) (run world events s)
start-IsRunning_example = start-IsRunning n3 (n4 ∷ []) world events (n3-IsNode, (n4-IsNode, tt))

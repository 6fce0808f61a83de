-- ===== src/Cluster/Session.antt =====
-- The start of Assignment1P2/clustershell_client.c, its prompt, and the loop that connects to the
-- nodes.
use network_programming_assi.Base.{
  ℕ, zero, suc, ◌+◌, Bool, true, false, Option, none, some, List, [], ◌∷◌, ◌++◌, map, Outcome, ok,
  fault, ◌>>=◌, ◌>>◌, require, Str, before, ◌==◌, ltb, if◌then◌else◌, get_elem?, set, length,
}
use network_programming_assi.Cluster.Config.{Node, read_nodes}
use network_programming_assi.Cluster.Commands.{Action, greet, Cluster, node}
use network_programming_assi.Cluster.Pipes.{World, executeshell}
pub mod Running
pub mod Kept
mod Tests

-- What `strcpy(getip(), list[i].ip)==0` says: strcpy returns its destination, which is not NULL.
abbrev strcpy_is_null : Str → Bool
strcpy_is_null ip = false

-- The loop that looks for the node itself, from the index `i` on.
unfoldable pub find_own : List Node → ℕ → ℕ
find_own [] i = 0
find_own (x ∷ xs) i = let rest = find_own xs (suc i) in if strcpy_is_null x.ip then i else rest

unfoldable pub activate : ℕ → List Node → Outcome (List Node)
activate i nodes = do x ← node (get_elem? nodes i); ok (set nodes i (record x { active = 1 }))

-- connect, for a node that is not active: `up` says if it accepts. It is sent the home directory.
unfoldable pub connected : ℕ → Bool → Cluster → Outcome Cluster
connected i false s = ok s
connected i true s = do
  nodes ← activate i s.nodes
  ok (record s { nodes = nodes; log = s.log ++ greet i ∷ [] })

-- `main`, for the number of nodes that the file begins with and what follows it.
unfoldable pub start : ℕ → Str → Outcome Cluster
start n file = do
  nodes ← read_nodes n file
  let idx = find_own nodes 0
  nodes' ← activate idx nodes
  ok (record { nodes = nodes'; idx = idx; log = [] })

-- createChildProcess: the text that the parent gets, for the bytes that a read of at most 1024 has
-- given. A NUL is written after them.
unfoldable pub read_prompt : Str → Outcome Str
read_prompt bytes = do
  require (ltb (length bytes) 1024)
  ok (before 0 (map (λ b. if b == b'\n' then 0 else b) (bytes ++ 0 ∷ [])))

-- A round of the inner loop of `initializesockets`.
unfoldable pub try_node : ℕ → Bool → Cluster → Outcome Cluster
try_node i up s = do
  x ← node (get_elem? s.nodes i)
  if x.active == 1 then ok s else connected i up s

-- The signal of the prompt comes at any time, between two rounds of the loop that connects.
pub data Event : Type 0 where
  typed : Str → Event
  tried : ℕ → Bool → Event

unfoldable pub step : World → Event → Cluster → Outcome Cluster
step w (typed bytes) s = read_prompt bytes >>= λ msg. executeshell w msg s
step w (tried i up) s = try_node i up s

unfoldable pub run : World → List Event → Cluster → Outcome Cluster
run w [] s = ok s
run w (e ∷ es) s = step w e s >>= run w es

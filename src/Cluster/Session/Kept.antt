-- ===== src/Cluster/Session/Kept.antt =====
-- What the lines of the prompt and the connections leave as it is in the cluster shell of
-- Assignment1P2.
use network_programming_assi.Base.{
  ℕ, suc, ◌≡◌, refl, ◌∙◌, inl, inr, Bool, true, false, some, List, [], ◌∷◌, map, ok, ◌>>=◌, AllOk,
  AllOk-bind, AllOk-after, fits, Str, codes, str_eq, split_on, ◌==◌, if◌then◌else◌, get_elem?,
  length, All, Bool-cases,
}
use network_programming_assi.Cluster.Config.{Node, IsNode, print_nodes, read_nodes-print_nodes}
use network_programming_assi.Cluster.Nodes.{Target, every, at, here, findnode, command_of}
use network_programming_assi.Cluster.Commands.{
  Action, feed, Cluster, did, node, runcommand, list_nodes, run_target, run_line,
}
use network_programming_assi.Cluster.Pipes.{
  World, read_pipe, piece_command, stage_target, stage, stages, checkpipe, executeshell,
}
use network_programming_assi.Cluster.Session.{
  Event, typed, tried, activate, find_own, start, read_prompt, connected, try_node, step, run,
}
use network_programming_assi.Cluster.Session.Running.{
  id_of, IsActive, IsRunning, set-id_of, set-IsActive_one, IsOther, node-get, logged,
  runcommand-IsRunning, unless_own,
}

module _ (own : ℕ) (ids : List (Str × Str)) where
  abbrev I : Cluster → Type 0
  I s = IsRunning own ids s

  run_target-IsRunning :
      (up : List Action → ℕ → Bool) (msg : Str) (t : Target) (s : Cluster)
      → I s
      → AllOk I (run_target up msg t s)
  unfolding run_target
  run_target-IsRunning up msg here s h = runcommand-IsRunning own ids up here msg false s tt h
  run_target-IsRunning up msg every s h =
      runcommand-IsRunning own ids up every (command_of msg) false s tt h
  run_target-IsRunning up msg (at i) s h =
      runcommand-IsRunning own ids up (if i == s.idx then here else at i) (command_of msg) false s
        (unless_own own ids i s h) h

  list_nodes-IsRunning :
      (up : List Action → ℕ → Bool) (s : Cluster) → I s → AllOk I (list_nodes up s)
  unfolding list_nodes
  list_nodes-IsRunning up s h =
      AllOk-bind I I (runcommand up every (codes "sleep 0.00001") false s) _
        (runcommand-IsRunning own ids up every (codes "sleep 0.00001") false s tt h)
        (λ s' h'. logged own ids s' _ h')

  stage_target-IsOther :
      (y : Str) (rest : List Str) (t : Target) (s : Cluster)
      → I s
      → AllOk (λ r. IsOther own r.1) (stage_target y rest t s)
  unfolding stage_target
  stage_target-IsOther y rest here s h = tt
  stage_target-IsOther y rest every s h =
      AllOk-after (λ r. IsOther own r.1) (piece_command y rest) _ (λ m. tt)
  stage_target-IsOther y rest (at i) s h =
      AllOk-after (λ r. IsOther own r.1) (piece_command y rest) _ (λ m. unless_own own ids i s h)

  fed_stage :
      (piped : Bool) (pipe : Str) (s : Cluster)
      → I s
      → AllOk I (if piped then (read_pipe 2 pipe >>= λ t. ok (did (feed t) s)) else ok s)
  fed_stage false pipe s h = h
  fed_stage true pipe s h = AllOk-after I (read_pipe 2 pipe) _ (λ t. logged own ids s _ h)

  stage-IsRunning :
      (w : World) (piped : Bool) (y : Str) (rest : List Str) (pipe : Str) (s : Cluster)
      → I s
      → AllOk (λ r. I r.1) (stage w piped y rest pipe s)
  unfolding stage
  stage-IsRunning w piped y rest pipe s h =
      AllOk-bind (λ r. IsOther own r.1) (λ r. I r.1) (stage_target y rest (findnode y s.nodes) s) _
        (stage_target-IsOther y rest (findnode y s.nodes) s h)
        (λ r other.
          AllOk-bind I (λ r. I r.1) _ _ (fed_stage piped pipe s h)
            (λ s' h'.
              AllOk-bind I (λ r. I r.1) (runcommand w.up r.1 r.0 piped s') _
                (runcommand-IsRunning own ids w.up r.1 r.0 piped s' other h') (λ s'' h''. h'')))

  stages-IsRunning :
      (w : World) (piped : Bool) (ys : List Str) (pipe : Str) (s : Cluster)
      → I s
      → AllOk I (stages w piped ys pipe s)
  unfolding stages
  stages-IsRunning w piped [] pipe s h =
      AllOk-after I (read_pipe 1 pipe) _ (λ t. logged own ids s _ h)
  stages-IsRunning w piped (y ∷ ys) pipe s h =
      AllOk-bind (λ r. I r.1) I (stage w piped y ys pipe s) _
        (stage-IsRunning w piped y ys pipe s h) (λ r h'. stages-IsRunning w true ys r.0 r.1 h')

  executeshell-IsRunning :
      (w : World) (msg : Str) (s : Cluster) → I s → AllOk I (executeshell w msg s)
  unfolding executeshell
  executeshell-IsRunning w msg s h = elim (Bool-cases (str_eq msg (codes "nodes"))) [
    | inl p ↦ rw p (list_nodes-IsRunning w.up s h)
    | inr p ↦ elim (Bool-cases (str_eq msg (codes "exit"))) [
      | inl q ↦ rw (p, q) tt
      | inr q ↦
          rw (p, q)
            (AllOk-after I (fits 1024 msg) _ (λ u. elim (Bool-cases (checkpipe msg)) [
              | inl r ↦ rw r (stages-IsRunning w false (split_on b'|' msg) [] s h)
              | inr r ↦
                  rw r (unfold run_line in run_target-IsRunning w.up msg (findnode msg s.nodes) s h)
            ]))
    ]
  ]

  activate-kept :
      (i : ℕ) (nodes : List Node)
      → AllOk
          (λ nodes'.
            (map id_of nodes' ≡ map id_of nodes) × (IsActive own nodes → IsActive own nodes'))
          (activate i nodes)
  unfolding activate
  activate-kept i nodes =
      AllOk-bind (λ x. get_elem? nodes i ≡ some x) _ (node (get_elem? nodes i)) _
        (node-get (get_elem? nodes i))
        (λ x e. (set-id_of nodes i 1 x e, set-IsActive_one nodes i own x))

  connected-IsRunning : (i : ℕ) (up : Bool) (s : Cluster) → I s → AllOk I (connected i up s)
  unfolding connected
  connected-IsRunning i false s h = h
  connected-IsRunning i true s h =
      AllOk-bind
        (λ nodes.
          (map id_of nodes ≡ map id_of s.nodes) × (IsActive own s.nodes → IsActive own nodes))
        I (activate i s.nodes) _ (activate-kept i s.nodes)
        (λ nodes kept. record { index = h.index; same = kept.0 ∙ h.same; active = kept.1 h.active })

  step-IsRunning : (w : World) (e : Event) (s : Cluster) → I s → AllOk I (step w e s)
  unfolding step try_node
  step-IsRunning w (typed bytes) s h =
      AllOk-after I (read_prompt bytes) _ (λ msg. executeshell-IsRunning w msg s h)
  step-IsRunning w (tried i up) s h = AllOk-after I (node (get_elem? s.nodes i)) _ (λ x.
      elim (Bool-cases (x.active == 1)) [
        | inl p ↦ rw p h
        | inr p ↦ rw p (connected-IsRunning i up s h)
      ])

  run-IsRunning : (w : World) (es : List Event) (s : Cluster) → I s → AllOk I (run w es s)
  unfolding run
  run-IsRunning w [] s h = h
  run-IsRunning w (e ∷ es) s h =
      AllOk-bind I I (step w e s) _ (step-IsRunning w e s h) (run-IsRunning w es)

find_own-zero : (xs : List Node) (i : ℕ) → find_own xs i ≡ 0
unfolding find_own
find_own-zero [] i = refl
find_own-zero (x ∷ xs) i = find_own-zero xs (suc i)

-- For a file of at least one node that is written as the shell expects it, the shell starts, and
-- whatever is typed and whichever connections are made, as long as it runs it takes itself for the
-- first node, which is active, and the nodes keep their names and addresses.
pub start-IsRunning :
    (x : Node) (xs : List Node) (w : World) (es : List Event)
    → All IsNode (x ∷ xs)
    → (s : Cluster) × (start (length (x ∷ xs)) (print_nodes (x ∷ xs)) ≡ ok s)
      × AllOk (IsRunning 0 (map id_of (x ∷ xs))) (run w es s)
unfolding start activate
start-IsRunning x xs w es v =
    let nodes = record x { active = 1 } ∷ xs in
    let s : Cluster = record { nodes = nodes; idx = 0; log = [] } in
    (
      s,
      rw (read_nodes-print_nodes (x ∷ xs) v, find_own-zero (x ∷ xs) 0) refl,
      run-IsRunning 0 (map id_of (x ∷ xs)) w es s
          (record { index = refl; same = refl; active = refl }),
    )

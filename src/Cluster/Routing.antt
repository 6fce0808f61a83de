-- ===== src/Cluster/Routing.antt =====
-- Where the commands of Assignment1P2/clustershell_client.c go.
use network_programming_assi.Base.{
  ℕ, zero, suc, ◌<◌, ◌≡◌, refl, ap, sym, ◌∙◌, inl, inr, Bool, false, some, List, [], ◌∷◌, ◌++◌,
  append_assoc, append-nil, ok, true, Str, codes, str_eq, str_eq→eq, split_on_word, has,
  length-append, Without, ◌==◌, lt→ltb, if◌then◌else◌, get_elem?, set, drop, length, arith,
  Bool-cases,
}
use network_programming_assi.Cluster.Config.{Node}
use network_programming_assi.Cluster.Pipes.{World, checkpipe, executeshell}
use network_programming_assi.Cluster.Arguments.{words, parse_args-words}
use network_programming_assi.Cluster.Nodes.{every, IsFirst, findnode-name}
use network_programming_assi.Cluster.Commands.{
  Action, send, refuse, Cluster, did, run_args, run_here, run_at, run_one, run_from, runcommand,
  run_target, run_line,
}

-- What the loop does for the node `x` at the index `i`.
abbrev pub action_at : Action → Str → Bool → ℕ → ℕ → Node → List Action
action_at a msg piped idx i x =
    if x.active == 1 then (if i == idx then a else send i piped msg) ∷ [] else []

-- The same for the nodes from `i` on.
abbrev pub plan : Action → Str → Bool → ℕ → ℕ → List Node → List Action
plan a msg piped idx i [] = []
plan a msg piped idx i (x ∷ xs) = action_at a msg piped idx i x ++ plan a msg piped idx (suc i) xs

-- The actions are added to the log, and the nodes after `i` are left.
record Acted (i : ℕ) (acts : List Action) (s s' : Cluster) : Type 0 where
  log : s'.log ≡ s.log ++ acts
  idx : s'.idx ≡ s.idx
  later : drop (suc i) s'.nodes ≡ drop (suc i) s.nodes

drop-set : {A : Type 0} (xs : List A) (i : ℕ) (v : A) → drop (suc i) (set xs i v) ≡ drop (suc i) xs
drop-set [] i v = refl
drop-set (x ∷ xs) zero v = refl
drop-set (x ∷ xs) (suc i) v = drop-set xs i v

drop-get_elem? :
    (xs : List Node) (i : ℕ) (y : Node) (ys : List Node)
    → drop i xs ≡ y ∷ ys
    → (get_elem? xs i ≡ some y) × (drop (suc i) xs ≡ ys)
drop-get_elem? [] zero y ys e = absurd (ground arith)
drop-get_elem? [] (suc i) y ys e = absurd (ground arith)
drop-get_elem? (x ∷ xs) zero y ys e =
    let same : x ≡ y = cc in let tail : xs ≡ ys = cc in (ap some same, tail)
drop-get_elem? (x ∷ xs) (suc i) y ys e = drop-get_elem? xs i y ys e

pub run_here-ok :
    (msg : Str) (s : Cluster) (a : Action)
    → run_args (words msg) ≡ ok a
    → run_here msg s ≡ ok (did a s)
unfolding run_here
run_here-ok msg s a e = rw (parse_args-words msg, e) refl

run_at-Acted :
    (up : List Action → ℕ → Bool) (i : ℕ) (msg : Str) (piped : Bool) (s : Cluster) (x : Node)
    → length msg < 1024
    → get_elem? s.nodes i ≡ some x
    → (x.active == 0) ≡ false
    → (s' : Cluster) × (run_at up i msg piped s ≡ ok s') × Acted i (send i piped msg ∷ []) s s'
unfolding run_at
run_at-Acted up i msg piped s x small e on =
    let s' = did (send i piped msg) s in
    elim (Bool-cases (up s'.log i)) [
      | inl u ↦ (
        s',
        rw (e, on, lt→ltb (length msg) 1024 small, u) refl,
        record { log = refl; idx = refl; later = refl },
      )
      | inr u ↦ (
        record s' { nodes = set s'.nodes i (record x { active = 0 }) },
        rw (e, on, lt→ltb (length msg) 1024 small, u) refl,
        record { log = refl; idx = refl; later = drop-set s.nodes i _ },
      )
    ]

run_one-Acted :
    (up : List Action → ℕ → Bool) (i : ℕ) (msg : Str) (piped : Bool) (s : Cluster) (x : Node)
    (a : Action)
    → length msg < 1024
    → run_args (words msg) ≡ ok a
    → get_elem? s.nodes i ≡ some x
    → (s' : Cluster) × (run_one up i msg piped s ≡ ok s')
      × Acted i (action_at a msg piped s.idx i x) s s'
unfolding run_one
run_one-Acted up i msg piped s x a small good e = elim (Bool-cases (x.active == 1)) [
  | inr off ↦ (
    s,
    rw (e, off) refl,
    record { log = rw off (sym (append-nil s.log)); idx = refl; later = refl },
  )
  | inl on ↦ elim (Bool-cases (i == s.idx)) [
    | inl me ↦ (
      did a s,
      rw (e, on, lt→ltb (length msg) 1024 small, me) (run_here-ok msg s a good),
      record { log = rw (on, me) refl; idx = refl; later = refl },
    )
    | inr me ↦
        let (s', r, acted) = run_at-Acted up i msg piped s x small e (ground arith) in
        (s', rw (e, on, lt→ltb (length msg) 1024 small, me) r, rw (on, me) acted)
  ]
]

run_from_step :
    (up : List Action → ℕ → Bool) (k i : ℕ) (msg : Str) (piped : Bool) (s s' : Cluster)
    → run_one up i msg piped s ≡ ok s'
    → run_from up (suc k) i msg piped s ≡ run_from up k (suc i) msg piped s'
unfolding run_from
run_from_step up k i msg piped s s' e = rw e refl

run_from-plan :
    (up : List Action → ℕ → Bool) (rest : List Node) (i : ℕ) (msg : Str) (piped : Bool)
    (s : Cluster) (a : Action)
    → length msg < 1024
    → run_args (words msg) ≡ ok a
    → drop i s.nodes ≡ rest
    → (s' : Cluster) × (run_from up (length rest) i msg piped s ≡ ok s')
      × (s'.log ≡ s.log ++ plan a msg piped s.idx i rest)
run_from-plan up [] i msg piped s a small good e =
    (s, unfold run_from in refl, sym (append-nil s.log))
run_from-plan up (x ∷ xs) i msg piped s a small good e =
    let (at_i, tail) = drop-get_elem? s.nodes i x xs e in
    let (s', r, acted) = run_one-Acted up i msg piped s x a small good at_i in
    let (s'', rs, log) =
      run_from-plan up xs (suc i) msg piped s' a small good (acted.later ∙ tail) in
    (
      s'',
      run_from_step up (length xs) i msg piped s s' r ∙ rs,
      log
          ∙ ap (λ j. s'.log ++ plan a msg piped j (suc i) xs) acted.idx
          ∙ ap (λ l. l ++ plan a msg piped s.idx (suc i) xs) acted.log
          ∙ append_assoc s.log (action_at a msg piped s.idx i x)
              (plan a msg piped s.idx (suc i) xs),
    )

-- A command for all nodes, of at least one word and less than 1024 bytes, is sent to every other
-- node that is active, and runs on the node itself if that is active: once each, in the order of
-- the list, although a node that does not come back is marked inactive on the way.
pub runcommand-plan :
    (up : List Action → ℕ → Bool) (msg : Str) (piped : Bool) (s : Cluster) (a : Action)
    → length msg < 1024
    → run_args (words msg) ≡ ok a
    → (s' : Cluster) × (runcommand up every msg piped s ≡ ok s')
      × (s'.log ≡ s.log ++ plan a msg piped s.idx 0 s.nodes)
unfolding runcommand
runcommand-plan up msg piped s a small good =
    run_from-plan up s.nodes 0 msg piped s a small good refl

-- What is done about a command for the node `x` at the index `i`.
abbrev pub route : Action → Str → ℕ → ℕ → Node → Action
route a cmd idx i x = if i == idx then a else if x.active == 0 then refuse else send i false cmd

-- What is done about a line that is the name of a node, a dot and a command.
run_line-route :
    (up : List Action → ℕ → Bool) (name cmd : Str) (i : ℕ) (s : Cluster) (x : Node) (a : Action)
    → Without b'.' name
    → str_eq name (codes "n*") ≡ false
    → get_elem? s.nodes i ≡ some x
    → x.name ≡ name
    → IsFirst name i s.nodes
    → length cmd < 1024
    → run_args (words cmd) ≡ ok a
    → (s' : Cluster) × (run_line up (name ++ b'.' ∷ cmd) s ≡ ok s')
      × (s'.log ≡ s.log ++ route a cmd s.idx i x ∷ [])
unfolding run_line run_target runcommand
run_line-route up name cmd i s x a free one e same first small good =
    let (found, rest) = findnode-name name cmd i s.nodes x free one e same first in
    rw (found, rest)
      (elim (Bool-cases (i == s.idx)) [
        | inl me ↦ rw me (did a s, run_here-ok cmd s a good, refl)
        | inr me ↦ rw me (elim (Bool-cases (x.active == 0)) [
          | inl off ↦ rw off (did refuse s, (unfold run_at in rw (e, off) refl), refl)
          | inr on ↦
              let (s', r, acted) = run_at-Acted up i cmd false s x small e on in
              rw on (s', r, acted.log)
        ])
      ])

has_dot : (name cmd : Str) → has b'.' (name ++ b'.' ∷ cmd) ≡ true
has_dot [] cmd = refl
has_dot (c ∷ name) cmd = ground (arith, has_dot name cmd)

-- A line with a dot is no word without one.
other_word : (line w : Str) → has b'.' line ≡ true → has b'.' w ≡ false → str_eq line w ≡ false
other_word line w dot none_there = elim (Bool-cases (str_eq line w)) [
  | inl e ↦ absurd (ground (arith, ap (has b'.') (str_eq→eq line w e)))
  | inr e ↦ e
]

-- A line of less than 1024 bytes without a pipe that is the name of a node, a dot and a command of at
-- least one word does one thing: if the first node of that name is the node itself the command runs
-- here, if it is not active that is said, and else the command is sent to it.
pub executeshell-route :
    (w : World) (name cmd : Str) (i : ℕ) (s : Cluster) (x : Node) (a : Action)
    → length (name ++ b'.' ∷ cmd) < 1024
    → Without b'|' (name ++ b'.' ∷ cmd)
    → Without b'.' name
    → str_eq name (codes "n*") ≡ false
    → get_elem? s.nodes i ≡ some x
    → x.name ≡ name
    → IsFirst name i s.nodes
    → run_args (words cmd) ≡ ok a
    → (s' : Cluster) × (executeshell w (name ++ b'.' ∷ cmd) s ≡ ok s')
      × (s'.log ≡ s.log ++ route a cmd s.idx i x ∷ [])
unfolding executeshell checkpipe
executeshell-route w name cmd i s x a small one free every_name e same first good =
    let line = name ++ b'.' ∷ cmd in
    let dot = has_dot name cmd in
    rw
      (
        other_word line (codes "nodes") dot refl,
        other_word line (codes "exit") dot refl,
        lt→ltb (length line) 1024 small,
        split_on_word b'|' line one,
      )
      (run_line-route w.up name cmd i s x a free every_name e same first
        (omega (arith, length-append name (b'.' ∷ cmd))) good)

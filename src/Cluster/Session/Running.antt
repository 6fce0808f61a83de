-- ===== src/Cluster/Session/Running.antt =====
-- What stays as it is while the cluster shell of Assignment1P2 runs.
use network_programming_assi.Base.{
  ℕ, zero, suc, ◌≡◌, refl, ap, ◌∙◌, inl, inr, Bool, false, Option, none, some, List, [], ◌∷◌, map,
  ok, AllOk, AllOk-bind, AllOk-after, require, fits, Str, ◌==◌, if◌then◌else◌, get_elem?, set,
  length, arith, Bool-cases,
}
use network_programming_assi.Cluster.Config.{Node}
use network_programming_assi.Cluster.Arguments.{parse_args}
use network_programming_assi.Cluster.Nodes.{Target, every, at, here}
use network_programming_assi.Cluster.Commands.{
  Action, send, Cluster, did, node, run_args, run_here, run_at, run_one, run_from, runcommand,
}

-- The name and the address.
abbrev pub id_of : Node → Str × Str
id_of x = (x.name, x.ip)

-- The node with the index is active.
abbrev pub IsActive : ℕ → List Node → Type 0
IsActive i [] = ⊥
IsActive zero (x ∷ xs) = x.active ≡ 1
IsActive (suc i) (x ∷ xs) = IsActive i xs

-- The shell's own index and the nodes' names and addresses are the given ones, and its own node is
-- active.
pub record IsRunning (own : ℕ) (ids : List (Str × Str)) (s : Cluster) : Type 0 where
  pub index : s.idx ≡ own
  pub same : map id_of s.nodes ≡ ids
  pub active : IsActive own s.nodes

pub set-id_of :
    (xs : List Node) (i a : ℕ) (x : Node)
    → get_elem? xs i ≡ some x
    → map id_of (set xs i (record x { active = a })) ≡ map id_of xs
set-id_of [] i a x e = refl
set-id_of (y ∷ xs) zero a x e = let same : y ≡ x = cc in rw same refl
set-id_of (y ∷ xs) (suc i) a x e = ap (λ l. id_of y ∷ l) (set-id_of xs i a x e)

set-IsActive_ne :
    (xs : List Node) (i j : ℕ) (x : Node)
    → (i == j) ≡ false
    → IsActive j xs
    → IsActive j (set xs i x)
set-IsActive_ne [] i j x ne h = h
set-IsActive_ne (y ∷ xs) zero zero x ne h = absurd (ground arith)
set-IsActive_ne (y ∷ xs) zero (suc j) x ne h = h
set-IsActive_ne (y ∷ xs) (suc i) zero x ne h = h
set-IsActive_ne (y ∷ xs) (suc i) (suc j) x ne h = set-IsActive_ne xs i j x (ground arith) h

pub set-IsActive_one :
    (xs : List Node) (i j : ℕ) (x : Node)
    → IsActive j xs
    → IsActive j (set xs i (record x { active = 1 }))
set-IsActive_one [] i j x h = h
set-IsActive_one (y ∷ xs) zero zero x h = refl
set-IsActive_one (y ∷ xs) zero (suc j) x h = h
set-IsActive_one (y ∷ xs) (suc i) zero x h = h
set-IsActive_one (y ∷ xs) (suc i) (suc j) x h = set-IsActive_one xs i j x h

-- No command is sent to the node itself.
abbrev pub IsOther : ℕ → Target → Type 0
IsOther own (at i) = (i == own) ≡ false
IsOther own every = Unit
IsOther own here = Unit

pub node-get : (o : Option Node) → AllOk (λ x. o ≡ some x) (node o)
node-get none = tt
node-get (some x) = refl

module _ (own : ℕ) (ids : List (Str × Str)) where
  abbrev I : Cluster → Type 0
  I s = IsRunning own ids s

  pub logged : (s : Cluster) (log : List Action) → I s → I (record s { log = log })
  logged s log h = record { index = h.index; same = h.same; active = h.active }

  run_here-IsRunning : (msg : Str) (s : Cluster) → I s → AllOk I (run_here msg s)
  unfolding run_here
  run_here-IsRunning msg s h =
      AllOk-after I (require _) _
        (λ u. AllOk-after I (run_args (parse_args msg).0) (λ a. ok (did a s)) (λ a. logged s _ h))

  run_at-IsRunning :
      (up : List Action → ℕ → Bool) (i : ℕ) (msg : Str) (piped : Bool) (s : Cluster)
      → (i == own) ≡ false
      → I s
      → AllOk I (run_at up i msg piped s)
  unfolding run_at
  run_at-IsRunning up i msg piped s other h =
      AllOk-bind (λ x. get_elem? s.nodes i ≡ some x) I (node (get_elem? s.nodes i)) _
        (node-get (get_elem? s.nodes i))
        (λ x e. elim (Bool-cases (x.active == 0)) [
          | inl p ↦ rw p (logged s _ h)
          | inr p ↦ rw p (
              AllOk-after I (fits 1024 msg) _ (λ u.
                elim (Bool-cases (up (did (send i piped msg) s).log i)) [
                  | inl q ↦ rw q (logged s _ h)
                  | inr q ↦ rw q (record {
                    index = h.index;
                    same = set-id_of s.nodes i 0 x e ∙ h.same;
                    active = set-IsActive_ne s.nodes i own _ other h.active;
                  })
                ]))
        ])

  run_one-IsRunning :
      (up : List Action → ℕ → Bool) (i : ℕ) (msg : Str) (piped : Bool) (s : Cluster)
      → I s
      → AllOk I (run_one up i msg piped s)
  unfolding run_one
  run_one-IsRunning up i msg piped s h = AllOk-after I (node (get_elem? s.nodes i)) _ (λ x.
      elim (Bool-cases (x.active == 1)) [
        | inl p ↦ rw p (
            AllOk-after I (fits 1024 msg) _ (λ u. elim (Bool-cases (i == s.idx)) [
              | inl q ↦ rw q (run_here-IsRunning msg s h)
              | inr q ↦ rw q (run_at-IsRunning up i msg piped s (rw h.index at q) h)
            ]))
        | inr p ↦ rw p h
      ])

  run_from-IsRunning :
      (up : List Action → ℕ → Bool) (k i : ℕ) (msg : Str) (piped : Bool) (s : Cluster)
      → I s
      → AllOk I (run_from up k i msg piped s)
  unfolding run_from
  run_from-IsRunning up zero i msg piped s h = h
  run_from-IsRunning up (suc k) i msg piped s h =
      AllOk-bind I I (run_one up i msg piped s) _ (run_one-IsRunning up i msg piped s h)
        (run_from-IsRunning up k (suc i) msg piped)

  pub runcommand-IsRunning :
      (up : List Action → ℕ → Bool) (t : Target) (msg : Str) (piped : Bool) (s : Cluster)
      → IsOther own t
      → I s
      → AllOk I (runcommand up t msg piped s)
  unfolding runcommand
  runcommand-IsRunning up here msg piped s other h = run_here-IsRunning msg s h
  runcommand-IsRunning up (at i) msg piped s other h = run_at-IsRunning up i msg piped s other h
  runcommand-IsRunning up every msg piped s other h =
      run_from-IsRunning up (length s.nodes) 0 msg piped s h

  pub unless_own : (i : ℕ) (s : Cluster) → I s → IsOther own (if i == s.idx then here else at i)
  unless_own i s h = elim (Bool-cases (i == s.idx)) [
    | inl q ↦ rw q tt
    | inr q ↦ rw q (rw h.index at q)
  ]

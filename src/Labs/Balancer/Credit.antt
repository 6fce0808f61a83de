-- ===== src/Labs/Balancer/Credit.antt =====
-- No child of labs/2016A7PS0064P_lab1/load_balancer.c is told to read while it still reads.
use network_programming_assi.Base.{
  ℕ, ◌+◌, ◌<◌, ◌≤◌, ◌≡◌, refl, ◌∙◌, inl, inr, Option, none, some, List, [], ◌∷◌, ◌++◌, ok, ◌==◌,
  ==_refl, if◌then◌else◌, get_elem?, set, get_elem?-set_self, get_elem?-set_ne, arith, Bool-cases,
}
use network_programming_assi.Labs.Balancer.Parent.{Balancer, Event, round, signal, run}
use network_programming_assi.Labs.Balancer.Turns.{
  IsReady, InRange, Polled, poll-Polled, available-ok, available-IsReady, run-step, step-round,
  step_signal,
}

-- How often a process was told to read.
abbrev pub times : ℕ → List ℕ → ℕ
times i [] = 0
times i (j ∷ js) = (if i == j then 1 else 0) + times i js

-- How often a process has said that it is available.
abbrev pub signals : ℕ → List Event → ℕ
signals i [] = 0
signals i (round ∷ es) = signals i es
signals i (signal j ∷ es) = (if i == j then 1 else 0) + signals i es

abbrev one_if_idle : Option ℕ → ℕ
one_if_idle none = 0
one_if_idle (some b) = if b == 0 then 1 else 0

-- 1 if the process may be told to read.
abbrev pub free : ℕ → Balancer → ℕ
free i s = one_if_idle (get_elem? s.busy i)

times-append : (i : ℕ) (xs ys : List ℕ) → times i (xs ++ ys) ≡ times i xs + times i ys
times-append i [] ys = omega arith
times-append i (x ∷ xs) ys = omega (arith, times-append i xs ys)

one_if_idle_le : (o : Option ℕ) → one_if_idle o ≤ 1
one_if_idle_le none = omega arith
one_if_idle_le (some b) = ground arith

-- A round tells a process that may be told, which then may not.
Polled-credit :
    (n i : ℕ) (s s' : Balancer)
    → IsReady n s
    → Polled n s s'
    → times i s'.given + free i s' ≤ times i s.given + free i s
Polled-credit n i s s' r p = elim p.busy [
  | inl (b, g, z) ↦
      rw (b, g, times-append i s.given (s.ptr ∷ []))
        (elim (Bool-cases (i == s.ptr)) [
          | inl e ↦
              let same : i ≡ s.ptr = ground arith in
              rw
                (
                  same,
                  ==_refl s.ptr,
                  get_elem?-set_self s.busy s.ptr 1 (omega (arith, r.size, r.at)),
                  z,
                )
                (omega arith)
          | inr e ↦
              rw (e, get_elem?-set_ne s.busy {i = s.ptr} {j = i} 1 (λ q. ground arith))
                (omega arith)
        ])
  | inr (b, g, z) ↦ rw (b, g) (omega arith)
]

-- A signal frees one process at most.
available_credit :
    (n i j : ℕ) (s : Balancer)
    → IsReady n s
    → j < n
    → free i (record s { busy = set s.busy j 0 }) ≤ (if i == j then 1 else 0) + free i s
available_credit n i j s r lt = elim (Bool-cases (i == j)) [
  | inl e ↦ rw e (omega (arith, one_if_idle_le (get_elem? (set s.busy j 0) i)))
  | inr e ↦ rw (e, get_elem?-set_ne s.busy {i = j} {j = i} 0 (λ q. ground arith)) (omega arith)
]

-- From any state, the parent tells a process to read at most once if it was available, and once
-- more for every signal by which it said so, whatever the order of rounds and signals.
pub run_credit :
    (es : List Event) (s : Balancer) (i n : ℕ)
    → IsReady n s
    → InRange n es
    → (s' : Balancer) × (run es s ≡ ok s')
      × (times i s'.given + free i s' ≤ times i s.given + free i s + signals i es)
run_credit [] s i n r within = (s, unfold run in refl, omega arith)
run_credit (round ∷ es) s i n r within =
    let (s', e, p) = poll-Polled n s r in
    let (s'', runs, le) = run_credit es s' i n p.ready within in
    (
      s'',
      run-step round es s s' (step-round s s' e) ∙ runs,
      omega (arith, le, Polled-credit n i s s' r p),
    )
run_credit (signal j ∷ es) s i n r within =
    let s' = record s { busy = set s.busy j 0 } in
    let e = step_signal j s s' (available-ok n j s r within.0) in
    let (s'', runs, le) = run_credit es s' i n (available-IsReady n j s r) within.1 in
    (
      s'',
      run-step (signal j) es s s' e ∙ runs,
      omega (arith, le, available_credit n i j s r within.0),
    )

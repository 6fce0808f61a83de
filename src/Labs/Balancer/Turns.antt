-- ===== src/Labs/Balancer/Turns.antt =====
-- Every child of labs/2016A7PS0064P_lab1/load_balancer.c that is available gets its turn.
use native.Mathlib.Nat.{mod-eq_of_lt, mod_self}
use network_programming_assi.Base.{
  ℕ, zero, suc, ◌+◌, ◌-◌, ◌%◌, ◌<◌, ◌≡◌, ◌≢◌, refl, ap, sym, ◌∙◌, ◌⊎◌, inl, inr, some, List, [],
  ◌∷◌, ◌++◌, append_assoc, append-nil, Bool, true, false, ok, ◌==◌, ==_refl, leb, ltb, lt→ltb,
  if◌then◌else◌, has, get_elem?, set, length, length-set, get_elem?-set_self, get_elem?-set_ne,
  arith, Bool-cases,
}
use network_programming_assi.Labs.Balancer.Parent.{
  Balancer, Event, round, signal, poll, available, step, run,
}

-- There are `n` processes, and `ptr` is one of them.
pub record IsReady (n : ℕ) (s : Balancer) : Type 0 where
  pub size : length s.busy ≡ n
  pub at : s.ptr < n

abbrev pub InRange : ℕ → List Event → Type 0
InRange n [] = Unit
InRange n (round ∷ es) = InRange n es
InRange n (signal i ∷ es) = (i < n) × InRange n es

abbrev pub rounds : List Event → ℕ
rounds [] = 0
rounds (round ∷ es) = suc (rounds es)
rounds (signal i ∷ es) = rounds es

-- How many rounds pass before the process `i` is looked at.
abbrev pub wait : ℕ → ℕ → ℕ → ℕ
wait n ptr i = if leb ptr i then i - ptr else i + n - ptr

get_elem?-lt : (xs : List ℕ) (i : ℕ) → i < length xs → (b : ℕ) × (get_elem? xs i ≡ some b)
get_elem?-lt [] i lt = absurd (omega arith)
get_elem?-lt (x ∷ xs) zero lt = (x, refl)
get_elem?-lt (x ∷ xs) (suc i) lt = get_elem?-lt xs i (omega arith)

mod-next :
    (n p : ℕ) → p < n → (((p + 1) % n ≡ p + 1) × (p + 1 < n)) ⊎ (((p + 1) % n ≡ 0) × (p + 1 ≡ n))
mod-next n p lt = elim (Bool-cases (ltb (p + 1) n)) [
  | inl e ↦ inl (mod-eq_of_lt (ground arith), ground arith)
  | inr e ↦ let all : p + 1 ≡ n = ground arith in inr (rw all (mod_self n), all)
]

mod-next-lt : (n p : ℕ) → p < n → (p + 1) % n < n
mod-next-lt n p lt = omega arith

wait-next : (n p i : ℕ) → p < n → i < n → p ≢ i → wait n ((p + 1) % n) i + 1 ≡ wait n p i
wait-next n p i lt lt' ne = elim (mod-next n p lt) [
  | inl (e, more) ↦ rw e (ground arith)
  | inr (e, all) ↦ rw e (ground arith)
]

-- A round tells the process at `ptr` to read, or finds it busy.
pub record Polled (n : ℕ) (s s' : Balancer) : Type 0 where
  pub ready : IsReady n s'
  pub ptr : s'.ptr ≡ (s.ptr + 1) % n
  pub busy :
      ((s'.busy ≡ set s.busy s.ptr 1)
        × (s'.given ≡ s.given ++ s.ptr ∷ [])
        × (get_elem? s.busy s.ptr ≡ some 0))
      ⊎ ((s'.busy ≡ s.busy) × (s'.given ≡ s.given) × (get_elem? s.busy s.ptr ≢ some 0))

other : (b : ℕ) → (b == 0) ≡ false → some b ≢ some 0
other b nz q = ground arith

pub poll-Polled :
    (n : ℕ) (s : Balancer) → IsReady n s → (s' : Balancer) × (poll s ≡ ok s') × Polled n s s'
unfolding poll
poll-Polled n s r =
    let (b, e) = get_elem?-lt s.busy s.ptr (omega (arith, r.size, r.at)) in
    let next = (s.ptr + 1) % length s.busy in
    let turned : next ≡ (s.ptr + 1) % n = ap (λ m. (s.ptr + 1) % m) r.size in
    let in_range : next < n = rw turned (mod-next-lt n s.ptr r.at) in
    elim (Bool-cases (b == 0)) [
      | inl z ↦ (
        record { busy = set s.busy s.ptr 1; ptr = next; given = s.given ++ s.ptr ∷ [] },
        rw (e, z) refl,
        record {
          ready = record { size = length-set s.busy s.ptr 1 ∙ r.size; at = in_range };
          ptr = turned;
          busy = inl (refl, refl, e ∙ ap some (ground arith));
        },
      )
      | inr nz ↦ (
        record s { ptr = next },
        rw (e, nz) refl,
        record {
          ready = record { size = r.size; at = in_range };
          ptr = turned;
          busy = inr (refl, refl, λ q. other b nz (sym e ∙ q));
        },
      )
    ]

pub available-ok :
    (n i : ℕ) (s : Balancer)
    → IsReady n s
    → i < n
    → available i s ≡ ok (record s { busy = set s.busy i 0 })
unfolding available
available-ok n i s r lt = rw (lt→ltb i (length s.busy) (omega (arith, r.size))) refl

pub available-IsReady :
    (n i : ℕ) (s : Balancer) → IsReady n s → IsReady n (record s { busy = set s.busy i 0 })
available-IsReady n i s r = record { size = length-set s.busy i 0 ∙ r.size; at = r.at }

-- The events end normally, and only add to what was given.
pub record Ran (es : List Event) (s : Balancer) (i : ℕ) (told : Bool) : Type 0 where
  pub after : Balancer
  pub new : List ℕ
  pub runs : run es s ≡ ok after
  pub given : after.given ≡ s.given ++ new
  pub has_new : told ≡ true → has i new ≡ true

pub run-step :
    (e : Event) (es : List Event) (s s' : Balancer) → step e s ≡ ok s' → run (e ∷ es) s ≡ run es s'
unfolding run
run-step e es s s' h = rw h refl

has-append_left : (i : ℕ) (xs ys : List ℕ) → has i xs ≡ true → has i (xs ++ ys) ≡ true
has-append_left i [] ys h = ground arith
has-append_left i (x ∷ xs) ys h = ground (arith, has-append_left i xs ys)

has-append_right : (i : ℕ) (xs ys : List ℕ) → has i ys ≡ true → has i (xs ++ ys) ≡ true
has-append_right i [] ys h = h
has-append_right i (x ∷ xs) ys h = ground (arith, has-append_right i xs ys)

-- One more event, which gave `first`.
Ran-cons :
    (e : Event) (es : List Event) (s s' : Balancer) (i : ℕ) (first : List ℕ) (told told' : Bool)
    → step e s ≡ ok s'
    → s'.given ≡ s.given ++ first
    → (told' ≡ true → (has i first ≡ true) ⊎ (told ≡ true))
    → Ran es s' i told
    → Ran (e ∷ es) s i told'
Ran-cons e es s s' i first told told' h g why r = record {
  after = r.after;
  new = first ++ r.new;
  runs = run-step e es s s' h ∙ r.runs;
  given = r.given ∙ ap (λ l. l ++ r.new) g ∙ append_assoc s.given first r.new;
  has_new = λ t. elim (why t) [
    | inl now ↦ has-append_left i first r.new now
    | inr later ↦ has-append_right i first r.new (r.has_new later)
  ];
}

pub step-round : (s s' : Balancer) → poll s ≡ ok s' → step round s ≡ ok s'
unfolding step
step-round s s' h = h

pub step_signal : (j : ℕ) (s s' : Balancer) → available j s ≡ ok s' → step (signal j) s ≡ ok s'
unfolding step
step_signal j s s' h = h

given_same : (s s' : Balancer) → s'.given ≡ s.given → s'.given ≡ s.given ++ []
given_same s s' g = g ∙ sym (append-nil s.given)

Polled-grows :
    (n : ℕ) (s s' : Balancer) → Polled n s s' → (first : List ℕ) × (s'.given ≡ s.given ++ first)
Polled-grows n s s' p = elim p.busy [
  | inl (b, g, z) ↦ (s.ptr ∷ [], g)
  | inr (b, g, z) ↦ ([], given_same s s' g)
]

run-Ran : (es : List Event) (s : Balancer) (i n : ℕ) → IsReady n s → InRange n es → Ran es s i false
run-Ran [] s i n r within = record {
  after = s;
  new = [];
  runs = unfold run in refl;
  given = sym (append-nil s.given);
  has_new = λ t. cc;
}
run-Ran (round ∷ es) s i n r within =
    let (s', e, p) = poll-Polled n s r in
    let (first, g) = Polled-grows n s s' p in
    Ran-cons round es s s' i first false false (step-round s s' e) g (λ t. inr t)
      (run-Ran es s' i n p.ready within)
run-Ran (signal j ∷ es) s i n r within =
    let s' = record s { busy = set s.busy j 0 } in
    let ready = available-IsReady n j s r in
    let e = step_signal j s s' (available-ok n j s r within.0) in
    Ran-cons (signal j) es s s' i [] false false e (given_same s s' refl) (λ t. inr t)
      (run-Ran es s' i n ready within.1)

set_idle :
    (busy : List ℕ) (i j : ℕ)
    → i < length busy
    → get_elem? busy i ≡ some 0
    → get_elem? (set busy j 0) i ≡ some 0
set_idle busy i j lt idle = elim (Bool-cases (j == i)) [
  | inl e ↦ let same : j ≡ i = ground arith in rw same (get_elem?-set_self busy i 0 lt)
  | inr e ↦ get_elem?-set_ne busy 0 (λ q. ground arith) ∙ idle
]

-- A round leaves the processes that it does not look at.
Polled-idle :
    (n i : ℕ) (s s' : Balancer)
    → Polled n s s'
    → s.ptr ≢ i
    → get_elem? s.busy i ≡ some 0
    → get_elem? s'.busy i ≡ some 0
Polled-idle n i s s' p ne idle = elim p.busy [
  | inl (b, g, z) ↦ rw b (get_elem?-set_ne s.busy 1 ne ∙ idle)
  | inr (b, g, z) ↦ rw b idle
]

-- A round that looks at a process that is available tells it to read.
Polled-told :
    (n i : ℕ) (s s' : Balancer)
    → Polled n s s'
    → s.ptr ≡ i
    → get_elem? s.busy i ≡ some 0
    → s'.given ≡ s.given ++ (i ∷ [])
Polled-told n i s s' p e idle = elim p.busy [
  | inl (b, g, z) ↦ g ∙ ap (λ j. s.given ++ (j ∷ [])) e
  | inr (b, g, z) ↦ absurd (z (ap (λ j. get_elem? s.busy j) e ∙ idle))
]

Ran-turn :
    (es : List Event) (s : Balancer) (i n : ℕ)
    → IsReady n s
    → InRange n es
    → i < n
    → get_elem? s.busy i ≡ some 0
    → wait n s.ptr i < rounds es
    → Ran es s i true
Ran-turn [] s i n r within lt idle enough = absurd (omega arith)
Ran-turn (round ∷ es) s i n r within lt idle enough =
    let (s', e, p) = poll-Polled n s r in
    elim (Bool-cases (s.ptr == i)) [
      | inl q ↦
          Ran-cons round es s s' i (i ∷ []) false true (step-round s s' e)
            (Polled-told n i s s' p (ground arith) idle) (λ t. inl (rw (==_refl i) refl))
            (run-Ran es s' i n p.ready within)
      | inr q ↦
          let ne : s.ptr ≢ i = λ same. ground arith in
          let (first, g) = Polled-grows n s s' p in
          let nearer : wait n s'.ptr i + 1 ≡ wait n s.ptr i =
            rw p.ptr (wait-next n s.ptr i r.at lt ne) in
          let rest =
            Ran-turn es s' i n p.ready within lt (Polled-idle n i s s' p ne idle)
              (omega (arith, nearer)) in
          Ran-cons round es s s' i first true true (step-round s s' e) g (λ t. inr t) rest
    ]
Ran-turn (signal j ∷ es) s i n r within lt idle enough =
    let s' = record s { busy = set s.busy j 0 } in
    let ready = available-IsReady n j s r in
    let e = step_signal j s s' (available-ok n j s r within.0) in
    let rest =
      Ran-turn es s' i n ready within.1 lt (set_idle s.busy i j (omega (arith, r.size)) idle)
        enough in
    Ran-cons (signal j) es s s' i [] true true e (given_same s s' refl) (λ t. inr t) rest

-- A process that is available is told to read before the parent has gone round once, whatever
-- signals come in between: `n` rounds of its loop are enough.
pub run_turn :
    (es : List Event) (s : Balancer) (i n : ℕ)
    → IsReady n s
    → InRange n es
    → i < n
    → get_elem? s.busy i ≡ some 0
    → wait n s.ptr i < rounds es
    → (s' : Balancer) × (new : List ℕ) × (run es s ≡ ok s')
      × (s'.given ≡ s.given ++ new)
      × (has i new ≡ true)
run_turn es s i n r within lt idle enough =
    let t = Ran-turn es s i n r within lt idle enough in
    (t.after, t.new, t.runs, t.given, t.has_new refl)

-- ===== src/Labs/Voting/Rounds.antt =====
-- A round of labs/2016A7PS0064P_lab3/voting.c counts every vote of the round once.
use mathlib.Core.Path.{subst}
use network_programming_assi.Base.{
  AllOk, AllOk-bind, AllOk-after, ℕ, zero, suc, ◌+◌, ◌%◌, ◌≡◌, refl, ap, inl, inr, List, [], ◌∷◌,
  ◌++◌, Outcome, ok, blocked, ◌==◌, if◌then◌else◌, length, length-append, arith, Bool-cases, ◌<◌,
  lt→ltb, fault, stopped, out_of_fuel, ◌>>=◌,
}
use network_programming_assi.Labs.Voting.{
  Room, whole, open_round, start, Event, receive, vote, count, finish, take_ballot, send_vote,
  count_vote, step, run,
}

-- The votes for 0, and the others.
abbrev pub zeros : List ℕ → ℕ
zeros [] = 0
zeros (v ∷ vs) = (if v == 0 then 1 else 0) + zeros vs

abbrev pub ones : List ℕ → ℕ
ones [] = 0
ones (v ∷ vs) = (if v == 0 then 0 else 1) + ones vs

-- Every child is waiting for its message, about to vote, or has voted, and what was sent is counted
-- or still in the queue.
pub record IsPolling (n : ℕ) (s : Room) : Type 0 where
  pub all : s.ballots + s.held + length s.cast + (s.c0 + s.c1) ≡ n
  pub zero_votes : zeros s.sent ≡ s.c0 + zeros s.cast
  pub one_votes : ones s.sent ≡ s.c1 + ones s.cast
  pub room : 7 < s.behind

zeros-append : (xs ys : List ℕ) → zeros (xs ++ ys) ≡ zeros xs + zeros ys
zeros-append [] ys = omega arith
zeros-append (x ∷ xs) ys = omega (arith, zeros-append xs ys)

ones-append : (xs ys : List ℕ) → ones (xs ++ ys) ≡ ones xs + ones ys
ones-append [] ys = omega arith
ones-append (x ∷ xs) ys = omega (arith, ones-append xs ys)

pub zeros-ones : (xs : List ℕ) → zeros xs + ones xs ≡ length xs
zeros-ones [] = omega arith
zeros-ones (x ∷ xs) = ground (arith, zeros-ones xs)

-- A process ends its step in such a room, or waits.
abbrev pub Kept : ℕ → Outcome Room → Type 0
Kept n (ok s) = IsPolling n s
Kept n blocked = Unit
Kept n m = ⊥

pub open_round-ok :
    (n : ℕ) (s : Room)
    → 7 < s.behind
    → open_round n s ≡ ok (record s { ballots = s.ballots + n; c0 = 0; c1 = 0; sent = [] })
unfolding open_round whole
open_round-ok n s room = elim (Bool-cases (n == 0)) [
  | inl e ↦ rw e refl
  | inr e ↦ rw (e, lt→ltb 7 s.behind room) refl
]

open-IsPolling :
    (n : ℕ) (s : Room)
    → 7 < s.behind
    → s.ballots + s.held + length s.cast ≡ 0
    → s.cast ≡ []
    → Kept n (open_round n s)
open-IsPolling n s room none_left empty = rw (open_round-ok n s room) (record {
  all = omega (arith, none_left);
  zero_votes = rw empty refl;
  one_votes = rw empty refl;
  room = room;
})

pub start-IsPolling : (behind n : ℕ) → 7 < behind → Kept n (start behind n)
unfolding start
start-IsPolling behind n room = open-IsPolling n _ room refl refl

take-IsPolling : (n b : ℕ) (s : Room) → s.ballots ≡ b → IsPolling n s → Kept n (take_ballot b s)
unfolding take_ballot whole
take-IsPolling n zero s e p = tt
take-IsPolling n (suc b) s e p = rw (lt→ltb 7 s.behind p.room) (record {
  all = omega (arith, e, p.all);
  zero_votes = p.zero_votes;
  one_votes = p.one_votes;
  room = p.room;
})

vote-IsPolling :
    (n toss h : ℕ) (s : Room) → s.held ≡ h → IsPolling n s → Kept n (send_vote toss h s)
unfolding send_vote whole
vote-IsPolling n toss zero s e p = tt
vote-IsPolling n toss (suc h) s e p =
    let v = toss % 2 ∷ [] in
    rw (lt→ltb 7 s.behind p.room) (record {
      all = omega (arith, e, p.all, length-append s.cast v);
      zero_votes = omega (arith, p.zero_votes, zeros-append s.sent v, zeros-append s.cast v);
      one_votes = omega (arith, p.one_votes, ones-append s.sent v, ones-append s.cast v);
      room = p.room;
    })

count-IsPolling :
    (n : ℕ) (queue : List ℕ) (s : Room)
    → s.cast ≡ queue
    → IsPolling n s
    → Kept n (count_vote queue s)
unfolding count_vote whole
count-IsPolling n [] s e p = tt
count-IsPolling n (v ∷ rest) s e p =
    let size : length s.cast ≡ suc (length rest) = ap length e in
    let z : zeros s.cast ≡ zeros (v ∷ rest) = ap zeros e in
    let o : ones s.cast ≡ ones (v ∷ rest) = ap ones e in
    elim (Bool-cases (v == 0)) [
      | inl q ↦
          rw (lt→ltb 7 s.behind p.room, q)
            (record {
              all = omega (arith, p.all, size);
              zero_votes = ground (arith, p.zero_votes, z, q);
              one_votes = ground (arith, p.one_votes, o, q);
              room = p.room;
            })
      | inr q ↦
          rw (lt→ltb 7 s.behind p.room, q)
            (record {
              all = omega (arith, p.all, size);
              zero_votes = ground (arith, p.zero_votes, z, q);
              one_votes = ground (arith, p.one_votes, o, q);
              room = p.room;
            })
    ]

pub empty : (xs : List ℕ) → length xs ≡ 0 → xs ≡ []
empty [] h = refl
empty (x ∷ xs) h = absurd (omega arith)

-- Whatever a process does next, every child is still waiting, voting or counted, and no vote is
-- lost or counted twice; the next round begins with empty queues.
pub step-IsPolling : (n : ℕ) (e : Event) (s : Room) → IsPolling n s → Kept n (step n e s)
unfolding step
step-IsPolling n receive s p = take-IsPolling n s.ballots s refl p
step-IsPolling n (vote toss) s p = vote-IsPolling n toss s.held s refl p
step-IsPolling n count s p = elim (Bool-cases (s.c0 + s.c1 == n)) [
  | inl q ↦ rw q tt
  | inr q ↦ rw q (count-IsPolling n s.cast s refl p)
]
step-IsPolling n finish s p = elim (Bool-cases (s.c0 + s.c1 == n)) [
  | inl q ↦
      let none_left : s.ballots + s.held + length s.cast ≡ 0 = ground (arith, p.all) in
      rw q (open-IsPolling n _ p.room none_left (empty s.cast (omega (arith, none_left))))
  | inr q ↦ rw q tt
]

after_step :
    (n : ℕ) (m : Outcome Room) (rest : Room → Outcome Room) (s' : Room)
    → Kept n m
    → ((t : Room) → IsPolling n t → rest t ≡ ok s' → IsPolling n s')
    → (m >>= rest) ≡ ok s'
    → IsPolling n s'
after_step n (ok t) rest s' kept go e = go t kept e
after_step n blocked rest s' kept go e = absurd (ground arith)
after_step n fault rest s' kept go e = absurd kept
after_step n stopped rest s' kept go e = absurd kept
after_step n out_of_fuel rest s' kept go e = absurd kept

-- The same for any number of steps.
pub run-IsPolling :
    (n : ℕ) (es : List Event) (s s' : Room) → IsPolling n s → run n es s ≡ ok s' → IsPolling n s'
unfolding run
run-IsPolling n [] s s' p e = let same : s ≡ s' = cc in subst (IsPolling n) same p
run-IsPolling n (x ∷ es) s s' p e =
    after_step n (step n x s) (run n es) s' (step-IsPolling n x s p)
      (λ t q r. run-IsPolling n es t s' q r) e

-- The votes of the round that is open after an event, if those before it were `vs`, and after many.
abbrev pub vote_of : Event → List ℕ → List ℕ
vote_of (vote toss) vs = vs ++ toss % 2 ∷ []
vote_of finish vs = []
vote_of receive vs = vs
vote_of count vs = vs

abbrev pub votes_of : List Event → List ℕ → List ℕ
votes_of [] vs = vs
votes_of (e ∷ es) vs = votes_of es (vote_of e vs)

open-no_votes : (n : ℕ) (s : Room) → AllOk (λ t. t.sent ≡ []) (open_round n s)
unfolding open_round
open-no_votes n s = AllOk-after (λ t. t.sent ≡ []) (if n == 0 then ok tt else whole s) _ (λ u. refl)

pub start-no_votes : (behind n : ℕ) → AllOk (λ t. t.sent ≡ []) (start behind n)
unfolding start
start-no_votes behind n = open-no_votes n _

take-votes : (b : ℕ) (s : Room) → AllOk (λ t. t.sent ≡ s.sent) (take_ballot b s)
unfolding take_ballot
take-votes zero s = tt
take-votes (suc b) s = AllOk-after (λ t. t.sent ≡ s.sent) (whole s) _ (λ u. refl)

send-votes :
    (toss h : ℕ) (s : Room) → AllOk (λ t. t.sent ≡ s.sent ++ toss % 2 ∷ []) (send_vote toss h s)
unfolding send_vote
send-votes toss zero s = tt
send-votes toss (suc h) s =
    AllOk-after (λ t. t.sent ≡ s.sent ++ toss % 2 ∷ []) (whole s) _ (λ u. refl)

count-votes : (queue : List ℕ) (s : Room) → AllOk (λ t. t.sent ≡ s.sent) (count_vote queue s)
unfolding count_vote
count-votes [] s = tt
count-votes (v ∷ rest) s =
    AllOk-after (λ t. t.sent ≡ s.sent) (whole s) _
      (λ u. elim (Bool-cases (v == 0)) [ inl e ↦ rw e refl | inr e ↦ rw e refl ])

step-votes : (n : ℕ) (e : Event) (s : Room) → AllOk (λ t. t.sent ≡ vote_of e s.sent) (step n e s)
unfolding step
step-votes n receive s = take-votes s.ballots s
step-votes n (vote toss) s = send-votes toss s.held s
step-votes n count s = elim (Bool-cases (s.c0 + s.c1 == n)) [
  | inl e ↦ rw e tt
  | inr e ↦ rw e (count-votes s.cast s)
]
step-votes n finish s = elim (Bool-cases (s.c0 + s.c1 == n)) [
  | inl e ↦ rw e (open-no_votes n _)
  | inr e ↦ rw e tt
]

-- The room's `sent` holds the votes of the events.
pub run-votes :
    (n : ℕ) (es : List Event) (s : Room) → AllOk (λ t. t.sent ≡ votes_of es s.sent) (run n es s)
unfolding run
run-votes n [] s = refl
run-votes n (e ∷ es) s =
    AllOk-bind (λ t. t.sent ≡ vote_of e s.sent) (λ t. t.sent ≡ votes_of es (vote_of e s.sent))
      (step n e s) (run n es) (step-votes n e s)
      (λ a voted.
        subst (λ vs. AllOk (λ t. t.sent ≡ votes_of es vs) (run n es a)) voted (run-votes n es a))

-- ===== src/Labs/Voting.antt =====
-- The processes of labs/2016A7PS0064P_lab3/voting.c, which pass their messages through two queues,
-- as one state and the steps that the processes take in any order.
pub mod Rounds
pub mod Results
use network_programming_assi.Base.{
  ℕ, zero, suc, ◌+◌, ◌%◌, ◌<◌, ◌≡◌, refl, sym, ◌⊎◌, inl, inr, Bool, true, false, not, List, [], ◌∷◌,
  ◌++◌, Outcome, ok, blocked, require, ◌>>=◌, ◌>>◌, ◌==◌, ltb, if◌then◌else◌, length, length-append,
  arith, Bool-cases,
}

-- What the parent prints: a draw, or who wins, and the votes for 0 and for 1.
pub data Result : Type 0 where
  draw : ℕ → Result
  wins : ℕ → ℕ → ℕ → Result

-- `ballots` are the messages in the queue to the children, `held` the children that took one and
-- have not voted, `cast` the queue of votes, `c0` and `c1` the counts. `sent` are the votes of this
-- round in order, and `results` what was printed. `behind` are the bytes behind a process's message
-- that it may read and write: the messages are sent and received with `sizeof(m)`, 16 bytes from the
-- text on, of which 8 are behind the message.
pub record Room : Type 0 where
  pub ballots : ℕ
  pub held : ℕ
  pub cast : List ℕ
  pub c0 : ℕ
  pub c1 : ℕ
  pub sent : List ℕ
  pub results : List Result
  pub behind : ℕ

-- A read or a write of a whole message.
unfoldable pub whole : Room → Outcome (Unit {0})
whole s = require (ltb 7 s.behind)

-- A round begins: the parent sends a message for each child.
unfoldable pub open_round : ℕ → Room → Outcome Room
open_round n s = do
  if n == 0 then ok tt else whole s
  ok (record s { ballots = s.ballots + n; c0 = 0; c1 = 0; sent = [] })

unfoldable pub start : ℕ → ℕ → Outcome Room
start behind n = open_round n (record {
  ballots = 0;
  held = 0;
  cast = [];
  c0 = 0;
  c1 = 0;
  sent = [];
  results = [];
  behind = behind;
})

unfoldable pub result : ℕ → ℕ → Result
result c0 c1 = if c0 == c1 then draw c0 else wins (if ltb c0 c1 then 1 else 0) c0 c1

pub data Event : Type 0 where
  receive : Event
  vote : ℕ → Event
  count : Event
  finish : Event

-- A receive from an empty queue waits.
unfoldable pub take_ballot : ℕ → Room → Outcome Room
take_ballot zero s = blocked
take_ballot (suc b) s = do whole s; ok (record s { ballots = b; held = s.held + 1 })

-- The vote is `rand() % 2`.
unfoldable pub send_vote : ℕ → ℕ → Room → Outcome Room
send_vote toss zero s = blocked
send_vote toss (suc h) s = do
  whole s
  ok (record s { held = h; cast = s.cast ++ toss % 2 ∷ []; sent = s.sent ++ toss % 2 ∷ [] })

unfoldable pub count_vote : List ℕ → Room → Outcome Room
count_vote [] s = blocked
count_vote (v ∷ rest) s = do
  whole s
  ok (
      if v == 0
      then record s { cast = rest; c0 = s.c0 + 1 }
      else record s { cast = rest; c1 = s.c1 + 1 })

-- `count` is a round of the loop that counts, and `finish` what follows it.
unfoldable pub step : ℕ → Event → Room → Outcome Room
step n receive s = take_ballot s.ballots s
step n (vote toss) s = send_vote toss s.held s
step n count s = if s.c0 + s.c1 == n then blocked else count_vote s.cast s
step n finish s =
    if s.c0 + s.c1 == n
    then open_round n (record s { results = s.results ++ result s.c0 s.c1 ∷ [] })
    else blocked

unfoldable pub run : ℕ → List Event → Room → Outcome Room
run n [] s = ok s
run n (e ∷ es) s = step n e s >>= run n es

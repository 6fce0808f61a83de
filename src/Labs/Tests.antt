-- ===== src/Labs/Tests.antt =====
-- Runs of the programs under labs/, and the theorems at them.
use network_programming_assi.Base.{
  ℕ, ◌%◌, ◌/◌, ◌≡◌, List, refl, [], ◌∷◌, ◌++◌, true, ok, Str, arith, has,
}
use network_programming_assi.Labs.Checksum.{
  checksum, fold, sum_words, HasWords, nil, word, checksum-verifies,
}
use network_programming_assi.Labs.Balancer.Parent.{
  Balancer, Event, round, signal, run, step, poll, available,
}
use network_programming_assi.Labs.Balancer.Turns.{IsReady, run_turn}
use network_programming_assi.Labs.Voting

-- An echo request: type 8, code 0, no checksum yet, an id and a sequence number.
abbrev request : Str
request = 8 ∷ 0 ∷ 0 ∷ 0 ∷ 18 ∷ 52 ∷ 0 ∷ 1 ∷ []

request_words : HasWords 4 request
request_words = word 8 0 (omega arith) (omega arith) (
    word 0 0 (omega arith) (omega arith)
      (word 18 52 (omega arith) (omega arith) (word 0 1 (omega arith) (omega arith) nil)))

-- 18 + 256 * 52 + 256 * 1 + 8 = 13594, and 65535 - 13594 = 51941.
request_sum : checksum request ≡ 51941
unfolding checksum fold sum_words
request_sum = refl

checksum-verifies_example :
    checksum (request ++ (checksum request % 256) ∷ (checksum request / 256) ∷ []) ≡ 0
checksum-verifies_example = checksum-verifies 4 request request_words (omega arith)

-- Three children, of which the first is reading.
abbrev three : Balancer
three = record { busy = 1 ∷ 0 ∷ 0 ∷ []; ptr = 0; given = 0 ∷ [] }

three-IsReady : IsReady 3 three
three-IsReady = record { size = refl; at = omega arith }

abbrev turns : List Event
turns = round ∷ signal 0 ∷ round ∷ round ∷ round ∷ []

turns-run :
    run turns three ≡ ok (record { busy = 1 ∷ 1 ∷ 1 ∷ []; ptr = 1; given = 0 ∷ 1 ∷ 2 ∷ 0 ∷ [] })
unfolding run step poll available
turns-run = refl

run_turn_example :
    (s' : Balancer) × (new : List ℕ) × (run turns three ≡ ok s')
    × (s'.given ≡ 0 ∷ new)
    × (has 2 new ≡ true)
run_turn_example =
    run_turn turns three 2 3 three-IsReady (omega arith, tt) (omega arith) refl (omega arith)

-- Three children, of which the second votes before the third has taken its message.
abbrev events : List Voting.Event
events =
    Voting.receive
    ∷ Voting.receive
    ∷ Voting.vote 5
    ∷ Voting.vote 2
    ∷ Voting.count
    ∷ Voting.receive
    ∷ Voting.vote 1
    ∷ Voting.count
    ∷ Voting.count
    ∷ []

abbrev counted : Voting.Room
counted = record {
  ballots = 0;
  held = 0;
  cast = [];
  c0 = 1;
  c1 = 2;
  sent = 1 ∷ 0 ∷ 1 ∷ [];
  results = [];
  behind = 8;
}

-- ===== src/Labs/Balancer/Parent.antt =====
-- The loop of the parent in labs/2016A7PS0064P_lab1/load_balancer.c and the handler of the signal by
-- which a child says that it is available.
use network_programming_assi.Base.{
  ℕ, ◌+◌, ◌%◌, Option, none, some, List, [], ◌∷◌, ◌++◌, Outcome, ok, fault, ◌>>=◌, ◌>>◌, ◌==◌, ltb,
  if◌then◌else◌, get_elem?, set, length, replicate, require,
}

-- `given` are the processes that were told to read, in order.
pub record Balancer : Type 0 where
  pub busy : List ℕ
  pub ptr : ℕ
  pub given : List ℕ

unfoldable pub start : ℕ → Balancer
start n = record { busy = replicate n 0; ptr = 0; given = [] }

abbrev pub element : Option ℕ → Outcome ℕ
element none = fault
element (some b) = ok b

abbrev pub give : Balancer → Balancer
give s = record s { busy = set s.busy s.ptr 1; given = s.given ++ s.ptr ∷ [] }

-- A round of the loop: the process at `ptr` is told to read if it is not busy.
unfoldable pub poll : Balancer → Outcome Balancer
poll s = do
  b ← element (get_elem? s.busy s.ptr)
  ok (record (if b == 0 then give s else s) { ptr = (s.ptr + 1) % length s.busy })

-- handler_sig2 for the process `i`.
unfoldable pub available : ℕ → Balancer → Outcome Balancer
available i s = do require (ltb i (length s.busy)); ok (record s { busy = set s.busy i 0 })

-- What happens to the parent: a round of its loop, or the signal from a process.
pub data Event : Type 0 where
  round : Event
  signal : ℕ → Event

unfoldable pub step : Event → Balancer → Outcome Balancer
step round s = poll s
step (signal i) s = available i s

unfoldable pub run : List Event → Balancer → Outcome Balancer
run [] s = ok s
run (e ∷ es) s = do s ← step e s; run es s

-- ===== src/BigFs/Receiver/Tests.antt =====
-- The theorems on the double buffer of Assignment2P1 at small buffers.
use network_programming_assi.Base.{
  ◌≡◌, refl, Str, List, [], ◌∷◌, ◌++◌, true, false, ok, codes, arith, get_or, length,
}
use network_programming_assi.BigFs.Receiver.Buffers.{
  Half, Buffers, empty, copy_half, copy_string, finish, cross, read_round, switch, fill, store,
}
use network_programming_assi.BigFs.Receiver.Refine.{
  Event, arrive, take, deliver, queue, next_string, deliver-queue,
}

abbrev events : List Event
events = arrive (codes "ls" ++ 0 ∷ codes "c") ∷ take ∷ arrive (codes "d" ++ 0 ∷ []) ∷ take ∷ []

events_run : deliver 16 events empty ≡ ok (codes "ls" ∷ codes "cd" ∷ [])
unfolding deliver copy_string copy_half finish cross read_round switch fill store
events_run = refl

deliver-queue_example : deliver 16 events empty ≡ ok (codes "ls" ∷ codes "cd" ∷ [])
unfolding queue next_string
deliver-queue_example = deliver-queue 16 events (omega arith)

-- A half that holds these bytes, of which none was taken.
abbrev holding : Str → Half
holding w = record { bytes = λ i. get_or w i 0; start = length w; cur = 0 }

-- The string `abcde` lies across the halves.
abbrev split_string : Buffers
split_string = record {
  first = holding (codes "abc");
  second = holding (codes "de" ++ 0 ∷ codes "f");
  bufsel = true;
  cursel = false;
}

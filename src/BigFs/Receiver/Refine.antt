-- ===== src/BigFs/Receiver/Refine.antt =====
-- The double buffer of Assignment2P1 against a queue of bytes, for any order of arrivals and copies.
use network_programming_assi.Base.{
  ℕ, suc, ◌+◌, ◌<◌, ◌≤◌, ◌≡◌, refl, ap, Str, List, [], ◌∷◌, ◌++◌, true, false, ◌&&◌, Outcome, ok,
  blocked, ◌>>=◌, ◌==◌, ltb, leb, if◌then◌else◌, length, arith, Bool-cases, inl, inr, Option, none,
  some, ==_iff,
}
use network_programming_assi.BigFs.Receiver.Buffers.{
  Half, Buffers, empty, empty_half, fill, read_round, copy_string, copy_to_string,
}
use network_programming_assi.BigFs.Receiver.Copy.{IsText, not_blocked}
use network_programming_assi.BigFs.Receiver.Delivery.{
  Holds, front, read_round-fill, fill-Holds, passed, rewound, passed-Holds, copy-front,
  copy_half-waits,
}

-- What happens at the buffers: bytes arrive and the thread reads them, or the program takes a string.
pub data Event : Type 0 where
  arrive : Str → Event
  take : Event

-- The strings that the program takes.
unfoldable pub deliver : ℕ → List Event → Buffers → Outcome (List Str)
deliver limit [] s = ok []
deliver limit (arrive chunk ∷ es) s = deliver limit es (read_round limit chunk s)
deliver limit (take ∷ es) s = do
  (w, s) ← copy_to_string limit s
  rest ← deliver limit es s
  ok (w ∷ rest)

abbrev extend : ℕ → Option (Str × Str) → Option (Str × Str)
extend c none = none
extend c (some (w, r)) = some (c ∷ w, r)

-- The bytes before the first NUL, and those behind it.
unfoldable pub next_string : Str → Option (Str × Str)
next_string [] = none
next_string (c ∷ u) = let more = extend c (next_string u) in if c == 0 then some ([], u) else more

-- The same events at a queue of bytes without bound.
unfoldable pub queue : List Event → Str → Outcome (List Str)
queue [] u = ok []
queue (arrive chunk ∷ es) u = queue es (u ++ chunk)
queue (take ∷ es) u = elim (next_string u) [
  | none ↦ blocked
  | some (w, r) ↦ do rest ← queue es r; ok (w ∷ rest)
]

-- How many bytes arrive.
abbrev pub arriving : List Event → ℕ
arriving [] = 0
arriving (arrive chunk ∷ es) = length chunk + arriving es
arriving (take ∷ es) = arriving es

-- What `next_string` finds.
abbrev Next : Str → Option (Str × Str) → Type 0
Next u none = IsText u
Next u (some (w, r)) = (u ≡ w ++ 0 ∷ r) × IsText w

extend-Next :
    (c : ℕ) (u : Str) (o : Option (Str × Str))
    → (c == 0) ≡ false
    → Next u o
    → Next (c ∷ u) (extend c o)
extend-Next c u none ne text = (ne, text)
extend-Next c u (some (w, r)) ne (e, text) = (ap (λ l. c ∷ l) e, (ne, text))

next_string-Next : (u : Str) → Next u (next_string u)
unfolding next_string
next_string-Next [] = tt
next_string-Next (c ∷ u) = elim (Bool-cases (c == 0)) [
  | inl e ↦ rw e (ap (λ d. d ∷ u) ((==_iff c 0).0 e), tt)
  | inr e ↦ rw e (extend-Next c u (next_string u) e (next_string-Next u))
]

-- Without a NUL the copy waits.
copy-waits :
    (limit : ℕ) (h g : Half) (u : Str)
    → Holds h u
    → IsText u
    → h.start < limit
    → copy_to_string limit (front h g) ≡ blocked
unfolding copy_string
copy-waits limit h g [] holds text small =
    let t : (ltb h.start limit && leb h.start h.cur) ≡ true = ground (arith, holds.count) in rw t
copy-waits limit h g (b ∷ u) holds text small =
    let more : leb h.start h.cur ≡ false = ground (arith, holds.count) in
    rw (
      not_blocked limit h more,
      copy_half-waits (suc (suc h.start)) limit h h.cur b u [] (omega (arith, holds.count)) text
          holds.reads holds.count (omega arith),
    )

deliver-take :
    (limit : ℕ) (es : List Event) (h g : Half) (u : Str) (o : Option (Str × Str))
    → next_string u ≡ o
    → Next u o
    → Holds h u
    → h.start < limit
    → ((w r : Str)
        → Holds (passed (length w) h) r
        → deliver limit es (front (passed (length w) h) (rewound g)) ≡ queue es r)
    → deliver limit (take ∷ es) (front h g) ≡ queue (take ∷ es) u
unfolding deliver queue
deliver-take limit es h g u none e text holds small later =
    rw (e, queue, copy-waits limit h g u holds text small)
deliver-take limit es h g u (some (w, r)) e (split, text) holds small later =
    let holds' : Holds h (w ++ 0 ∷ r) = rw split at holds in
    rw (
      e,
      queue,
      copy-front limit h g w r holds' text (omega arith),
      later w r (passed-Holds w r holds'),
    )

fill-start :
    (chunk : Str) (h : Half) (n limit : ℕ)
    → h.start + (length chunk + n) < limit
    → (fill chunk h).start + n < limit
unfolding fill
fill-start chunk h n limit room = omega arith

deliver-arrive :
    (limit : ℕ) (es : List Event) (chunk : Str) (h g : Half) (u : Str)
    → h.start + length chunk ≤ limit
    → deliver limit es (front (fill chunk h) g) ≡ queue es (u ++ chunk)
    → deliver limit (arrive chunk ∷ es) (front h g) ≡ queue (arrive chunk ∷ es) u
unfolding deliver queue
deliver-arrive limit es chunk h g u room later = rw (read_round-fill limit chunk h g room) later

deliver-Holds :
    (limit : ℕ) (es : List Event) (h g : Half) (u : Str)
    → Holds h u
    → h.start + arriving es < limit
    → deliver limit es (front h g) ≡ queue es u
deliver-Holds limit [] h g u holds room = unfold deliver queue in refl
deliver-Holds limit (arrive chunk ∷ es) h g u holds room =
    deliver-arrive limit es chunk h g u (omega arith) (
      deliver-Holds limit es (fill chunk h) g (u ++ chunk) (fill-Holds chunk holds)
        (fill-start chunk h (arriving es) limit room))
deliver-Holds limit (take ∷ es) h g u holds room =
    deliver-take limit es h g u (next_string u) refl (next_string-Next u) holds (omega arith)
      (λ w r holds'. deliver-Holds limit es (passed (length w) h) (rewound g) r holds' room)

-- As long as fewer bytes arrive than the limit of the buffers, the strings that the program takes
-- are those of a queue of bytes cut at each NUL, whatever the sizes of the chunks and the order of
-- arrivals and copies; and the program waits exactly where the queue has no complete string.
pub deliver-queue :
    (limit : ℕ) (es : List Event) → arriving es < limit → deliver limit es empty ≡ queue es []
deliver-queue limit es room =
    deliver-Holds limit es empty_half empty_half [] (record { reads = tt; count = omega arith })
      (omega arith)

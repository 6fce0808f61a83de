-- ===== src/BigFs/DataServer/Pieces.antt =====
-- The loop of `printfile` in Assignment2P1/fileDataServer.c, and the client that reads what it
-- writes.
use network_programming_assi.Base.{
  ℕ, zero, suc, ◌<◌, ◌≤◌, ◌≡◌, refl, ap, ◌∙◌, Str, List, [], ◌∷◌, ◌++◌, append_assoc, append-nil,
  Outcome, ok, fault, blocked, stopped, out_of_fuel, ◌>>=◌, leb, length, take, drop,
  take-append-drop, length-drop, true, false, arith, Bool-cases, inl, inr,
}
use network_programming_assi.BigFs.Receiver.Copy.{IsText}
use network_programming_assi.BigFs.DataServer.Server.{pieces}
use network_programming_assi.BigFs.Client.Strings.{strings, strings-text, gather}

IsText-take : (n : ℕ) (s : Str) → IsText s → IsText (take n s)
IsText-take zero s h = tt
IsText-take (suc n) [] h = tt
IsText-take (suc n) (c ∷ s) h = (h.0, IsText-take n s h.1)

IsText-drop : (n : ℕ) (s : Str) → IsText s → IsText (drop n s)
IsText-drop zero s h = h
IsText-drop (suc n) [] h = tt
IsText-drop (suc n) (c ∷ s) h = IsText-drop n s h.1

-- What the client makes of the bytes, with `more` behind them.
abbrev pub gathered : Outcome Str → Str → Outcome (Str × List Str)
gathered out more = out >>= λ u. gather (strings (u ++ more))

gathered-cons :
    (out : Outcome Str) (c : ℕ) (w more t : Str)
    → IsText (c ∷ w)
    → gathered out more ≡ ok (t, strings more)
    → gathered (out >>= λ rest. ok ((c ∷ w) ++ 0 ∷ rest)) more ≡ ok ((c ∷ w) ++ t, strings more)
unfolding gather
gathered-cons (ok u) c w more t text e =
    rw (append_assoc w (0 ∷ u) more, strings-text (c ∷ w) (u ++ more) text, e) refl
gathered-cons fault c w more t text e = ground arith
gathered-cons blocked c w more t text e = ground arith
gathered-cons stopped c w more t text e = ground arith
gathered-cons out_of_fuel c w more t text e = ground arith

gathered-last :
    (c : ℕ) (s more : Str)
    → IsText (c ∷ s)
    → gathered (ok ((c ∷ s) ++ 0 ∷ 0 ∷ [])) more ≡ ok (c ∷ s, strings more)
unfolding gather
gathered-last c s more text =
    rw
      (
        append_assoc s (0 ∷ 0 ∷ []) more,
        strings-text (c ∷ s) (0 ∷ more) text,
        strings-text [] more tt,
        append-nil s,
      )
      refl

pieces-last :
    (k unit c : ℕ) (s : Str)
    → length (c ∷ s) ≤ unit
    → pieces (suc k) unit (c ∷ s) ≡ ok ((c ∷ s) ++ 0 ∷ 0 ∷ [])
unfolding pieces
pieces-last k unit c s le = let fit : leb (length (c ∷ s)) unit ≡ true = ground arith in rw fit refl

pieces-more :
    (k u c : ℕ) (s : Str)
    → suc u < length (c ∷ s)
    → pieces (suc k) (suc u) (c ∷ s)
      ≡ (pieces k (suc u) (drop u s) >>= λ rest. ok ((c ∷ take u s) ++ 0 ∷ rest))
unfolding pieces
pieces-more k u c s lt =
    let long : leb (length (c ∷ s)) (suc u) ≡ false = ground arith in rw long refl

-- If the unit is positive and there are more rounds than bytes, the client puts the pieces of a
-- text that is not empty and holds no NUL together again, and what was sent behind them is left
-- for later.
pub pieces-gathered :
    (k unit : ℕ) (s more : Str)
    → 0 < unit
    → 0 < length s
    → IsText s
    → length s < k
    → gathered (pieces k unit s) more ≡ ok (s, strings more)
pieces-gathered zero unit s more some_unit full text fuel = absurd (omega arith)
pieces-gathered k zero s more some_unit full text fuel = absurd (omega arith)
pieces-gathered k unit [] more some_unit full text fuel = absurd (omega arith)
pieces-gathered (suc k) (suc u) (c ∷ s) more some_unit full text fuel =
    elim (Bool-cases (leb (length (c ∷ s)) (suc u))) [
      | inl e ↦ rw (pieces-last k (suc u) c s (ground arith)) (gathered-last c s more text)
      | inr e ↦
          let rest =
            pieces-gathered k (suc u) (drop u s) more some_unit (ground (arith, length-drop u s))
              (IsText-drop u s text.1) (omega (arith, length-drop u s)) in
          rw (pieces-more k u c s (ground arith)) (
            gathered-cons (pieces k (suc u) (drop u s)) c (take u s) more (drop u s)
              (text.0, IsText-take u s text.1) rest
            ∙ ap (λ t. ok (c ∷ t, strings more)) (take-append-drop u s))
    ]

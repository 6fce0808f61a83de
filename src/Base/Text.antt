-- ===== src/Base/Text.antt =====
-- C strings: the bytes before the NUL.
use Prim.Native.Nat.{ℕ, ◌+◌, ◌<◌}
use Prim.Native.Char.{code}
use Prim.Native.String.{String}
use mathlib.Core.Path.{◌≡◌, refl, ◌∙◌}
use mathlib.Core.Logic.{◌↔◌, inl, inr}
use mathlib.Core.Bool.{Bool, true, false, ◌&&◌}
use mathlib.Core.List.{List, [], ◌∷◌, ◌++◌}
use mathlib.Core.Option.{Option, none, some}
use native.Mathlib.Omega.{arith}
use network_programming_assi.Base.Tests.{◌==◌, ==_refl, ltb, if◌then◌else◌, Bool-cases}
use network_programming_assi.Base.Running.{Outcome, require}
use network_programming_assi.Base.Lists.{has, length}

abbrev pub Str : Type 0
Str = List ℕ

-- The bytes of an ASCII literal. `String` has its own `[]` and `∷`.
abbrev pub codes : String → Str
codes String.[] = []
codes (String.◌∷◌ c s) = code c ∷ codes s

-- strcmp(s, t) == 0
unfoldable pub str_eq : Str → Str → Bool
str_eq [] [] = true
str_eq [] (d ∷ t) = false
str_eq (c ∷ s) [] = false
str_eq (c ∷ s) (d ∷ t) = (c == d) && str_eq s t

pub str_eq→eq : (s t : Str) → str_eq s t ≡ true → s ≡ t
unfolding str_eq
str_eq→eq [] [] h = refl
str_eq→eq [] (d ∷ t) h = cc
str_eq→eq (c ∷ s) [] h = cc
str_eq→eq (c ∷ s) (d ∷ t) h = ground (arith, str_eq→eq s t)

pub str_eq_refl : (s : Str) → str_eq s s ≡ true
unfolding str_eq
str_eq_refl [] = refl
str_eq_refl (c ∷ s) = rw (==_refl c, str_eq_refl s)

pub str_eq_iff : (s t : Str) → (str_eq s t ≡ true) ↔ (s ≡ t)
str_eq_iff s t = (str_eq→eq s t, λ e. rw e (str_eq_refl t))

-- strcpy of `s` into `char a[n]` is defined if there is room for the string and its NUL.
abbrev pub fits : ℕ → Str → Outcome (Unit {0})
fits n s = require (ltb (length s) n)

abbrev push_head : ℕ → List Str → List Str
push_head c [] = (c ∷ []) ∷ []
push_head c (w ∷ ws) = (c ∷ w) ∷ ws

-- The results of `strsep(&s, sep)` until it returns NULL: the pieces between separators, empty
-- ones included; there is always one.
unfoldable pub split_on : ℕ → Str → List Str
split_on sep [] = [] ∷ []
split_on sep (c ∷ s) = let rest = split_on sep s in if c == sep then [] ∷ rest else push_head c rest

length-push_head : (c : ℕ) (ws : List Str) → 0 < length ws → length (push_head c ws) ≡ length ws
length-push_head c [] more = absurd (omega arith)
length-push_head c (w ∷ ws) more = refl

-- Each separator begins one more piece.
pub length-split_on :
    (sep c : ℕ) (s : Str)
    → 0 < length (split_on sep s)
    → length (split_on sep (c ∷ s)) ≡ length (split_on sep s) + (if c == sep then 1 else 0)
unfolding split_on
length-split_on sep c s more = elim (Bool-cases (c == sep)) [
  | inl e ↦ rw e (omega arith)
  | inr e ↦ rw e (length-push_head c (split_on sep s) more ∙ omega arith)
]

-- The last of the pieces, which a loop over them leaves in a variable.
unfoldable pub last_or : Str → List Str → Str
last_or d [] = d
last_or d (w ∷ ws) = last_or w ws

-- The bytes before the first `sep`.
unfoldable pub before : ℕ → Str → Str
before sep [] = []
before sep (c ∷ s) = let rest = before sep s in if c == sep then [] else c ∷ rest

-- strtok(s, sep): the first piece that is not empty, or none for NULL.
unfoldable pub strtok : ℕ → Str → Option Str
strtok sep [] = none
strtok sep (c ∷ s) =
    let rest = strtok sep s in let word = before sep s in if c == sep then rest else some (c ∷ word)

-- No byte of the string is `sep`.
abbrev pub Without : ℕ → Str → Type 0
Without sep [] = Unit
Without sep (c ∷ s) = ((c == sep) ≡ false) × Without sep s

pub has-Without : (sep : ℕ) (s : Str) → has sep s ≡ false → Without sep s
has-Without sep [] h = tt
has-Without sep (c ∷ s) h = (ground arith, has-Without sep s (ground arith))

pub before-append : (sep : ℕ) (w s : Str) → Without sep w → before sep (w ++ (sep ∷ s)) ≡ w
unfolding before
before-append sep [] s h = rw (==_refl sep) refl
before-append sep (c ∷ w) s h = rw (h.0, before-append sep w s h.1) refl

-- The first piece of a line that begins with a word.
pub strtok-append :
    (sep c : ℕ) (w s : Str) → Without sep (c ∷ w) → strtok sep ((c ∷ w) ++ (sep ∷ s)) ≡ some (c ∷ w)
unfolding strtok
strtok-append sep c w s h = rw (h.0, before-append sep w s h.1) refl

-- Without a separator there is one piece.
pub split_on_word : (sep : ℕ) (w : Str) → Without sep w → split_on sep w ≡ w ∷ []
unfolding split_on
split_on_word sep [] free = refl
split_on_word sep (c ∷ w) free = rw (free.0, split_on_word sep w free.1) refl

-- ===== src/Cluster/Arguments.antt =====
-- How Assignment1P2/clustershell_client.c and clustershell_server.c take a command apart.
use network_programming_assi.Base.{
  ℕ, zero, suc, ◌+◌, ◌<◌, ◌≡◌, refl, ap, ◌∙◌, inl, inr, Bool, true, false, List, [], ◌∷◌, ◌++◌, Str,
  split_on, length-split_on, Without, ◌==◌, if◌then◌else◌, length, All, arith, Bool-cases,
}

unfoldable pub spaces : Str → ℕ
spaces [] = 0
spaces (c ∷ s) = (if c == b' ' then 1 else 0) + spaces s

abbrev pub is_empty : Str → Bool
is_empty [] = true
is_empty (c ∷ w) = false

-- The loop over the pieces, with room for so many entries: the arguments, and whether NULL was
-- stored after them. An empty piece is overwritten by the next.
unfoldable pub fill : List Str → ℕ → List Str × Bool
fill pieces zero = ([], false)
fill [] (suc room) = ([], true)
fill (w ∷ ws) (suc room) =
    let rest = fill ws (if is_empty w then suc room else room) in
    if is_empty w then rest else (w ∷ rest.0, rest.1)

-- The array has `count` entries.
unfoldable pub parse_args : Str → List Str × Bool
parse_args msg = fill (split_on b' ' msg) (spaces msg + 2)

-- The words of a message: the pieces between spaces that are not empty.
unfoldable pub nonempty : List Str → List Str
nonempty [] = []
nonempty (w ∷ ws) = if is_empty w then nonempty ws else w ∷ nonempty ws

unfoldable pub words : Str → List Str
words msg = nonempty (split_on b' ' msg)

length-pieces : (msg : Str) → length (split_on b' ' msg) ≡ spaces msg + 1
unfolding spaces
length-pieces [] = unfold split_on in refl
length-pieces (c ∷ s) =
    let rest = length-pieces s in
    omega (arith, rest, length-split_on b' ' c s (omega (arith, rest)))

fill-nonempty : (ws : List Str) (room : ℕ) → length ws < room → fill ws room ≡ (nonempty ws, true)
unfolding fill nonempty
fill-nonempty ws zero lt = absurd (omega arith)
fill-nonempty [] (suc room) lt = refl
fill-nonempty (w ∷ ws) (suc room) lt = elim (Bool-cases (is_empty w)) [
  | inl e ↦ rw (e, fill-nonempty ws (suc room) (omega arith)) refl
  | inr e ↦ rw (e, fill-nonempty ws room (omega arith)) refl
]

-- The array of a command is large enough: its entries are the words of the message in order, and
-- the NULL after them is stored within it.
pub parse_args-words : (msg : Str) → parse_args msg ≡ (words msg, true)
unfolding parse_args words
parse_args-words msg =
    fill-nonempty (split_on b' ' msg) (spaces msg + 2) (omega (arith, length-pieces msg))

-- Words with single spaces between them.
abbrev pub join : Str → List Str → Str
join w [] = w
join w (v ∷ vs) = w ++ b' ' ∷ join v vs

abbrev pub IsWord : Str → Type 0
IsWord w = (is_empty w ≡ false) × Without b' ' w

split_on-append : (w s : Str) → Without b' ' w → split_on b' ' (w ++ b' ' ∷ s) ≡ w ∷ split_on b' ' s
unfolding split_on
split_on-append [] s free = refl
split_on-append (c ∷ w) s free = rw (free.0, split_on-append w s free.1) refl

split_on_single : (w : Str) → Without b' ' w → split_on b' ' w ≡ w ∷ []
unfolding split_on
split_on_single [] free = refl
split_on_single (c ∷ w) free = rw (free.0, split_on_single w free.1) refl

words-join : (w : Str) (ws : List Str) → IsWord w → All IsWord ws → words (join w ws) ≡ w ∷ ws
unfolding words nonempty
words-join w [] one rest = ap nonempty (split_on_single w one.1) ∙ rw one.0 refl
words-join w (v ∷ vs) one rest =
    ap nonempty (split_on-append w (join v vs) one.1)
    ∙ rw (one.0, words-join v vs rest.0 rest.1) refl

-- A command that is put together from words with spaces comes apart into the same words.
pub parse_args-join :
    (w : Str) (ws : List Str) → IsWord w → All IsWord ws → parse_args (join w ws) ≡ (w ∷ ws, true)
parse_args-join w ws one rest =
    parse_args-words (join w ws) ∙ ap (λ l. (l, true)) (words-join w ws one rest)

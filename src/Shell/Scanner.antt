-- ===== src/Shell/Scanner.antt =====
-- The tokens of a line of Assignment1P1: `nextToken` and the loop of `getcommand` in functions.c.
use network_programming_assi.Base.{
  ℕ, zero, suc, ◌+◌, ◌<◌, ◌≤◌, ◌≡◌, refl, ap, sym, ◌∙◌, Str, str_eq, codes, Option, none, some,
  List, [], ◌∷◌, ◌++◌, Bool, true, false, not, ◌||◌, ◌&&◌, ok, ◌==◌, if◌then◌else◌, length, flatten,
  All, arith, Bool-cases, inl, inr,
}
use network_programming_assi.Shell.Tokens.{
  skip_spaces, is_symbol, is_doubled, ends_word, word, symbol, token_at, next_token, tokens,
  all_tokens,
}

-- A line without its spaces.
unfoldable pub squeeze : Str → Str
squeeze [] = []
squeeze (c ∷ s) = let rest = squeeze s in if c == b' ' then rest else c ∷ rest

unfoldable pub is_plain : Str → Bool
is_plain [] = true
is_plain (c ∷ s) = not (ends_word c) && is_plain s

abbrev pub is_word : Str → Bool
is_word [] = false
is_word (c ∷ s) = is_plain (c ∷ s)

abbrev pub one_of : Str → List Str → Bool
one_of t [] = false
one_of t (u ∷ us) = str_eq t u || one_of t us

abbrev pub operators : List Str
operators =
    codes "S"
    ∷ codes "#"
    ∷ codes ">"
    ∷ codes "<"
    ∷ codes "|"
    ∷ codes ","
    ∷ codes "&"
    ∷ codes "SS"
    ∷ codes "##"
    ∷ codes ">>"
    ∷ codes "||"
    ∷ codes "|||"
    ∷ []

abbrev pub is_operator : Str → Bool
is_operator t = one_of t operators

-- A token is a word of at least one character, none of which ends a word, or an operator.
unfoldable pub IsToken : Str → Type 0
IsToken t = (is_word t || is_operator t) ≡ true

squeeze-skip_spaces : (s : Str) → squeeze (skip_spaces s) ≡ squeeze s
unfolding squeeze skip_spaces
squeeze-skip_spaces [] = refl
squeeze-skip_spaces (c ∷ s) = elim (Bool-cases (c == b' ')) [
  | inl e ↦ rw e (squeeze-skip_spaces s)
  | inr e ↦ ground arith
]

length-skip_spaces : (s : Str) → length (skip_spaces s) < length s + 1
unfolding skip_spaces
length-skip_spaces [] = omega arith
length-skip_spaces (c ∷ s) = ground (arith, length-skip_spaces s)

abbrev NoSpace : Str → Type 0
NoSpace [] = Unit
NoSpace (c ∷ s) = (c == b' ') ≡ false

skip_spaces-NoSpace : (s : Str) → NoSpace (skip_spaces s)
unfolding skip_spaces
skip_spaces-NoSpace [] = tt
skip_spaces-NoSpace (c ∷ s) = elim (Bool-cases (c == b' ')) [
  | inl e ↦ rw e (skip_spaces-NoSpace s)
  | inr e ↦ rw e e
]

-- What a token and the text behind it are of the text `s`.
pub record Cut (s t r : Str) : Type 0 where
  pub parts : t ++ squeeze r ≡ squeeze s
  pub size : length t + length r ≤ length s
  pub token : IsToken t

pub ends_word-space : (c : ℕ) → ends_word c ≡ false → (c == b' ') ≡ false
unfolding ends_word
ends_word-space c e = ground arith

squeeze-word : (s : Str) → (word s).0 ++ squeeze (word s).1 ≡ squeeze s
unfolding squeeze word
squeeze-word [] = refl
squeeze-word (c ∷ s) = elim (Bool-cases (ends_word c)) [
  | inl e ↦ rw e refl
  | inr e ↦ rw (e, ends_word-space c e) (ap (c ∷◌) (squeeze-word s))
]

length-word : (s : Str) → length (word s).0 + length (word s).1 ≡ length s
unfolding word
length-word [] = refl
length-word (c ∷ s) = elim (Bool-cases (ends_word c)) [
  | inl e ↦ rw e (omega arith)
  | inr e ↦ rw e (omega (arith, length-word s))
]

is_plain-word : (s : Str) → is_plain (word s).0 ≡ true
unfolding word is_plain
is_plain-word [] = refl
is_plain-word (c ∷ s) = elim (Bool-cases (ends_word c)) [
  | inl e ↦ rw e
  | inr e ↦ ground (arith, is_plain-word s)
]

symbol-IsToken : (c : ℕ) (s : Str) → is_symbol c ≡ true → IsToken (symbol c s).0
unfolding IsToken symbol is_symbol is_doubled str_eq
symbol-IsToken c [] h = ground arith
symbol-IsToken c (d ∷ []) h = ground arith
symbol-IsToken c (d ∷ e ∷ s) h = ground arith

squeeze-symbol :
    (c : ℕ) (s : Str)
    → is_symbol c ≡ true
    → (symbol c s).0 ++ squeeze (symbol c s).1 ≡ squeeze (c ∷ s)
unfolding squeeze symbol is_symbol is_doubled
squeeze-symbol c [] h = ground arith
squeeze-symbol c (d ∷ []) h = ground arith
squeeze-symbol c (d ∷ e ∷ s) h = ground arith

length-symbol : (c : ℕ) (s : Str) → length (symbol c s).0 + length (symbol c s).1 ≡ length s + 1
unfolding symbol
length-symbol c [] = omega arith
length-symbol c (d ∷ []) = ground arith
length-symbol c (d ∷ e ∷ s) = ground arith

word-cons : (c : ℕ) (s : Str) → ends_word c ≡ false → (word (c ∷ s)).0 ≡ c ∷ (word s).0
unfolding word
word-cons c s e = rw e refl

cons-IsToken : (c : ℕ) (w : Str) → ends_word c ≡ false → is_plain w ≡ true → IsToken (c ∷ w)
unfolding IsToken is_plain
cons-IsToken c w e h = rw (e, h) refl

word-IsToken :
    (c : ℕ) (s : Str) → is_symbol c ≡ false → (c == b' ') ≡ false → IsToken (word (c ∷ s)).0
word-IsToken c s h e =
    let on : ends_word c ≡ false = unfold ends_word in ground arith in
    rw (word-cons c s on) (cons-IsToken c (word s).0 on (is_plain-word s))

-- What the scanner finds in `s`: nothing but spaces, or a token.
abbrev pub Found : Str → Option (Str × Str) → Type 0
Found s none = squeeze s ≡ []
Found s (some (t, r)) = Cut s t r

token_at-Found : (s : Str) → NoSpace s → Found s (token_at s)
token_at-Found [] e = unfold squeeze in refl
token_at-Found (c ∷ s) e = elim (Bool-cases (is_symbol c)) [
  | inl h ↦ rw h (record {
    parts = squeeze-symbol c s h;
    size = omega (arith, length-symbol c s);
    token = symbol-IsToken c s h;
  })
  | inr h ↦ rw h (record {
    parts = squeeze-word (c ∷ s);
    size = omega (arith, length-word (c ∷ s));
    token = word-IsToken c s h e;
  })
]

Found-skip : (s : Str) (f : Option (Str × Str)) → Found (skip_spaces s) f → Found s f
Found-skip s none h = sym (squeeze-skip_spaces s) ∙ h
Found-skip s (some (t, r)) h = record {
  parts = h.parts ∙ squeeze-skip_spaces s;
  size = omega (arith, length-skip_spaces s, h.size);
  token = h.token;
}

pub next_token-Found : (s : Str) → Found s (next_token s)
unfolding next_token
next_token-Found s =
    Found-skip s (token_at (skip_spaces s)) (token_at-Found (skip_spaces s) (skip_spaces-NoSpace s))

IsToken-length : (t : Str) → IsToken t → 0 < length t
unfolding IsToken str_eq
IsToken-length [] h = cc
IsToken-length (c ∷ t) h = omega arith

-- `nextToken` gives these tokens, from the text `s` on, and then NULL.
unfoldable pub Cuts : Str → List Str → Type 0
Cuts s [] = next_token s ≡ none
Cuts s (t ∷ ts) = (r : Str) × (next_token s ≡ some (t, r)) × Cuts r ts

pub tokens-Cuts : (k : ℕ) (s : Str) (ts : List Str) → length ts < k → Cuts s ts → tokens k s ≡ ok ts
unfolding tokens Cuts
tokens-Cuts zero s ts lt cuts = absurd (omega arith)
tokens-Cuts (suc k) s [] lt none_left = rw (tokens, none_left) refl
tokens-Cuts (suc k) s (t ∷ ts) lt (r, next, cuts) =
    rw (tokens, next, tokens-Cuts k r ts (omega arith) cuts) refl

-- A list of tokens that are, one after the other, the line without its spaces.
abbrev pub Scanned : Str → List Str → Type 0
Scanned s ts = Cuts s ts × (flatten ts ≡ squeeze s) × All IsToken ts × (length ts ≤ length s)

scan :
    (k : ℕ) (s : Str) (f : Option (Str × Str))
    → next_token s ≡ f
    → Found s f
    → ((r : Str) → length r < length s → (ts : List Str) × Scanned r ts)
    → (ts : List Str) × Scanned s ts
unfolding Cuts
scan k s none e found later = ([], (e, sym found, tt, omega arith))
scan k s (some (t, r)) e found later =
    let more = IsToken-length t found.token in
    let (ts, (cuts, parts, each, few)) = later r (omega (arith, found.size, more)) in
    (
      t ∷ ts,
      (
        (r, e, cuts),
        ap (t ++◌) parts ∙ found.parts,
        (found.token, each),
        omega (arith, found.size, more),
      ),
    )

scanned : (k : ℕ) (s : Str) → length s < k → (ts : List Str) × Scanned s ts
scanned zero s lt = absurd (omega arith)
scanned (suc k) s lt =
    scan k s (next_token s) refl (next_token-Found s) (λ r less. scanned k r (omega arith))

-- The loop of `getcommand` ends, for every line. Its tokens are words without spaces or operator
-- characters, or operators, and one after the other they are the line without its spaces.
pub all_tokens-Scanned :
    (s : Str)
    → (ts : List Str) × (all_tokens s ≡ ok ts)
      × Cuts s ts
      × (flatten ts ≡ squeeze s)
      × All IsToken ts
all_tokens-Scanned s =
    let (ts, (cuts, parts, each, few)) = scanned (suc (length s)) s (omega arith) in
    (ts, tokens-Cuts (suc (length s)) s ts (omega arith) cuts, cuts, parts, each)

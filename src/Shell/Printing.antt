-- ===== src/Shell/Printing.antt =====
-- A line that is printed token by token is cut into the same tokens again.
use mathlib.Core.Path.{subst}
use network_programming_assi.Base.{
  ℕ, suc, ◌≤◌, ◌∙◌, ◌≡◌, refl, ap, sym, Str, str_eq, str_eq→eq, some, List, [], ◌∷◌, ◌++◌, true,
  false, ok, ◌==◌, length, length-append, All, arith, Bool-cases, inl, inr,
}
use network_programming_assi.Shell.Tokens.{
  skip_spaces, is_symbol, ends_word, word, symbol, next_token, all_tokens,
}
use network_programming_assi.Shell.Scanner.{
  is_plain, is_word, one_of, operators, IsToken, Cuts, tokens-Cuts, ends_word-space,
}

-- Each token, with a space behind it.
unfoldable pub spaced : List Str → Str
spaced [] = []
spaced (t ∷ ts) = t ++ b' ' ∷ spaced ts

one_of-elim : (P : Str → Type 0) (t : Str) (us : List Str) → All P us → one_of t us ≡ true → P t
one_of-elim P t [] each h = ground arith
one_of-elim P t (u ∷ us) each h = elim (Bool-cases (str_eq t u)) [
  | inl e ↦ subst P (sym (str_eq→eq t u e)) each.0
  | inr e ↦ one_of-elim P t us each.1 (rw e at h)
]

word-is_plain : (t s : Str) → is_plain t ≡ true → word (t ++ b' ' ∷ s) ≡ (t, b' ' ∷ s)
unfolding word is_plain
word-is_plain [] s h = unfold ends_word is_symbol in refl
word-is_plain (c ∷ t) s h = elim (Bool-cases (ends_word c)) [
  | inl e ↦ ground arith
  | inr e ↦ rw (e, word-is_plain t s (rw e at h)) refl
]

abbrev Printed : Str → Type 0
Printed t = (s : Str) → next_token (t ++ b' ' ∷ s) ≡ some (t, b' ' ∷ s)

symbol-space : (c : ℕ) (s : Str) → (b' ' == c) ≡ false → symbol c (b' ' ∷ s) ≡ (c ∷ [], b' ' ∷ s)
unfolding symbol
symbol-space c [] e = ground arith
symbol-space c (d ∷ s) e = ground arith

operators-Printed : All Printed operators
unfolding next_token
operators-Printed = (
  (λ s. ap some (symbol-space b'S' s refl)),
  (
    (λ s. ap some (symbol-space b'#' s refl)),
    (
      (λ s. ap some (symbol-space b'>' s refl)),
      (
        (λ s. ap some (symbol-space b'<' s refl)),
        (
          (λ s. ap some (symbol-space b'|' s refl)),
          (
            (λ s. ap some (symbol-space b',' s refl)),
            (
              (λ s. ap some (symbol-space b'&' s refl)),
              ((λ s. refl), ((λ s. refl), ((λ s. refl), ((λ s. refl), ((λ s. refl), tt))))),
            ),
          ),
        ),
      ),
    ),
  ),
)

next_token-word :
    (c : ℕ) (s : Str)
    → is_symbol c ≡ false
    → (c == b' ') ≡ false
    → next_token (c ∷ s) ≡ some (word (c ∷ s))
unfolding next_token
next_token-word c s h e =
    let kept : skip_spaces (c ∷ s) ≡ c ∷ s = unfold skip_spaces in ground arith in rw (kept, h) refl

head-ends_word : (c : ℕ) (t : Str) → is_plain (c ∷ t) ≡ true → ends_word c ≡ false
unfolding is_plain
head-ends_word c t h = ground arith

is_word-Printed : (t : Str) → is_word t ≡ true → Printed t
is_word-Printed [] h s = ground arith
is_word-Printed (c ∷ t) h s =
    let on = head-ends_word c t h in
    let plain : is_symbol c ≡ false = unfold ends_word in ground arith in
    next_token-word c (t ++ b' ' ∷ s) plain (ends_word-space c on)
    ∙ ap some (word-is_plain (c ∷ t) s h)

IsToken-Printed : (t : Str) → IsToken t → Printed t
unfolding IsToken
IsToken-Printed t h = elim (Bool-cases (is_word t)) [
  | inl e ↦ is_word-Printed t e
  | inr e ↦ one_of-elim Printed t operators operators-Printed (rw e at h)
]

skipped : (s : Str) → next_token (b' ' ∷ s) ≡ next_token s
unfolding next_token skip_spaces
skipped s = refl

Cuts-space : (s : Str) (ts : List Str) → Cuts s ts → Cuts (b' ' ∷ s) ts
unfolding Cuts
Cuts-space s [] h = skipped s ∙ h
Cuts-space s (t ∷ ts) (r, next, cuts) = (r, skipped s ∙ next, cuts)

spaced-Cuts : (ts : List Str) → All IsToken ts → Cuts (spaced ts) ts
unfolding spaced Cuts
spaced-Cuts [] each = unfold next_token skip_spaces in refl
spaced-Cuts (t ∷ ts) (token, each) = (
  b' ' ∷ spaced ts,
  IsToken-Printed t token (spaced ts),
  Cuts-space (spaced ts) ts (spaced-Cuts ts each),
)

length-spaced : (ts : List Str) → length ts ≤ length (spaced ts)
unfolding spaced
length-spaced [] = omega arith
length-spaced (t ∷ ts) = omega (arith, length-spaced ts, length-append t (b' ' ∷ spaced ts))

-- If each of some strings is a token, the tokens of the line in which each is followed by a space
-- are those strings.
pub all_tokens-spaced : (ts : List Str) → All IsToken ts → all_tokens (spaced ts) ≡ ok ts
all_tokens-spaced ts each =
    tokens-Cuts (suc (length (spaced ts))) (spaced ts) ts (omega (arith, length-spaced ts))
      (spaced-Cuts ts each)

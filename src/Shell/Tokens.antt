-- ===== src/Shell/Tokens.antt =====
-- `nextToken`, `getcommand` and `getargv` of Assignment1P1/functions.c. A position in the string is
-- given by what follows it. A line has at most 99 characters, so a token fits its 100 bytes.
use network_programming_assi.Base.{
  ℕ, zero, suc, ◌-◌, Str, str_eq, Option, none, some, List, [], ◌∷◌, Bool, true, false, ◌||◌, ◌&&◌,
  Outcome, ok, fault, out_of_fuel, ◌>>=◌, ◌==◌, if◌then◌else◌, codes, length,
}

unfoldable pub skip_spaces : Str → Str
skip_spaces [] = []
skip_spaces (c ∷ s) = if c == b' ' then skip_spaces s else c ∷ s

-- The characters that are tokens, or begin one, whatever follows.
unfoldable pub is_symbol : ℕ → Bool
is_symbol c =
    c == b'S'
    || (c == b'#' || (c == b'>' || (c == b'<' || (c == b'|' || (c == b',' || c == b'&')))))

-- The symbols that a second copy of them may join.
unfoldable pub is_doubled : ℕ → Bool
is_doubled c = c == b'>' || (c == b'#' || (c == b'S' || c == b'|'))

unfoldable pub ends_word : ℕ → Bool
ends_word c = is_symbol c || c == b' '

-- The characters of a word, and what follows them.
unfoldable pub word : Str → Str × Str
word [] = ([], [])
word (c ∷ s) = let (w, r) = word s in if ends_word c then ([], c ∷ s) else (c ∷ w, r)

-- The token that begins with the symbol `c`, and what follows it.
unfoldable pub symbol : ℕ → Str → Str × Str
symbol c [] = (c ∷ [], [])
symbol c (d ∷ []) = if is_doubled c && d == c then (c ∷ d ∷ [], []) else (c ∷ [], d ∷ [])
symbol c (d ∷ e ∷ s) =
    if is_doubled c && d == c
    then if c == b'|' && e == b'|' then (c ∷ d ∷ e ∷ [], s) else (c ∷ d ∷ [], e ∷ s)
    else (c ∷ [], d ∷ e ∷ s)

abbrev pub token_at : Str → Option (Str × Str)
token_at [] = none
token_at (c ∷ s) = if is_symbol c then some (symbol c s) else some (word (c ∷ s))

-- nextToken(str, &point): the token and what follows it, or none at the end.
unfoldable pub next_token : Str → Option (Str × Str)
unfolding skip_spaces is_symbol is_doubled ends_word word symbol
next_token s = token_at (skip_spaces s)

-- The tokens that the loop of `getcommand` goes through.
unfoldable pub tokens : ℕ → Str → Outcome (List Str)
tokens zero s = out_of_fuel
tokens (suc k) s = elim (next_token s) [
  | none ↦ ok []
  | some (t, r) ↦ do ts ← tokens k r; ok (t ∷ ts)
]

abbrev pub all_tokens : Str → Outcome (List Str)
all_tokens s = tokens (suc (length s)) s

abbrev pub head? : List Str → Option Str
head? [] = none
head? (t ∷ ts) = some t

-- getcommand(buf, &noofargs) with `noofargs` 0 before: the command and the number of tokens.
unfoldable pub get_command : Str → Outcome (Option Str × ℕ)
get_command buf = do ts ← all_tokens buf; ok (head? ts, length ts)

-- The loop of `getargv` with `left` rounds to go: the arguments, and whether it met the `&`.
unfoldable pub argv_loop : ℕ → Str → Outcome (List Str × Bool)
argv_loop zero s = ok ([], false)
argv_loop (suc left) s = elim (next_token s) [
  | none ↦ fault
  | some (t, r) ↦
      if str_eq t (codes "&") && left == 0
      then ok ([], true)
      else do (v, back) ← argv_loop left r; ok (t ∷ v, back)
]

-- getargv(buff, &nofargs, &back_pr): `v` without its NULL, `nofargs` and `back_pr`.
pub record Arguments : Type 0 where
  pub v : List Str
  pub nofargs : ℕ
  pub back_pr : Bool

unfoldable pub get_argv : Str → ℕ → Outcome Arguments
get_argv buff nofargs = do
  (v, back) ← argv_loop nofargs buff
  ok (record { v = v; nofargs = if back then nofargs - 1 else nofargs; back_pr = back })

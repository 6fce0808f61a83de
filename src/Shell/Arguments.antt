-- ===== src/Shell/Arguments.antt =====
-- How `getcommand` and `getargv` of Assignment1P1/functions.c work together: `shell.c` gives the
-- count of the first to the second.
use network_programming_assi.Base.{
  ◌-◌, ◌≡◌, refl, Str, str_eq, codes, List, [], ◌∷◌, Bool, true, false, ok, if◌then◌else◌, length,
  arith, Bool-cases, inl, inr,
}
use network_programming_assi.Shell.Tokens.{all_tokens, get_command, argv_loop, get_argv, head?}
use network_programming_assi.Shell.Scanner.{Cuts, all_tokens-Scanned}

-- The arguments without an `&` that is the last of them, and whether there is one.
unfoldable pub strip : List Str → List Str × Bool
strip [] = ([], false)
strip (t ∷ []) = if str_eq t (codes "&") then ([], true) else (t ∷ [], false)
strip (t ∷ u ∷ ts) = let rest = strip (u ∷ ts) in (t ∷ rest.0, rest.1)

argv_loop-Cuts : (s : Str) (ts : List Str) → Cuts s ts → argv_loop (length ts) s ≡ ok (strip ts)
unfolding Cuts argv_loop strip
argv_loop-Cuts s [] cuts = refl
argv_loop-Cuts s (t ∷ []) (r, next, cuts) = elim (Bool-cases (str_eq t (codes "&"))) [
  | inl e ↦ rw (argv_loop, strip, next, e) refl
  | inr e ↦ rw (argv_loop, strip, next, e) refl
]
argv_loop-Cuts s (t ∷ u ∷ ts) (r, next, cuts) =
    rw (argv_loop, strip, next, argv_loop-Cuts r (u ∷ ts) cuts) (ground arith)

length-strip :
    (ts : List Str) → length (strip ts).0 ≡ (if (strip ts).1 then length ts - 1 else length ts)
unfolding strip
length-strip [] = refl
length-strip (t ∷ []) = ground arith
length-strip (t ∷ u ∷ ts) = ground (arith, length-strip (u ∷ ts))

-- What `getcommand` and `getargv` give for a line that is cut into the tokens.
pub all_tokens-args :
    (buf : Str) (ts : List Str)
    → all_tokens buf ≡ ok ts
    → Cuts buf ts
    → (get_command buf ≡ ok (head? ts, length ts))
      × (get_argv buf (length ts)
          ≡ ok (record { v = (strip ts).0; nofargs = length (strip ts).0; back_pr = (strip ts).1 }))
unfolding get_command get_argv
all_tokens-args buf ts run cuts =
    (rw run refl, rw (argv_loop-Cuts buf ts cuts, length-strip ts) refl)

-- For every line, the count that `getcommand` gives lets `getargv` end without a fault: it gives the
-- tokens of the line, without an `&` at the end, says whether there was one, and its count is the
-- number of arguments that it gives.
pub get_argv-get_command :
    (buf : Str)
    → (ts : List Str) × Cuts buf ts
      × (get_command buf ≡ ok (head? ts, length ts))
      × (get_argv buf (length ts)
          ≡ ok (record { v = (strip ts).0; nofargs = length (strip ts).0; back_pr = (strip ts).1 }))
get_argv-get_command buf =
    let (ts, run, cuts, parts, each) = all_tokens-Scanned buf in
    let (command, argv) = all_tokens-args buf ts run cuts in (ts, cuts, command, argv)

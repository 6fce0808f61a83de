-- ===== src/Labs/Tee.antt =====
-- labs/2016A7PS0064P_lab2/tee.c, which copies its input to its output and to files.
use network_programming_assi.Base.{
  ℕ, zero, suc, ◌+◌, ◌<◌, ◌≤◌, ◌≡◌, refl, ap, sym, ◌∙◌, inl, inr, Bool, true, false, Option, none,
  some, List, [], ◌∷◌, ◌++◌, append_assoc, append-nil, map, Outcome, ok, fault, out_of_fuel, ◌>>=◌,
  Str, before, before-append, Without, ◌==◌, ltb, if◌then◌else◌, length, length-append, flatten,
  replicate, All, arith, Bool-cases,
}
pub mod Lines

-- The standard input and its end-of-file flag, which a read sets that finds the end.
pub record Input : Type 0 where
  pub text : Str
  pub eof : Bool

-- fgets with room for so many characters and the NUL: what is read up to a newline.
unfoldable pub read_line : ℕ → Str → Str × Input
read_line zero s = ([], record { text = s; eof = false })
read_line (suc room) [] = ([], record { text = []; eof = true })
read_line (suc room) (c ∷ s) =
    let rest = read_line room s in
    if c == b'\n' then (c ∷ [], record { text = s; eof = false }) else (c ∷ rest.0, rest.1)

-- The argument of `fputs`. The buffer is a new one in each round: if nothing is read it is
-- indeterminate, and to write it is a fault.
abbrev pub text_of : Str → Outcome Str
text_of [] = fault
text_of (c ∷ s) = ok (before 0 (c ∷ s))

-- A round: `fgets(str, 1024, stdin)`, and `fputs` to the standard output and to each file. The files
-- are closed and opened again for appending, which keeps what they hold.
unfoldable pub round : Input → List Str → Outcome (Input × List Str)
round stdin f = do
  let read = read_line 1023 stdin.text
  s ← text_of read.0
  ok (read.1, map (λ t. t ++ s) f)

-- The loop until the end of the input has been found.
unfoldable pub loop : ℕ → Input → List Str → Outcome (List Str)
loop zero stdin f = out_of_fuel
loop (suc k) stdin f =
    let more = round stdin f >>= λ r. loop k r.0 r.1 in if stdin.eof then ok f else more

-- `main` with `files` arguments, different from each other, that can all be opened: what is in the
-- standard output and the files at the end. A round reads a byte or is the last.
unfoldable pub tee : ℕ → Str → Outcome (List Str)
tee files input =
    loop (length input + 2) (record { text = input; eof = false }) (replicate (files + 1) [])

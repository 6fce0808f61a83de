-- ===== src/Base/Decimal.antt =====
-- `sprintf(s, "%d", n)` and `atoi`.
use Prim.Native.Nat.{ℕ, zero, suc, ◌+◌, ◌-◌, ◌*◌, ◌/◌, ◌%◌, ◌^◌, ◌≤◌, ◌<◌}
use mathlib.Core.Path.{◌≡◌, refl, ap, ◌∙◌}
use mathlib.Core.Bool.{Bool, true, false, ◌&&◌, ◌||◌}
use mathlib.Core.Option.{Option, none, some}
use mathlib.Core.List.{[], ◌∷◌}
use native.Mathlib.Omega.{arith}
use network_programming_assi.Base.Tests.{◌==◌, ltb, leb, if◌then◌else◌, Bool-cases}
use mathlib.Core.Logic.{inl, inr}
use network_programming_assi.Base.Ints.{ℤ, pos, negsuc}
use network_programming_assi.Base.Text.{Str, codes, Without}

emit : ℕ → ℕ → Str → Str
emit zero n out = out
emit (suc f) n out =
    let more = emit f (n / 10) ((b'0' + n % 10) ∷ out) in
    if ltb n 10 then (b'0' + n) ∷ out else more

unfoldable pub show_nat : ℕ → Str
unfolding emit
show_nat n = emit (suc n) n []

-- sprintf(s, "%d", n)
unfoldable pub show : ℤ → Str
unfolding show_nat
show (pos n) = show_nat n
show (negsuc n) = b'-' ∷ show_nat (suc n)

is_digit : ℕ → Bool
is_digit c = leb b'0' c && leb c b'9'

is_space : ℕ → Bool
is_space c = (c == 32) || (leb 9 c && leb c 13)

-- The value of the digits in front, after those read before.
scan : ℕ → Str → ℕ
scan acc [] = acc
scan acc (c ∷ s) = let more = scan (acc * 10 + (c - b'0')) s in if is_digit c then more else acc

abbrev int_max : ℕ
int_max = 2 ^ 31 - 1

positive : ℕ → Option ℤ
positive n = if leb n int_max then some (pos n) else none

negative : ℕ → Option ℤ
negative zero = some (pos 0)
negative (suc n) = if leb n int_max then some (negsuc n) else none

-- atoi(s) for a 32-bit int; `none` where the value is out of range and the behaviour undefined.
unfoldable pub atoi : Str → Option ℤ
unfolding is_digit is_space scan positive negative
atoi [] = some (pos 0)
atoi (c ∷ s) =
    if is_space c
    then atoi s
    else if c == b'-'
    then negative (scan 0 s)
    else if c == b'+'
    then positive (scan 0 s)
    else positive (scan 0 (c ∷ s))

scan-digit :
    (acc d : ℕ) (out : Str) → d < 10 → scan acc ((b'0' + d) ∷ out) ≡ scan (acc * 10 + d) out
unfolding scan is_digit
scan-digit acc d out h =
    let e : acc * 10 + (b'0' + d - b'0') ≡ acc * 10 + d = omega arith in
    let t : is_digit (b'0' + d) ≡ true = ground arith in rw (t, e)

scan-emit : (f n : ℕ) (out : Str) → n < f → scan 0 (emit f n out) ≡ scan n out
unfolding emit
scan-emit zero n out h = absurd (omega arith)
scan-emit (suc f) n out h = elim (Bool-cases (ltb n 10)) [
  | inl e ↦ rw e (scan-digit 0 n out (ground arith) ∙ ap (λ k. scan k out) (omega arith))
  | inr e ↦ rw e (
      scan-emit f (n / 10) ((b'0' + n % 10) ∷ out) (ground arith)
      ∙ scan-digit (n / 10) (n % 10) out (omega arith)
      ∙ ap (λ k. scan k out) (omega arith))
]

atoi-digit :
    (d : ℕ) (out : Str) → d < 10 → atoi ((b'0' + d) ∷ out) ≡ positive (scan 0 ((b'0' + d) ∷ out))
unfolding atoi
atoi-digit d out h =
    let s : is_space (b'0' + d) ≡ false = ground arith in
    let m : ((b'0' + d) == b'-') ≡ false = ground arith in
    let p : ((b'0' + d) == b'+') ≡ false = ground arith in rw (s, m, p)

atoi-emit : (f n : ℕ) (out : Str) → n < f → atoi (emit f n out) ≡ positive (scan n out)
unfolding emit
atoi-emit zero n out h = absurd (omega arith)
atoi-emit (suc f) n out h = elim (Bool-cases (ltb n 10)) [
  | inl e ↦ rw e (
      atoi-digit n out (ground arith)
      ∙ ap positive (scan-digit 0 n out (ground arith))
      ∙ ap (λ k. positive (scan k out)) (omega arith))
  | inr e ↦ rw e (
      atoi-emit f (n / 10) ((b'0' + n % 10) ∷ out) (ground arith)
      ∙ ap positive (scan-digit (n / 10) (n % 10) out (omega arith))
      ∙ ap (λ k. positive (scan k out)) (omega arith))
]

-- The values of a 32-bit int.
abbrev pub InRange : ℤ → Type 0
InRange (pos n) = n ≤ int_max
InRange (negsuc n) = n ≤ int_max

-- A 32-bit integer that is printed in decimal is read back.
pub atoi-show : (n : ℤ) → InRange n → atoi (show n) ≡ some n
unfolding show atoi
atoi-show (pos n) h = atoi-emit (suc n) n [] (omega arith) ∙ (unfold positive scan in ground arith)
atoi-show (negsuc n) h =
    ap negative (scan-emit (suc (suc n)) (suc n) [] (omega arith))
    ∙ (unfold negative scan in ground arith)

Without-emit : (f n : ℕ) (out : Str) → Without 0 out → Without 0 (emit f n out)
unfolding emit
Without-emit zero n out h = h
Without-emit (suc f) n out h = elim (Bool-cases (ltb n 10)) [
  | inl e ↦ rw e (ground arith, h)
  | inr e ↦ rw e (Without-emit f (n / 10) ((b'0' + n % 10) ∷ out) (ground arith, h))
]

-- A decimal holds no NUL.
pub Without-show_nat : (n : ℕ) → Without 0 (show_nat n)
unfolding show_nat
Without-show_nat n = Without-emit (suc n) n [] tt

show_runs : show (pos 2047) ≡ codes "2047"
unfolding show emit
show_runs = refl

atoi_runs : atoi (codes " -12x") ≡ some (negsuc 11)
unfolding atoi
atoi_runs = refl

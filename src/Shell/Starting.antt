-- ===== src/Shell/Starting.antt =====
-- Where the symbols of a command stand that `parsecommand` of Assignment1P1/functions.c looks for.
use network_programming_assi.Base.{
  ℕ, zero, suc, ◌+◌, ◌-◌, ◌<◌, ◌≡◌, refl, ap, sym, ◌∙◌, inl, inr, Bool, true, false, not, ◌||◌,
  none, some, List, [], ◌∷◌, ◌++◌, Str, codes, str_eq, ltb, lt→ltb, get_elem?, take, length,
  length-append, All, arith, Bool-cases,
}
use network_programming_assi.Shell.Redirections.{
  input, output, plain, is_at, index_from, strinarr, choose_command,
}

-- The word is not `sym`.
abbrev pub Not : Str → Str → Type 0
Not sym w = str_eq w sym ≡ false

-- A word that is no symbol of the shell.
abbrev pub IsPlain : Str → Type 0
IsPlain w =
    Not (codes "|") w
    × Not (codes "<") w
    × Not (codes "#") w
    × Not (codes "##") w
    × Not (codes "S") w
    × Not (codes ">") w
    × Not (codes ">>") w

pub All-map : {P Q : Str → Type 0} (ws : List Str) → ((w : Str) → P w → Q w) → All P ws → All Q ws
All-map [] f h = tt
All-map (w ∷ ws) f h = (f w h.0, All-map ws f h.1)

pub Not-append :
    (c : Str) (ws vs : List Str) → All (Not c) ws → All (Not c) vs → All (Not c) (ws ++ vs)
Not-append c [] vs h k = k
Not-append c (w ∷ ws) vs h k = (h.0, Not-append c ws vs h.1 k)

index_from_absent : (c : Str) (i : ℕ) (ws : List Str) → All (Not c) ws → index_from c i ws ≡ none
unfolding index_from
index_from_absent c i [] h = refl
index_from_absent c i (w ∷ ws) h = rw h.0 (index_from_absent c (suc i) ws h.1)

pub index_from-append :
    (c : Str) (i : ℕ) (ws : List Str) (v : Str) (vs : List Str)
    → All (Not c) ws
    → str_eq v c ≡ true
    → index_from c i (ws ++ v ∷ vs) ≡ some (i + length ws)
unfolding index_from
index_from-append c i [] v vs h e = rw e (ap some (omega arith))
index_from-append c i (w ∷ ws) v vs h e =
    rw h.0 (index_from-append c (suc i) ws v vs h.1 e ∙ ap some (omega arith))

pub strinarr_absent : (c : Str) (ws : List Str) → All (Not c) ws → strinarr ws c 0 ≡ none
unfolding strinarr
strinarr_absent c ws h = index_from_absent c 0 ws h

pub strinarr-append :
    (c : Str) (ws : List Str) (v : Str) (vs : List Str)
    → All (Not c) ws
    → str_eq v c ≡ true
    → strinarr (ws ++ v ∷ vs) c 0 ≡ some (length ws)
unfolding strinarr
strinarr-append c ws v vs h e = index_from-append c 0 ws v vs h e ∙ ap some (omega arith)

pub get_elem?-append :
    (ws : List Str) (v : Str) (vs : List Str) → get_elem? (ws ++ v ∷ vs) (length ws) ≡ some v
get_elem?-append [] v vs = refl
get_elem?-append (w ∷ ws) v vs = get_elem?-append ws v vs

pub get_elem?-append_next :
    (ws : List Str) (u v : Str) (vs : List Str)
    → get_elem? (ws ++ u ∷ v ∷ vs) (length ws + 1) ≡ some v
get_elem?-append_next [] u v vs = refl
get_elem?-append_next (w ∷ ws) u v vs =
    let next : suc (length ws) + 1 ≡ suc (length ws + 1) = omega arith in
    ap (get_elem? (w ∷ (ws ++ u ∷ v ∷ vs))) next ∙ get_elem?-append_next ws u v vs

pub take-append : (ws vs : List Str) → take (length ws) (ws ++ vs) ≡ ws
take-append [] vs = refl
take-append (w ∷ ws) vs = ap (λ l. w ∷ l) (take-append ws vs)

-- The sign of an output that is appended to, or not.
abbrev pub sign : Bool → Str
sign false = codes ">"
sign true = codes ">>"

-- No token but the first is `sym` here, which is no sign of an output.
pub choose_input :
    (ws : List Str) (vs : List Str)
    → All IsPlain ws
    → All (Not (codes "|")) vs
    → choose_command (ws ++ codes "<" ∷ vs) ≡ input (length ws)
unfolding choose_command str_eq
choose_input ws vs h k =
    rw
      (
        strinarr_absent (codes "|") (ws ++ codes "<" ∷ vs)
            (Not-append (codes "|") ws (codes "<" ∷ vs) (All-map ws (λ w p. p.0) h) (refl, k)),
        strinarr-append (codes "<") ws (codes "<") vs (All-map ws (λ w p. p.1) h) refl,
      )
      refl

-- The words of a command, then one more.
pub absent-append :
    (c : Str) (ws vs : List Str) → All (Not c) ws → All (Not c) vs → strinarr (ws ++ vs) c 0 ≡ none
absent-append c ws vs h k = strinarr_absent c (ws ++ vs) (Not-append c ws vs h k)

pub sign_ne :
    (a : Bool) (c : Str)
    → str_eq (codes ">") c ≡ false
    → str_eq (codes ">>") c ≡ false
    → Not c (sign a)
sign_ne false c h k = h
sign_ne true c h k = k

absent-sign :
    (c : Str) (ws : List Str) (a : Bool) (g : Str)
    → str_eq (codes ">") c ≡ false
    → str_eq (codes ">>") c ≡ false
    → All (Not c) ws
    → Not c g
    → strinarr (ws ++ sign a ∷ g ∷ []) c 0 ≡ none
absent-sign c ws a g one two h p =
    absent-append c ws (sign a ∷ g ∷ []) h (sign_ne a c one two, (p, tt))

is_sign : (a : Bool) → str_eq (sign a) (codes ">") || str_eq (sign a) (codes ">>") ≡ true
unfolding str_eq
is_sign false = refl
is_sign true = refl

-- The flag of `greatersign`.
pub appends : (a : Bool) → not (str_eq (sign a) (codes ">")) ≡ a
unfolding str_eq
appends false = refl
appends true = refl

pub choose_output :
    (ws : List Str) (a : Bool) (g : Str)
    → All IsPlain ws
    → 0 < length ws
    → IsPlain g
    → choose_command (ws ++ sign a ∷ g ∷ []) ≡ output
unfolding choose_command
choose_output ws a g h some_word p =
    let size : length (ws ++ sign a ∷ g ∷ []) ≡ length ws + 2 =
      length-append ws (sign a ∷ g ∷ []) in
    let last : length (ws ++ sign a ∷ g ∷ []) - 2 ≡ length ws = omega (arith, size) in
    rw
      (
        absent-sign (codes "|") ws a g (unfold str_eq in refl) (unfold str_eq in refl)
            (All-map ws (λ w q. q.0) h) p.0,
        absent-sign (codes "<") ws a g (unfold str_eq in refl) (unfold str_eq in refl)
            (All-map ws (λ w q. q.1) h) p.1,
        absent-sign (codes "#") ws a g (unfold str_eq in refl) (unfold str_eq in refl)
            (All-map ws (λ w q. q.2) h) p.2,
        absent-sign (codes "##") ws a g (unfold str_eq in refl) (unfold str_eq in refl)
            (All-map ws (λ w q. q.3) h) p.3,
        absent-sign (codes "S") ws a g (unfold str_eq in refl) (unfold str_eq in refl)
            (All-map ws (λ w q. q.4) h) p.4,
        lt→ltb 2 (length (ws ++ sign a ∷ g ∷ [])) (omega (arith, size)),
        last,
        get_elem?-append ws (sign a) (g ∷ []),
        is_sign a,
      )
      refl

is_at_plain : (c : Str) (ws : List Str) (i : ℕ) → All (Not c) ws → is_at ws i c ≡ false
is_at_plain c [] i h = refl
is_at_plain c (w ∷ ws) zero h = h.0
is_at_plain c (w ∷ ws) (suc i) h = is_at_plain c ws i h.1

pub choose_plain : (ws : List Str) → All IsPlain ws → choose_command ws ≡ plain
unfolding choose_command
choose_plain ws h =
    rw
      (
        strinarr_absent (codes "|") ws (All-map ws (λ w q. q.0) h),
        strinarr_absent (codes "<") ws (All-map ws (λ w q. q.1) h),
        strinarr_absent (codes "#") ws (All-map ws (λ w q. q.2) h),
        strinarr_absent (codes "##") ws (All-map ws (λ w q. q.3) h),
        strinarr_absent (codes "S") ws (All-map ws (λ w q. q.4) h),
        is_at_plain (codes ">") ws (length ws - 2) (All-map ws (λ w q. q.5) h),
        is_at_plain (codes ">>") ws (length ws - 2) (All-map ws (λ w q. q.6) h),
      )
      (elim (Bool-cases (ltb 2 (length ws))) [ inl e ↦ rw e refl | inr e ↦ rw e refl ])

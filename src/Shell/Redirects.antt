-- ===== src/Shell/Redirects.antt =====
-- What `parsecommand` of Assignment1P1/functions.c starts for commands with redirections.
use network_programming_assi.Base.{
  ◌-◌, ◌<◌, ◌≡◌, refl, ap, ◌∙◌, Bool, true, false, none, some, List, [], ◌∷◌, ◌++◌, append_assoc,
  append-nil, ok, Str, codes, str_eq, length, length-append, All, arith,
}
use network_programming_assi.Shell.Redirections.{
  Files, Exec, strinarr, output_of, with_input, start_chosen, lessersign, greatersign, parsecommand,
}
use network_programming_assi.Shell.Starting.{
  Not, IsPlain, sign, absent-append, strinarr-append, Not-append, get_elem?-append,
  get_elem?-append_next, take-append, appends, sign_ne, choose_input, choose_output, choose_plain,
  All-map,
}

-- What stands after the words of a command: an input, an output that is appended to or not, or
-- both, with the names of their files.
pub data Redirect : Type 0 where
  nothing : Redirect
  from : Str → Redirect
  into : Bool → Str → Redirect
  both : Str → Bool → Str → Redirect

abbrev pub tokens_of : Redirect → List Str
tokens_of nothing = []
tokens_of (from f) = codes "<" ∷ f ∷ []
tokens_of (into a g) = sign a ∷ g ∷ []
tokens_of (both f a g) = codes "<" ∷ f ∷ sign a ∷ g ∷ []

-- The files are there, and their names are no symbols.
abbrev pub Ready : Files → Redirect → Type 0
Ready os nothing = Unit
Ready os (from f) = IsPlain f × (os.exists f ≡ true) × (os.readable f ≡ true)
Ready os (into a g) = IsPlain g × (os.writable g ≡ true)
Ready os (both f a g) =
    IsPlain f × (os.exists f ≡ true) × (os.readable f ≡ true) × IsPlain g × (os.writable g ≡ true)

abbrev pub started : List Str → Redirect → Exec
started ws nothing = record { args = ws; input = none; output = none }
started ws (from f) = record { args = ws; input = some f; output = none }
started ws (into a g) = record { args = ws; input = none; output = some (a, g) }
started ws (both f a g) = record { args = ws; input = some f; output = some (a, g) }

-- The output after other arguments.
output_of-sign :
    (os : Files) (pre : List Str) (a : Bool) (g : Str)
    → All (Not (codes ">")) pre
    → All (Not (codes ">>")) pre
    → Not (codes ">") g
    → os.writable g ≡ true
    → let argv = pre ++ sign a ∷ g ∷ [] in
      output_of os argv (strinarr argv (codes ">") 0) (strinarr argv (codes ">>") 0)
      ≡ ok (some (a, g))
unfolding output_of str_eq
output_of-sign os pre false g h k p e =
    rw
      (
        strinarr-append (codes ">") pre (codes ">") (g ∷ []) h refl,
        get_elem?-append_next pre (codes ">") g [],
        e,
      )
      refl
output_of-sign os pre true g h k p e =
    rw
      (
        absent-append (codes ">") pre (codes ">>" ∷ g ∷ []) h (refl, (p, tt)),
        strinarr-append (codes ">>") pre (codes ">>") (g ∷ []) k refl,
        get_elem?-append_next pre (codes ">>") g [],
        e,
      )
      refl

greatersign-sign :
    (os : Files) (ws : List Str) (a : Bool) (g : Str)
    → os.writable g ≡ true
    → greatersign os (ws ++ sign a ∷ g ∷ []) ≡ ok (started ws (into a g))
unfolding greatersign
greatersign-sign os ws a g e =
    let argv = ws ++ sign a ∷ g ∷ [] in
    let last : length argv - 2 ≡ length ws = omega (arith, length-append ws (sign a ∷ g ∷ [])) in
    rw
      (
        last,
        get_elem?-append_next ws (sign a) g [],
        e,
        get_elem?-append ws (sign a) (g ∷ []),
        take-append ws (sign a ∷ g ∷ []),
      )
      (ap (λ b. ok (record { args = ws; input = none; output = some (b, g) })) (appends a))

lessersign-from :
    (os : Files) (ws : List Str) (f : Str)
    → All IsPlain ws
    → IsPlain f
    → os.exists f ≡ true
    → os.readable f ≡ true
    → lessersign os (ws ++ codes "<" ∷ f ∷ []) (length ws) ≡ ok (started ws (from f))
unfolding lessersign with_input output_of str_eq
lessersign-from os ws f h p there readable =
    let vs = codes "<" ∷ f ∷ [] in
    rw
      (
        get_elem?-append_next ws (codes "<") f [],
        there,
        readable,
        absent-append (codes ">") ws vs (All-map ws (λ w q. q.5) h) (refl, (p.5, tt)),
        absent-append (codes ">>") ws vs (All-map ws (λ w q. q.6) h) (refl, (p.6, tt)),
        take-append ws vs,
      )
      refl

lessersign-both :
    (os : Files) (ws : List Str) (f : Str) (a : Bool) (g : Str)
    → All IsPlain ws
    → IsPlain f
    → os.exists f ≡ true
    → os.readable f ≡ true
    → IsPlain g
    → os.writable g ≡ true
    → lessersign os (ws ++ codes "<" ∷ f ∷ sign a ∷ g ∷ []) (length ws)
      ≡ ok (started ws (both f a g))
unfolding lessersign with_input str_eq
lessersign-both os ws f a g h p there readable q writable =
    let vs = codes "<" ∷ f ∷ sign a ∷ g ∷ [] in
    let pre = ws ++ codes "<" ∷ f ∷ [] in
    let same : pre ++ sign a ∷ g ∷ [] ≡ ws ++ vs =
      append_assoc ws (codes "<" ∷ f ∷ []) (sign a ∷ g ∷ []) in
    let found : output_of os (ws ++ vs) (strinarr (ws ++ vs) (codes ">") 0)
          (strinarr (ws ++ vs) (codes ">>") 0)
        ≡ ok (some (a, g)) =
      rw⁻¹ same (
        output_of-sign os pre a g
          (Not-append (codes ">") ws (codes "<" ∷ f ∷ []) (All-map ws (λ w k. k.5) h)
            (refl, (p.5, tt)))
          (Not-append (codes ">>") ws (codes "<" ∷ f ∷ []) (All-map ws (λ w k. k.6) h)
            (refl, (p.6, tt)))
          q.5 writable) in
    rw
      (
        get_elem?-append_next ws (codes "<") f (sign a ∷ g ∷ []),
        there,
        readable,
        found,
        take-append ws vs,
      )
      refl

-- A command of plain words, then perhaps an input, then perhaps an output, the files of which can
-- be opened, starts the program with these words as its arguments, the input and the output:
-- what is written with `>` replaces the file and with `>>` is appended.
pub parsecommand-started :
    (os : Files) (ws : List Str) (r : Redirect)
    → All IsPlain ws
    → 0 < length ws
    → Ready os r
    → parsecommand os (ws ++ tokens_of r) ≡ some (ok (started ws r))
unfolding parsecommand start_chosen
parsecommand-started os ws nothing h some_word ready =
    ap (parsecommand os) (append-nil ws) ∙ rw (choose_plain ws h) refl
parsecommand-started os ws (from f) h some_word ready =
    rw (choose_input ws (f ∷ []) h (ready.0.0, tt))
      (ap some (lessersign-from os ws f h ready.0 ready.1 ready.2))
parsecommand-started os ws (into a g) h some_word ready =
    rw (choose_output ws a g h some_word ready.0) (ap some (greatersign-sign os ws a g ready.1))
parsecommand-started os ws (both f a g) h some_word (p, there, readable, q, writable) =
    rw
      (choose_input ws (f ∷ sign a ∷ g ∷ []) h
        (p.0, (sign_ne a (codes "|") (unfold str_eq in refl) (unfold str_eq in refl), (q.0, tt))))
      (ap some (lessersign-both os ws f a g h p there readable q writable))

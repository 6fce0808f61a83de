-- ===== src/Cluster/Flow.antt =====
-- What flows through the pipes of a command line of Assignment1P2/clustershell_client.c.
use network_programming_assi.Base.{
  ℕ, ◌+◌, ◌<◌, ◌≡◌, refl, ap, sym, ◌∙◌, inl, inr, Bool, true, false, List, [], ◌∷◌, ◌++◌,
  append-nil, ok, blocked, Str, codes, str_eq, str_eq→eq, split_on, before, lt→ltb, drop, length,
  arith, Bool-cases,
}
use network_programming_assi.Cluster.Config.{Node}
use network_programming_assi.Cluster.Arguments.{words}
use network_programming_assi.Cluster.Nodes.{here, findnode}
use network_programming_assi.Cluster.Commands.{
  Action, feed, print, Cluster, did, run_args, runcommand,
}
use network_programming_assi.Cluster.Routing.{run_here-ok}
use network_programming_assi.Cluster.Pipes.{
  World, outputs, read_pipe, stage_target, stage, stages, checkpipe, executeshell,
}

-- The pieces are commands of at least one word for no node, and `acts` is what they do.
abbrev pub AreLocal : List Node → List Str → List Action → Type 0
AreLocal nodes [] [] = Unit
AreLocal nodes (y ∷ ys) (a ∷ acts) =
    (findnode y nodes ≡ here) × (run_args (words y) ≡ ok a) × AreLocal nodes ys acts
AreLocal nodes ys acts = ⊥

-- The actions of the stages after the first, one after the other, when `text` is in the pipe: each
-- has the text that the one before it wrote on its input, and the last text is printed.
pub data Flow (w : World) : List Action → Str → List Action → List Action → Type 0 where
  last :
      {log : List Action} {text : Str}
      → 0 < length text
      → length text < 1024
      → Flow w log text [] (log ++ print (before 0 text) ∷ [])
  next :
      {log log' acts : List Action} {text : Str} {a : Action}
      → 0 < length text
      → length text < 1023
      → Flow w
          ((log ++ feed (before 0 text) ∷ []) ++ a ∷ [])
          (w.output ((log ++ feed (before 0 text) ∷ []) ++ a ∷ []))
          acts
          log'
      → Flow w log text (a ∷ acts) log'

read_pipe-ok :
    (spare : ℕ) (text : Str)
    → 0 < length text
    → length text + spare < 1025
    → read_pipe spare text ≡ ok (before 0 text)
unfolding read_pipe
read_pipe-ok spare [] some_text small = absurd (omega arith)
read_pipe-ok spare (c ∷ s) some_text small = rw (lt→ltb (length (c ∷ s) + spare) 1025 small) refl

drop-length : (xs ys : List Action) → drop (length xs) (xs ++ ys) ≡ ys
drop-length [] ys = refl
drop-length (x ∷ xs) ys = drop-length xs ys

outputs_one :
    (out : List Action → Str) (log : List Action) (a : Action)
    → outputs out log (a ∷ []) ≡ out (log ++ a ∷ [])
unfolding outputs
outputs_one out log a = append-nil (out (log ++ a ∷ []))

stage_first :
    (w : World) (y : Str) (ys : List Str) (pipe : Str) (s : Cluster) (a : Action)
    → findnode y s.nodes ≡ here
    → run_args (words y) ≡ ok a
    → stage w false y ys pipe s ≡ ok (w.output (s.log ++ a ∷ []), did a s)
unfolding stage stage_target runcommand
stage_first w y ys pipe s a e good =
    rw (e, run_here-ok y s a good, drop-length s.log (a ∷ []), outputs_one w.output s.log a) refl

stage_fed :
    (w : World) (y : Str) (ys : List Str) (text : Str) (s : Cluster) (a : Action)
    → findnode y s.nodes ≡ here
    → run_args (words y) ≡ ok a
    → 0 < length text
    → length text < 1023
    → let fed = did (feed (before 0 text)) s in
      stage w true y ys text s ≡ ok (w.output (fed.log ++ a ∷ []), did a fed)
unfolding stage stage_target runcommand
stage_fed w y ys text s a e good some_text small =
    let fed = did (feed (before 0 text)) s in
    rw
      (
        e,
        read_pipe-ok 2 text some_text (omega arith),
        run_here-ok y fed a good,
        drop-length fed.log (a ∷ []),
        outputs_one w.output fed.log a,
      )
      refl

stages_step :
    (w : World) (piped : Bool) (y : Str) (ys : List Str) (pipe pipe' : Str) (s s' : Cluster)
    → stage w piped y ys pipe s ≡ ok (pipe', s')
    → stages w piped (y ∷ ys) pipe s ≡ stages w true ys pipe' s'
unfolding stages
stages_step w piped y ys pipe pipe' s s' e = rw e refl

stages-Flow :
    (w : World) (ys : List Str) (text : Str) (s : Cluster) (acts log' : List Action)
    → AreLocal s.nodes ys acts
    → Flow w s.log text acts log'
    → (s' : Cluster) × (stages w true ys text s ≡ ok s') × (s'.log ≡ log')
stages-Flow w [] text s [] log' local (last some_text small) = (
  did (print (before 0 text)) s,
  (unfold stages in rw (read_pipe-ok 1 text some_text (omega arith)) refl),
  refl,
)
stages-Flow w [] text s (a ∷ acts) log' local flow = absurd local
stages-Flow w (y ∷ ys) text s [] log' local flow = absurd local
stages-Flow w (y ∷ ys) text s (a ∷ acts) log' (e, good, local) (next some_text small flow) =
    let fed = did (feed (before 0 text)) s in
    let s' = did a fed in
    let text' = w.output s'.log in
    let (s'', r, log) = stages-Flow w ys text' s' acts log' local flow in
    (
      s'',
      stages_step w true y ys text text' s s' (stage_fed w y ys text s a e good some_text small)
          ∙ r,
      log,
    )

-- A line with a pipe is none of the words that `executeshell` knows.
piped_ne :
    (msg word : Str) → checkpipe msg ≡ true → checkpipe word ≡ false → str_eq msg word ≡ false
piped_ne msg word piped plain = elim (Bool-cases (str_eq msg word)) [
  | inl e ↦
      let same = ap checkpipe (str_eq→eq msg word e) in
      let clash : true ≡ false = sym piped ∙ same ∙ plain in cc
  | inr e ↦ e
]

executeshell_piped :
    (w : World) (msg : Str) (s : Cluster)
    → length msg < 1024
    → checkpipe msg ≡ true
    → executeshell w msg s ≡ stages w false (split_on b'|' msg) [] s
unfolding executeshell
executeshell_piped w msg s small piped =
    rw
      (
        piped_ne msg (codes "nodes") piped (unfold checkpipe split_on in refl),
        piped_ne msg (codes "exit") piped (unfold checkpipe split_on in refl),
        lt→ltb (length msg) 1024 small,
        piped,
      )
      refl

-- A line of commands for the node itself, joined by pipes, runs them from left to right: the first
-- as it is, and each of the others with the text that the one before it wrote on its input; the
-- text of the last is printed. No text may be empty or longer than the buffer.
pub executeshell-Flow :
    (w : World) (msg y : Str) (ys : List Str) (s : Cluster) (a : Action) (acts log' : List Action)
    → length msg < 1024
    → checkpipe msg ≡ true
    → split_on b'|' msg ≡ y ∷ ys
    → AreLocal s.nodes (y ∷ ys) (a ∷ acts)
    → Flow w (s.log ++ a ∷ []) (w.output (s.log ++ a ∷ [])) acts log'
    → (s' : Cluster) × (executeshell w msg s ≡ ok s') × (s'.log ≡ log')
executeshell-Flow w msg y ys s a acts log' small piped pieces (e, good, local) flow =
    let text = w.output (s.log ++ a ∷ []) in
    let (s', r, log) = stages-Flow w ys text (did a s) acts log' local flow in
    (
      s',
      executeshell_piped w msg s small piped
          ∙ ap (λ l. stages w false l [] s) pieces
          ∙ stages_step w false y ys [] text s (did a s) (stage_first w y ys [] s a e good)
          ∙ r,
      log,
    )

silent :
    (w : World) (ys : List Str) (s : Cluster) (acts : List Action)
    → AreLocal s.nodes ys acts
    → stages w true ys [] s ≡ blocked
unfolding stages
silent w [] s acts local = unfold read_pipe in refl
silent w (z ∷ zs) s [] local = absurd local
silent w (z ∷ zs) s (b ∷ acts) local =
    unfold stage in rw local.0 (unfold stage_target read_pipe in refl)

-- If the first command of such a line writes nothing, the shell waits for ever: the pipe that it
-- reads is still open for writing.
pub executeshell_silent :
    (w : World) (msg y : Str) (ys : List Str) (s : Cluster) (a : Action) (acts : List Action)
    → length msg < 1024
    → checkpipe msg ≡ true
    → split_on b'|' msg ≡ y ∷ ys
    → AreLocal s.nodes (y ∷ ys) (a ∷ acts)
    → w.output (s.log ++ a ∷ []) ≡ []
    → executeshell w msg s ≡ blocked
executeshell_silent w msg y ys s a acts small piped pieces (e, good, local) quiet =
    let text = w.output (s.log ++ a ∷ []) in
    executeshell_piped w msg s small piped
    ∙ ap (λ l. stages w false l [] s) pieces
    ∙ stages_step w false y ys [] text s (did a s) (stage_first w y ys [] s a e good)
    ∙ ap (λ t. stages w true ys t (did a s)) quiet
    ∙ silent w ys (did a s) acts local

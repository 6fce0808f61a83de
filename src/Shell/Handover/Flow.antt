-- ===== src/Shell/Handover/Flow.antt =====
-- What the programs of `shmPipe` and `messageQueuePipe` of Assignment1P1/functions.c hand on.
use network_programming_assi.Base.{
  ℕ, zero, suc, ◌<◌, ◌≡◌, refl, ap, sym, ◌∙◌, Bool, true, false, Option, none, some, List, [], ◌∷◌,
  ◌++◌, Outcome, ok, Str, before, lt→ltb, length, arith,
}
use network_programming_assi.Shell.Handover.{
  Start, World, Medium, Shell, count_separators, program_of, read_buffer, strcpy_over, fetch_input,
  run_stage, run_stages,
}
use network_programming_assi.Shell.Handover.Room.{
  split_at, upto, after, AreShort, cut-upto, split_at_last, split_at_next,
}

-- An idle medium that a text is put in gives it back, seen in the medium's way, and is idle again.
pub record IsHolding {M : Type 0} (md : Medium M) (view : Str → Str) (Idle : M → Type 0)
    : Type 0 where
  pub get-put :
      (text : Str) (m : M)
      → Idle m
      → (held : M) × (m' : M) × (md.put text m ≡ ok held)
        × (md.get held ≡ ok (view text, m'))
        × Idle m'

-- The stage has room for its arguments and a program.
abbrev pub IsReady : World → ℕ → List Str → Str → Type 0
IsReady w room args program =
    (length args < room) × AreShort args × (program_of w args ≡ ok program)

-- The text is not empty and fits the buffer.
abbrev pub IsHeard : Str → Type 0
IsHeard s = (0 < length s) × (length s < 100)

-- The programs that were started, and one more, whose input begins with `text` and a NUL.
abbrev then_fed : List Start → Str → List Str → Str → Str → List Start
then_fed log program args text old =
    log ++ record { program = program; args = args; input = some (strcpy_over text old) } ∷ []

-- The first program, which has the shell's input.
abbrev unfed : Str → List Str → List Start
unfed program args = record { program = program; args = args; input = none } ∷ []

-- The stages after the first, of a command with `k` separators.
abbrev others : Str → ℕ → List Str → List (List Str)
others sep zero argv = []
others sep (suc k) argv = split_at sep (after sep argv)

-- The stages that are left, when `log` was started, `old` was in `tempdata` before and `text` is handed
-- to the next one: it is the beginning of its input, with a NUL after it. The last text is printed.
pub data Flow (w : World) (room : ℕ) (view : Str → Str)
    : List Start → Str → Str → List (List Str) → Str → List Start → Type 0 where
  done : {log : List Start} {old text : Str} → Flow w room view log old text [] text log
  next :
      {log end : List Start} {old text printed program : Str} {args : List Str}
      {stages : List (List Str)}
      → length text < 100
      → IsReady w room args program
      → IsHeard (w.output (then_fed log program args text old))
      → Flow w room view
          (then_fed log program args text old)
          (strcpy_over text old)
          (view (before 0 (w.output (then_fed log program args text old))))
          stages
          printed
          end
      → Flow w room view log old text (args ∷ stages) printed end

-- All stages: the first, which reads what the shell reads, and the others.
abbrev pub Handed : World → ℕ → (Str → Str) → Str → List (List Str) → Str → List Start → Type 0
Handed w room view old [] printed log = ⊥
Handed w room view old (args ∷ stages) printed log =
    (program : Str) × IsReady w room args program
    × IsHeard (w.output (unfed program args))
    × Flow w room view (unfed program args) old (view (before 0 (w.output (unfed program args))))
        stages printed log

Flow-done :
    {w : World} {room : ℕ} {view : Str → Str} {log end : List Start} {old text printed : Str}
    → Flow w room view log old text [] printed end
    → (text ≡ printed) × (log ≡ end)
Flow-done done = (refl, refl)

read_buffer-heard : (s : Str) → IsHeard s → read_buffer s ≡ ok (before 0 s)
unfolding read_buffer
read_buffer-heard [] (some_text, small) = absurd (omega arith)
read_buffer-heard (c ∷ s) (some_text, small) = rw (lt→ltb (length (c ∷ s)) 100 small) refl

module _ {M : Type 0} (w : World) (md : Medium M) (sep : Str) where
  run_stage-ready :
      (room : ℕ) (first : Bool) (h h' : Shell M) (input : Option Str) (program : Str) (m : M)
      → fetch_input w md sep first h ≡ ok (input, h')
      → IsReady w room (upto sep h'.left) program
      → let log =
          h'.log ++ record { program = program; args = upto sep h'.left; input = input } ∷ [] in
        IsHeard (w.output log)
        → md.put (before 0 (w.output log)) h'.medium ≡ ok m
        → run_stage w md sep room first h
          ≡ ok (record h' { left = after sep h'.left; medium = m; log = log })
  unfolding run_stage
  run_stage-ready room first h h' input program m fetched (enough, short, found) heard kept =
      rw (fetched, cut-upto sep room h'.left enough short, found, read_buffer-heard _ heard, kept)
        refl

  fetch_input-held :
      (h : Shell M) (text : Str) (m : M)
      → md.get h.medium ≡ ok (text, m)
      → length text < 100
      → fetch_input w md sep false h
        ≡ ok (
          some (strcpy_over text h.tempdata),
          record h { tempdata = strcpy_over text h.tempdata; medium = m },
        )
  unfolding fetch_input
  fetch_input-held h text m held small = rw (held, lt→ltb (length text) 100 small) refl

-- What the stages after the first come to.
abbrev Ends : {M : Type 0} → Medium M → Outcome (Shell M) → Str → List Start → Type 0
Ends {M} md run printed log =
    (end : Shell M) × (m : M) × (run ≡ ok end)
    × (md.get end.medium ≡ ok (printed, m))
    × (end.log ≡ log)

module _ {M : Type 0} (w : World) (md : Medium M) (sep : Str) (view : Str → Str) (Idle : M → Type 0)
    (holding : IsHolding md view Idle) (room : ℕ) where
  -- The shell between two stages, with `text` in the medium and the stages `stages` to go.
  abbrev Between : Shell M → List (List Str) → Str → List Start → Type 0
  Between h stages printed log =
      (text : Str) × (m : M) × (md.get h.medium ≡ ok (text, m))
      × Idle m
      × Flow w room view h.log h.tempdata text stages printed log

  run_stage-Between :
      (h : Shell M) (stages : List (List Str)) (printed : Str) (log : List Start)
      → Between h (upto sep h.left ∷ stages) printed log
      → (h' : Shell M) × (run_stage w md sep room false h ≡ ok h')
        × (h'.left ≡ after sep h.left)
        × Between h' stages printed log
  run_stage-Between h stages printed log (text, m, held, idle, next small ready heard flow) =
      let (held_text, m', put, kept, idle') = holding.get-put (before 0 (w.output _)) m idle in
      (
        _,
        run_stage-ready w md sep room false h _ _ _ held_text
            (fetch_input-held w md sep h text m held small) ready heard put,
        refl,
        (_, m', kept, idle', flow),
      )

  run_stages-Between :
      (k : ℕ) (h : Shell M) (printed : Str) (log : List Start)
      → count_separators sep h.left ≡ k
      → Between h (split_at sep h.left) printed log
      → Ends md (run_stages w md sep room k false h) printed log
  unfolding run_stages
  run_stages-Between zero h printed log none_left between =
      let stages = rw (split_at_last sep h.left none_left) at between in
      let (h', run, left, (text, m, held, idle, flow)) =
        run_stage-Between h [] printed log stages in
      let (text_eq, log_eq) = Flow-done flow in
      (h', m, run, held ∙ ap (λ t. ok (t, m)) text_eq, log_eq)
  run_stages-Between (suc k) h printed log some_left between =
      let (split, fewer) = split_at_next sep k h.left some_left in
      let stages = rw split at between in
      let (h', run, left, rest) = run_stage-Between h _ printed log stages in
      let rest' = rw (ap (split_at sep) (sym left)) at rest in
      rw run (run_stages-Between k h' printed log (ap (count_separators sep) left ∙ fewer) rest')

  -- The shell before the first stage.
  abbrev begin : M → Str → List Str → Shell M
  begin m old argv = record { left = argv; tempdata = old; medium = m; log = [] }

  pub run_stages-Handed :
      (k : ℕ) (m : M) (old : Str) (argv : List Str) (printed : Str) (log : List Start)
      → count_separators sep argv ≡ k
      → Idle m
      → Handed w room view old (split_at sep argv) printed log
      → Ends md (run_stages w md sep room k true (begin m old argv)) printed log
  unfolding run_stages fetch_input
  run_stages-Handed zero m old argv printed log none_left idle handed =
      let (program, ready, heard, flow) = rw (split_at_last sep argv none_left) at handed in
      let (held_text, m', put, kept, idle') = holding.get-put (before 0 (w.output _)) m idle in
      let (text_eq, log_eq) = Flow-done flow in
      (
        _,
        m',
        run_stage-ready w md sep room true (begin m old argv) _ none program held_text refl ready
            heard put,
        kept ∙ ap (λ t. ok (t, m')) text_eq,
        log_eq,
      )
  run_stages-Handed (suc k) m old argv printed log some_left idle handed =
      let (split, fewer) = split_at_next sep k argv some_left in
      let (program, ready, heard, flow) = rw split at handed in
      let (held_text, m', put, kept, idle') = holding.get-put (before 0 (w.output _)) m idle in
      rw
        (run_stage-ready w md sep room true (begin m old argv) _ none program held_text refl ready
          heard put)
        (run_stages-Between k _ printed log fewer (_, m', kept, idle', flow))

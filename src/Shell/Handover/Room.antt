-- ===== src/Shell/Handover/Room.antt =====
-- The stages of a command of Assignment1P1 whose programs hand texts on, and the room that
-- `shmPipe` and `messageQueuePipe` make for their arguments.
use network_programming_assi.Base.{
  ℕ, zero, suc, ◌<◌, ◌≡◌, refl, ap, ◌⊎◌, inl, inr, true, List, [], ◌∷◌, ok, fault, Str, codes,
  str_eq, ltb, lt→ltb, if◌then◌else◌, length, All, arith, Bool-cases,
}
use network_programming_assi.Shell.Handover.{
  World, Medium, Shell, count_separators, cut, program_of, fetch_input, run_stage, run_stages,
  hand_over, shm_pipe, message_queue_pipe,
}

abbrev push_arg : Str → List (List Str) → List (List Str)
push_arg w [] = (w ∷ []) ∷ []
push_arg w (s ∷ ss) = (w ∷ s) ∷ ss

-- The arguments between the separators.
unfoldable pub split_at : Str → List Str → List (List Str)
split_at sep [] = [] ∷ []
split_at sep (w ∷ ws) = if str_eq w sep then [] ∷ split_at sep ws else push_arg w (split_at sep ws)

-- The arguments before the first separator, and those after it.
abbrev pub upto : Str → List Str → List Str
upto sep [] = []
upto sep (w ∷ ws) = if str_eq w sep then [] else w ∷ upto sep ws

abbrev pub after : Str → List Str → List Str
after sep [] = []
after sep (w ∷ ws) = if str_eq w sep then ws else after sep ws

abbrev pub AreShort : List Str → Type 0
AreShort ws = All (λ w. length w < 100) ws

pub cut-upto :
    (sep : Str) (room : ℕ) (ws : List Str)
    → length (upto sep ws) < room
    → AreShort (upto sep ws)
    → cut sep room ws ≡ ok (upto sep ws, after sep ws)
unfolding cut
cut-upto sep zero ws lt short = absurd (omega arith)
cut-upto sep (suc room) [] lt short = refl
cut-upto sep (suc room) (w ∷ ws) lt short = elim (Bool-cases (str_eq w sep)) [
  | inl e ↦ rw e refl
  | inr e ↦
      let here : upto sep (w ∷ ws) ≡ w ∷ upto sep ws = rw e refl in
      let size = ap (length {A = Str}) here in
      let (small, short') = rw (ap AreShort here) at short in
      rw (e, lt→ltb (length w) 100 small, cut-upto sep room ws (omega arith) short') refl
]

pub split_at_last :
    (sep : Str) (ws : List Str) → count_separators sep ws ≡ 0 → split_at sep ws ≡ upto sep ws ∷ []
unfolding count_separators split_at
split_at_last sep [] e = refl
split_at_last sep (w ∷ ws) e = elim (Bool-cases (str_eq w sep)) [
  | inl p ↦ absurd (ground arith)
  | inr p ↦ rw (p, split_at_last sep ws (ground arith)) refl
]

pub split_at_next :
    (sep : Str) (k : ℕ) (ws : List Str)
    → count_separators sep ws ≡ suc k
    → (split_at sep ws ≡ upto sep ws ∷ split_at sep (after sep ws))
      × (count_separators sep (after sep ws) ≡ k)
unfolding count_separators split_at
split_at_next sep k [] e = absurd (omega arith)
split_at_next sep k (w ∷ ws) e = elim (Bool-cases (str_eq w sep)) [
  | inl p ↦ rw p (refl, ground arith)
  | inr p ↦ let (split, left) = split_at_next sep k ws (ground arith) in rw (p, split) (refl, left)
]

-- In a block for one pointer there is no room for an argument and the NULL.
cut_one :
    (sep : Str) (ws : List Str)
    → count_separators sep ws ≡ 1
    → (cut sep 1 ws ≡ fault) ⊎ ((left : List Str) × (cut sep 1 ws ≡ ok ([], left)))
unfolding cut count_separators
cut_one sep [] e = absurd (omega arith)
cut_one sep (w ∷ ws) e = elim (Bool-cases (str_eq w sep)) [
  | inl p ↦ inr (ws, rw p refl)
  | inr p ↦ elim (Bool-cases (ltb (length w) 100)) [
    | inl q ↦ inl (rw (p, q) refl)
    | inr q ↦ inl (rw (p, q) refl)
  ]
]

stage_one :
    {M : Type 0} (w : World) (md : Medium M) (sep : Str) (h : Shell M)
    → count_separators sep h.left ≡ 1
    → run_stage w md sep 1 true h ≡ fault
unfolding run_stage fetch_input program_of
stage_one w md sep h e = elim (cut_one sep h.left e) [
  | inl p ↦ rw p refl
  | inr (left, p) ↦ rw p refl
]

hand_over_one :
    {M : Type 0} (w : World) (md : Medium M) (sep : Str) (m : M) (tempdata : Str) (argv : List Str)
    → w.slots 1 ≡ 1
    → count_separators sep argv ≡ 1
    → hand_over w md sep m tempdata argv ≡ fault
unfolding hand_over run_stages
hand_over_one w md sep m tempdata argv room e =
    rw
      (
        e,
        room,
        stage_one w md sep (record { left = argv; tempdata = tempdata; medium = m; log = [] }) e,
      )
      refl

-- If malloc gives no more room than it is asked for, a command with one separator never gets as far
-- as its first program, whatever the two commands are: the NULL after the first argument is written
-- behind the block, or there is no argument at all.
pub hand_over-one_separator :
    (w : World) (tempdata : Str) (queue argv argv' : List Str)
    → w.slots 1 ≡ 1
    → count_separators (codes "S") argv ≡ 1
    → count_separators (codes "#") argv' ≡ 1
    → (shm_pipe w tempdata argv ≡ fault) × (message_queue_pipe w queue tempdata argv' ≡ fault)
unfolding shm_pipe message_queue_pipe
hand_over-one_separator w tempdata queue argv argv' room e e' = (
  hand_over_one w _ (codes "S") [] tempdata argv room e,
  hand_over_one w _ (codes "#") queue tempdata argv' room e',
)

-- ===== src/Shell/Handover/Texts.antt =====
-- What `shmPipe` and `messageQueuePipe` of Assignment1P1/functions.c run and print.
use network_programming_assi.Base.{ℕ, ◌<◌, lt→ltb, ◌≡◌, refl, List, [], ◌∷◌, ◌++◌, ok, Str, codes}
use network_programming_assi.Shell.Handover.{
  Start, World, Medium, shared_memory, message_queue, whole_message, count_separators, hand_over,
  shm_pipe, message_queue_pipe,
}
use network_programming_assi.Shell.Handover.Room.{split_at}
use network_programming_assi.Shell.Handover.Flow.{IsHolding, Handed, run_stages-Handed}

hand_over-Handed :
    {M : Type 0} (w : World) (md : Medium M) (sep : Str) (view : Str → Str) (Idle : M → Type 0)
    → IsHolding md view Idle
    → (m : M) (old : Str) (argv : List Str) (printed : Str) (log : List Start) → Idle m
    → Handed w (w.slots (count_separators sep argv)) view old (split_at sep argv) printed log
    → hand_over w md sep m old argv ≡ ok (printed, log)
unfolding hand_over
hand_over-Handed w md sep view Idle holding m old argv printed log idle handed =
    let count = count_separators sep argv in
    let (end, m', run, got, log_eq) =
      run_stages-Handed w md sep view Idle holding (w.slots count) count m old argv printed log refl
        idle handed in
    rw (run, got, log_eq) refl

-- What a text in shared memory becomes: a newline is written after it.
abbrev pub with_newline : Str → Str
with_newline text = text ++ b'\n' ∷ []

-- The stages of a command, with the room that is made for their arguments, hand texts on.
abbrev pub HandedOn : World → Str → (Str → Str) → Str → List Str → Str → List Start → Type 0
HandedOn w sep view old argv printed log =
    Handed w (w.slots (count_separators sep argv)) view old (split_at sep argv) printed log

shm_pipe-HandedOn :
    (w : World) (old : Str) (argv : List Str) (printed : Str) (log : List Start)
    → HandedOn w (codes "S") with_newline old argv printed log
    → shm_pipe w old argv ≡ ok (printed, log)
unfolding shm_pipe
shm_pipe-HandedOn w old argv printed log handed =
    hand_over-Handed w shared_memory (codes "S") with_newline (λ m. Unit)
      (record { get-put = λ text m idle. (_, text ++ b'\n' ∷ [], refl, refl, tt) }) [] old argv
      printed log tt handed

whole_message-ok : (behind : ℕ) → 7 < behind → whole_message behind ≡ ok tt
unfolding whole_message
whole_message-ok behind enough = rw (lt→ltb 7 behind enough) refl

-- An empty queue holds the text that is sent.
queue_holds :
    (behind : ℕ) → 7 < behind → IsHolding (message_queue behind) (λ text. text) (λ q. q ≡ [])
queue_holds behind enough = record {
  get-put = λ text m idle. (
    text ∷ [],
    [],
    rw (whole_message-ok behind enough, idle) refl,
    rw (whole_message-ok behind enough) refl,
    refl,
  );
}

message_queue_pipe-HandedOn :
    (w : World) (old : Str) (argv : List Str) (printed : Str) (log : List Start)
    → 7 < w.behind
    → HandedOn w (codes "#") (λ text. text) old argv printed log
    → message_queue_pipe w [] old argv ≡ ok (printed, log)
unfolding message_queue_pipe
message_queue_pipe-HandedOn w old argv printed log enough handed =
    hand_over-Handed w (message_queue w.behind) (codes "#") (λ text. text) (λ q. q ≡ [])
      (queue_holds w.behind enough) [] old argv printed log refl handed

-- If every stage has room for its arguments and a program, no text is empty or too long for the
-- buffers, and at least 8 bytes behind each message can be read and written, then the stages of a command with `S`, and with an empty queue those of a command with `#`,
-- run from left to right, each on the text that the one before it wrote with a NUL after it, and what
-- the last one wrote is printed; between `S` a newline is added to each text, and to the last.
pub pipes_hand_over :
    (w : World) (old : Str) (argv argv' : List Str) (printed printed' : Str) (log log' : List Start)
    → 7 < w.behind
    → HandedOn w (codes "S") with_newline old argv printed log
    → HandedOn w (codes "#") (λ text. text) old argv' printed' log'
    → (shm_pipe w old argv ≡ ok (printed, log))
      × (message_queue_pipe w [] old argv' ≡ ok (printed', log'))
pipes_hand_over w old argv argv' printed printed' log log' enough handed handed' = (
  shm_pipe-HandedOn w old argv printed log handed,
  message_queue_pipe-HandedOn w old argv' printed' log' enough handed',
)

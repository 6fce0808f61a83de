-- ===== src/Chat/Talk.antt =====
-- Questions and answers in Assignment3P1/multicast_chat_client.c: what one program sends and what the
-- others make of it.
use network_programming_assi.Base.{
  ℕ, ◌<◌, ◌≡◌, refl, ap, ◌∙◌, Str, str_eq, codes, Without, strtok, strtok-append, none, List, [],
  ◌∷◌, ◌++◌, true, false, ok, fault, ◌==◌, if◌then◌else◌, length, length-append, lt→ltb, arith,
  Bool-cases, inl, inr,
}
use network_programming_assi.Chat.Courses.{Course, touch, asked, told, last_byte, receive}
use network_programming_assi.Chat.Menu.{Chat, known, scan_word, confirmed, ask, tell}
use network_programming_assi.Chat.Table.{
  is_table, has_room, IsFlag, asked-IsFlag, told-IsFlag, touch-is_table, known-touch_self,
  known-touch_other,
}

-- A course's name as a user types it.
pub record IsName (c : ℕ) (w : Str) : Type 0 where
  pub no_spaces : Without b' ' (c ∷ w)
  pub short : length (c ∷ w) < 50

last_byte-append : (w : Str) (c d : ℕ) (s : Str) → last_byte (w ++ (c ∷ d ∷ s)) ≡ last_byte (d ∷ s)
unfolding last_byte
last_byte-append [] c d s = refl
last_byte-append (e ∷ []) c d s = refl
last_byte-append (e ∷ f ∷ w) c d s = last_byte-append (f ∷ w) c d s

abbrev pub flag_of : ℕ → Course → Course
flag_of last = if last == b'?' then asked else told

flag_of-IsFlag : (last : ℕ) → IsFlag (flag_of last)
flag_of-IsFlag last = elim (Bool-cases (last == b'?')) [
  | inl e ↦ rw e asked-IsFlag
  | inr e ↦ rw e told-IsFlag
]

-- A message that begins with a name and a space, with the last byte of the rest.
receive-touch :
    (c : ℕ) (w : Str) (d : ℕ) (s : Str) (last : ℕ) (cs : List Course)
    → IsName c w
    → length ((c ∷ w) ++ (b' ' ∷ d ∷ s)) < 100
    → last_byte (d ∷ s) ≡ ok last
    → receive ((c ∷ w) ++ (b' ' ∷ d ∷ s)) cs ≡ ok (touch (flag_of last) (c ∷ w) cs)
unfolding receive
receive-touch c w d s last cs is long e =
    rw
      (
        lt→ltb (length ((c ∷ w) ++ (b' ' ∷ d ∷ s))) 100 long,
        last_byte-append (c ∷ w) b' ' d s ∙ e,
        strtok-append b' ' c w (d ∷ s) is.no_spaces,
        lt→ltb (length (c ∷ w)) 50 is.short,
      )
      refl

-- What a message about the course does to a table.
pub record Heard (test : Course → ℕ) (name : Str) (cs cs' : List Course) : Type 0 where
  pub table : is_table cs' ≡ true
  pub set : has_room name cs ≡ true → known test name cs' ≡ true
  pub others :
      (flag : Course → ℕ) (other : Str)
      → str_eq name other ≡ false
      → known flag other cs' ≡ known flag other cs

touch-Heard :
    (flag : Course → Course) (test : Course → ℕ) (c : ℕ) (w : Str) (cs : List Course)
    → IsFlag flag
    → ((x : Course) → test (flag x) ≡ 1)
    → is_table cs ≡ true
    → Heard test (c ∷ w) cs (touch flag (c ∷ w) cs)
touch-Heard flag test c w cs is sets table = record {
  table = touch-is_table flag is (c ∷ w) cs refl table;
  set = λ room. known-touch_self flag is test (c ∷ w) cs sets refl room;
  others = λ f other ne. known-touch_other flag is f (c ∷ w) other cs ne refl table;
}

-- A message that begins with a name and a space, and that does not end with a question mark, is
-- received normally: the table stays in order, the course counts as answered if there is a place
-- for it, and nothing changes for the other courses.
pub receive-Heard :
    (c : ℕ) (w : Str) (d : ℕ) (s : Str) (last : ℕ) (cs : List Course)
    → IsName c w
    → length ((c ∷ w) ++ (b' ' ∷ d ∷ s)) < 100
    → last_byte (d ∷ s) ≡ ok last
    → (last == b'?') ≡ false
    → is_table cs ≡ true
    → (cs' : List Course) × (receive ((c ∷ w) ++ (b' ' ∷ d ∷ s)) cs ≡ ok cs')
      × Heard (λ x. x.recv) (c ∷ w) cs cs'
receive-Heard c w d s last cs is long e plain table = (
  touch told (c ∷ w) cs,
  receive-touch c w d s last cs is long e
      ∙ ap (λ b. ok (touch (if b then asked else told) (c ∷ w) cs)) plain,
  touch-Heard told (λ x. x.recv) c w cs told-IsFlag (λ x. refl) table,
)

-- A message that ends with a question mark marks the course as asked about, whatever stands in
-- between: an answer that ends so is taken for a question.
pub receive_question :
    (c : ℕ) (w : Str) (d : ℕ) (s : Str) (cs : List Course)
    → IsName c w
    → length ((c ∷ w) ++ (b' ' ∷ d ∷ s)) < 100
    → last_byte (d ∷ s) ≡ ok b'?'
    → is_table cs ≡ true
    → (cs' : List Course) × (receive ((c ∷ w) ++ (b' ' ∷ d ∷ s)) cs ≡ ok cs')
      × Heard (λ x. x.send) (c ∷ w) cs cs'
receive_question c w d s cs is long e table = (
  touch asked (c ∷ w) cs,
  receive-touch c w d s b'?' cs is long e,
  touch-Heard asked (λ x. x.send) c w cs asked-IsFlag (λ x. refl) table,
)

abbrev pub with_courses : List Course → Chat → Chat
with_courses cs s = record s { courses = cs }

scan_word-cons :
    (n : ℕ) (s : Chat) (w : Str) (ws : List Str)
    → s.words ≡ w ∷ ws
    → length w < n
    → scan_word n s ≡ ok (w, record s { words = ws })
unfolding scan_word
scan_word-cons n s w ws e lt = rw (e, lt→ltb (length w) n lt) refl

ask-sends :
    (s : Chat) (name : Str) (ws : List Str)
    → s.words ≡ name ∷ ws
    → length name < 50
    → known (λ x. x.recv) name s.courses ≡ false
    → ask s ≡ ok (record s { words = ws; sent = s.sent ++ (name ++ codes " test date?") ∷ [] })
unfolding ask confirmed
ask-sends s name ws e short unknown = rw (scan_word-cons 50 s name ws e short, unknown) refl

tell-sends :
    (t : Chat) (name ans : Str) (ws : List Str)
    → t.words ≡ name ∷ ans ∷ ws
    → length name < 50
    → length ans < 20
    → known (λ x. x.send) name t.courses ≡ true
    → tell t ≡ ok (record t { words = ws; sent = t.sent ++ (name ++ (b' ' ∷ ans)) ∷ [] })
unfolding tell confirmed
tell-sends t name ans ws e short few asked_before =
    rw
      (
        scan_word-cons 50 t name (ans ∷ ws) e short,
        asked_before,
        scan_word-cons 20 (record t { words = ans ∷ ws }) ans ws refl few,
      )
      refl

-- A user who knows no answer about a course asks; where the question arrives and there is a place
-- for the course, the user tells the date without being warned; where the answer arrives in turn,
-- and it does not end with a question mark, the asker's table has the course as answered.
pub ask-tell :
    (s t : Chat) (c : ℕ) (w : Str) (d : ℕ) (ans : Str) (last : ℕ) (ws us : List Str)
    → IsName c w
    → s.words ≡ (c ∷ w) ∷ ws
    → t.words ≡ (c ∷ w) ∷ (d ∷ ans) ∷ us
    → length (d ∷ ans) < 20
    → last_byte (d ∷ ans) ≡ ok last
    → (last == b'?') ≡ false
    → known (λ x. x.recv) (c ∷ w) s.courses ≡ false
    → is_table s.courses ≡ true
    → is_table t.courses ≡ true
    → has_room (c ∷ w) s.courses ≡ true
    → has_room (c ∷ w) t.courses ≡ true
    → (question answer : Str) × (heard : List Course) × (learnt : List Course) × (ask s
        ≡ ok (record s { words = ws; sent = s.sent ++ question ∷ [] }))
      × (receive question t.courses ≡ ok heard)
      × (tell (with_courses heard t)
          ≡ ok (record t { courses = heard; words = us; sent = t.sent ++ answer ∷ [] }))
      × (receive answer s.courses ≡ ok learnt)
      × (known (λ x. x.recv) (c ∷ w) learnt ≡ true)
ask-tell s t c w d ans last ws us is e e' few ends plain unknown table table' room room' =
    let (heard, told_of, h) =
      receive_question c w b't' (codes "est date?") t.courses is
        (omega (arith, length-append (c ∷ w) (codes " test date?"), is.short))
        (unfold last_byte in refl) table' in
    let (learnt, answered, l) =
      receive-Heard c w d ans last s.courses is
        (omega (arith, length-append (c ∷ w) (b' ' ∷ d ∷ ans), is.short)) ends plain table in
    (
      (c ∷ w) ++ codes " test date?",
      (c ∷ w) ++ (b' ' ∷ d ∷ ans),
      heard,
      learnt,
      ask-sends s (c ∷ w) ws e is.short unknown,
      told_of,
      tell-sends (with_courses heard t) (c ∷ w) (d ∷ ans) us e' is.short few (h.set room'),
      answered,
      l.set room,
    )

last_byte-cons : (c : ℕ) (s : Str) → (last : ℕ) × (last_byte (c ∷ s) ≡ ok last)
unfolding last_byte
last_byte-cons c [] = (c, refl)
last_byte-cons c (d ∷ s) = last_byte-cons d s

-- A message without a word, such as the empty message, makes the receiver read or copy from where
-- nothing is.
pub receive_blank :
    (msg : Str) (cs : List Course)
    → strtok b' ' msg ≡ none
    → length msg < 100
    → receive msg cs ≡ fault
unfolding receive
receive_blank [] cs e short = unfold last_byte in refl
receive_blank (c ∷ s) cs e short =
    rw (lt→ltb (length (c ∷ s)) 100 short, (last_byte-cons c s).1, e) refl

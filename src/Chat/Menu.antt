-- ===== src/Chat/Menu.antt =====
-- The menu of Assignment3P1/multicast_chat_client.c. `words` holds what the user types, word by word,
-- and `sent` the messages to the group, each the bytes before its NUL.
use network_programming_assi.Base.{
  ℕ, Str, str_eq, codes, fits, ℤ, pos, List, [], ◌∷◌, ◌++◌, Bool, true, false, ◌&&◌, Outcome, ok,
  blocked, stopped, ◌>>=◌, ◌>>◌, ◌==◌, if◌then◌else◌,
}
use network_programming_assi.Chat.Courses.{Course, is_empty}

pub record Chat : Type 0 where
  pub courses : List Course
  pub words : List Str
  pub sent : List Str

-- The loops that look for a course whose flag is set.
unfoldable pub known : (Course → ℕ) → Str → List Course → Bool
known flag name [] = false
known flag name (c ∷ cs) =
    let rest = known flag name cs in
    if is_empty c.name then false else if str_eq c.name name && flag c == 1 then true else rest

-- scanf("%s", buf) with `char buf[size]`
unfoldable pub scan_word : ℕ → Chat → Outcome (Str × Chat)
scan_word size s = elim s.words [
  | [] ↦ blocked
  | w ∷ ws ↦ do fits size w; ok (w, record s { words = ws })
]

abbrev pub send_message : Str → Chat → Chat
send_message msg s = record s { sent = s.sent ++ msg ∷ [] }

-- Whether the user wants to go on, if there is a question about it.
unfoldable pub confirmed : Bool → Chat → Outcome (Bool × Chat)
confirmed true s = ok (true, s)
confirmed false s = do (ch, s) ← scan_word 2 s; ok (str_eq ch (codes "y"), s)

unfoldable pub ask : Chat → Outcome Chat
ask s = do
  (name, s) ← scan_word 50 s
  (go_on, s) ← confirmed (if known (λ c. c.recv) name s.courses then false else true) s
  ok (if go_on then send_message (name ++ codes " test date?") s else s)

unfoldable pub tell : Chat → Outcome Chat
tell s = do
  (name, s) ← scan_word 50 s
  (go_on, s) ← confirmed (known (λ c. c.send) name s.courses) s
  if go_on then (do (ans, s) ← scan_word 20 s; ok (send_message (name ++ (b' ' ∷ ans)) s)) else ok s

-- A round of the menu, for the number that `scanf` has read.
unfoldable pub choose : ℤ → Chat → Outcome Chat
choose choice s = elim choice [
  | pos n ↦ if n == 1 then ask s else if n == 2 then tell s else stopped
  | _ ↦ stopped
]

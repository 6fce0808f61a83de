-- ===== src/BigFs/Client/State.antt =====
-- The state of the client of Assignment2P1/Client.c between two commands, and how it talks to the
-- servers.
use network_programming_assi.Base.{
  ℕ, ◌+◌, ◌%◌, Str, fits, Option, none, some, List, [], ◌∷◌, ◌++◌, Outcome, ok, fault, blocked,
  ◌>>=◌, ◌>>◌, ltb, require, get_elem?, set,
}
use network_programming_assi.BigFs.Client.Strings.{gather}

-- `sockfd`, or `datafds[i]`.
pub data Target : Type 0 where
  name_server : Target
  data_server : ℕ → Target

-- `command` holds the pieces of the line that `strsep(&command, " ")` has not given yet, and is
-- empty where `command` is NULL. `from_name` and `from_data` hold the strings that come from the
-- servers, `sent` what is written to them, in order. `saved` holds the files that were written.
pub record Client : Type 0 where
  pub command : List Str
  pub servers : ℕ
  pub from_name : List Str
  pub from_data : List (List Str)
  pub sent : List (Target × Str)
  pub printed : Str
  pub saved : List (Str × Str)

-- write(fd, bytes, length)
abbrev pub send : Target → Str → Client → Client
send to bytes c = record c { sent = c.sent ++ (to, bytes) ∷ [] }

abbrev pub send_string : Target → Str → Client → Client
send_string to w = send to (w ++ 0 ∷ [])

abbrev pub print : Str → Client → Client
print w c = record c { printed = c.printed ++ w }

-- strsep(&command, " "), where the program uses the result without a test for NULL.
unfoldable pub argument : Client → Outcome (Str × Client)
argument c = elim c.command [ [] ↦ fault | w ∷ ws ↦ ok (w, record c { command = ws }) ]

-- copyToString(buf) with `char buf[cap]`
unfoldable pub receive : ℕ → Client → Outcome (Str × Client)
receive cap c = elim c.from_name [
  | [] ↦ blocked
  | w ∷ ws ↦ do fits cap w; ok (w, record c { from_name = ws })
]

abbrev pub queue_of : Option (List Str) → Outcome (List Str)
queue_of none = fault
queue_of (some ws) = ok ws

-- datacopyToString(buf, ptr) with `char buf[cap]`
unfoldable pub data_receive : ℕ → ℕ → Client → Outcome (Str × Client)
data_receive cap ptr c = do
  ws ← queue_of (get_elem? c.from_data ptr)
  elim ws [
    | [] ↦ blocked
    | w ∷ ws ↦ do fits cap w; ok (w, record c { from_data = set c.from_data ptr ws })
  ]

-- The strings of one chunk from the data server `ptr`. A data server sends at most 1024 bytes in a
-- string, so each fits the block that the program reads it into.
unfoldable pub data_gather : ℕ → Client → Outcome (Str × Client)
data_gather ptr c = do
  ws ← queue_of (get_elem? c.from_data ptr)
  (t, ws) ← gather ws
  ok (t, record c { from_data = set c.from_data ptr ws })

-- ptr = (ptr+1)%(no_of_dataservers)
unfoldable pub advance : ℕ → ℕ → Outcome ℕ
advance servers ptr = do require (ltb 0 servers); ok ((ptr + 1) % servers)

-- ===== src/Chat/Courses.antt =====
-- The table of courses in Assignment3P1/multicast_chat_client.c, and the process that receives the
-- messages of the group. A message is the bytes before its NUL.
use network_programming_assi.Base.{
  ℕ, Str, str_eq, fits, strtok, Option, none, some, List, [], ◌∷◌, Bool, true, false, Outcome, ok,
  fault, ◌>>=◌, ◌>>◌, ◌==◌, if◌then◌else◌, replicate,
}

-- The two flags are 0 or 1.
pub record Course : Type 0 where
  pub name : Str
  pub recv : ℕ
  pub send : ℕ

abbrev pub no_of_courses : ℕ
no_of_courses = 100

abbrev pub is_empty : Str → Bool
is_empty [] = true
is_empty (c ∷ s) = false

-- A new shared memory segment is filled with zeros.
abbrev pub blank : Course
blank = record { name = []; recv = 0; send = 0 }

unfoldable pub no_courses : List Course
no_courses = replicate no_of_courses blank

abbrev pub asked : Course → Course
asked c = record c { send = 1 }

abbrev pub told : Course → Course
told c = record c { recv = 1 }

-- The loop over the courses for a message about `name`: the flag is set at the first course of this
-- name, or at the first place without a name, which gets it.
unfoldable pub touch : (Course → Course) → Str → List Course → List Course
touch flag name [] = []
touch flag name (c ∷ cs) =
    let rest = touch flag name cs in
    if is_empty c.name
    then flag (record c { name = name }) ∷ cs
    else if str_eq c.name name
    then flag c ∷ cs
    else c ∷ rest

-- msg[strlen(msg) - 1]; before the first byte there is nothing.
unfoldable pub last_byte : Str → Outcome ℕ
last_byte [] = fault
last_byte (c ∷ []) = ok c
last_byte (c ∷ d ∷ s) = last_byte (d ∷ s)

abbrev pub not_null {ℓ} : {A : Type ℓ} → Option A → Outcome A
not_null none = fault
not_null (some a) = ok a

-- A round of the receiving process.
unfoldable pub receive : Str → List Course → Outcome (List Course)
receive msg courses = do
  fits 100 msg
  last ← last_byte msg
  name ← not_null (strtok b' ' msg)
  fits 50 name
  ok (touch (if last == b'?' then asked else told) name courses)

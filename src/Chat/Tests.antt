-- ===== src/Chat/Tests.antt =====
-- A conversation between two users of Assignment3P1, and the theorems at it.
use network_programming_assi.Base.{◌≡◌, refl, Str, codes, List, [], ◌∷◌, ◌++◌, true, ok, arith, pos}
use network_programming_assi.Chat.Courses.{Course, no_courses, last_byte, receive}
use network_programming_assi.Chat.Menu.{Chat, known, scan_word, confirmed, ask, tell, choose}
use network_programming_assi.Chat.Table.{is_table, has_room, all_free}
use network_programming_assi.Chat.Talk.{IsName, with_courses, ask-tell}

abbrev os_name : Str
os_name = codes "OS"

os_IsName : IsName b'O' (codes "S")
os_IsName = record { no_spaces = (refl, (refl, tt)); short = omega arith }

abbrev user : List Str → Chat
user words = record { courses = no_courses; words = words; sent = [] }

question_run :
    choose (pos 1) (user (os_name ∷ []))
    ≡ ok (record { courses = no_courses; words = []; sent = codes "OS test date?" ∷ [] })
unfolding choose ask scan_word confirmed known no_courses
question_run = refl

no_courses-is_table : is_table no_courses ≡ true
unfolding is_table no_courses all_free
no_courses-is_table = refl

no_courses-has_room : has_room os_name no_courses ≡ true
unfolding has_room no_courses
no_courses-has_room = refl

ask-tell_example :
    (question answer : Str) × (heard : List Course) × (learnt : List Course) × (ask
        (user (os_name ∷ []))
      ≡ ok (record (user (os_name ∷ [])) { words = []; sent = [] ++ question ∷ [] }))
    × (receive question no_courses ≡ ok heard)
    × (tell (with_courses heard (user (os_name ∷ codes "5May" ∷ [])))
        ≡ ok (record (user []) { courses = heard; sent = [] ++ answer ∷ [] }))
    × (receive answer no_courses ≡ ok learnt)
    × (known (λ x. x.recv) os_name learnt ≡ true)
ask-tell_example =
    ask-tell (user (os_name ∷ [])) (user (os_name ∷ codes "5May" ∷ [])) b'O' (codes "S") b'5'
      (codes "May") b'y' [] [] os_IsName refl refl (omega arith) (unfold last_byte in refl) refl
      (unfold known no_courses in refl) no_courses-is_table no_courses-is_table no_courses-has_room
      no_courses-has_room

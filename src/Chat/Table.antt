-- ===== src/Chat/Table.antt =====
-- The courses as a table: what Assignment3P1/multicast_chat_client.c keeps true of it.
use network_programming_assi.Base.{
  ℕ, ◌≡◌, refl, ap, Str, str_eq, str_eq_refl, str_eq→eq, List, [], ◌∷◌, Bool, true, false, not,
  ◌&&◌, ◌||◌, if◌then◌else◌, arith, Bool-cases, inl, inr,
}
use network_programming_assi.Chat.Courses.{Course, is_empty, touch, asked, told}
use network_programming_assi.Chat.Menu.{known}

unfoldable pub lists : Str → List Course → Bool
lists name [] = false
lists name (c ∷ cs) = str_eq c.name name || lists name cs

unfoldable pub all_free : List Course → Bool
all_free [] = true
all_free (c ∷ cs) = is_empty c.name && all_free cs

-- The courses stand before the free places, each name once.
unfoldable pub is_table : List Course → Bool
is_table [] = true
is_table (c ∷ cs) = if is_empty c.name then all_free cs else not (lists c.name cs) && is_table cs

-- There is a course of this name, or a free place for it.
unfoldable pub has_room : Str → List Course → Bool
has_room name [] = false
has_room name (c ∷ cs) = is_empty c.name || (str_eq c.name name || has_room name cs)

-- A change of the flags only.
pub record IsFlag (flag : Course → Course) : Type 0 where
  pub name : (c : Course) → (flag c).name ≡ c.name

pub asked-IsFlag : IsFlag asked
asked-IsFlag = record { name = λ c. refl }

pub told-IsFlag : IsFlag told
told-IsFlag = record { name = λ c. refl }

str_eq-left : (a b c : Str) → str_eq a b ≡ true → str_eq a c ≡ str_eq b c
str_eq-left a b c e = ap (λ s. str_eq s c) (str_eq→eq a b e)

str_eq-empty : (a b : Str) → is_empty a ≡ true → is_empty b ≡ false → str_eq a b ≡ false
unfolding str_eq
str_eq-empty [] [] e ne = ground arith
str_eq-empty [] (c ∷ b) e ne = refl
str_eq-empty (c ∷ a) b e ne = ground arith

lists-all_free :
    (name : Str) (cs : List Course)
    → is_empty name ≡ false
    → all_free cs ≡ true
    → lists name cs ≡ false
unfolding lists all_free
lists-all_free name [] some free = refl
lists-all_free name (c ∷ cs) some free =
    ground (arith, str_eq-empty c.name name, lists-all_free name cs)

known-all_free :
    (flag : Course → ℕ) (name : Str) (cs : List Course)
    → all_free cs ≡ true
    → known flag name cs ≡ false
unfolding known all_free
known-all_free flag name [] free = refl
known-all_free flag name (c ∷ cs) free = ground arith

str_eq_sym : (a b : Str) → str_eq a b ≡ str_eq b a
unfolding str_eq
str_eq_sym [] [] = refl
str_eq_sym [] (d ∷ b) = refl
str_eq_sym (c ∷ a) [] = refl
str_eq_sym (c ∷ a) (d ∷ b) = ground (arith, str_eq_sym a b)

is_table-all_free : (cs : List Course) → all_free cs ≡ true → is_table cs ≡ true
unfolding is_table all_free
is_table-all_free [] free = refl
is_table-all_free (c ∷ cs) free = ground arith

module _ (flag : Course → Course) (is : IsFlag flag) where
  lists-touch :
      (name other : Str) (cs : List Course)
      → str_eq name other ≡ false
      → lists other cs ≡ false
      → lists other (touch flag name cs) ≡ false
  unfolding lists touch
  lists-touch name other [] ne out = refl
  lists-touch name other (c ∷ cs) ne out =
      ground (arith, is.name (record c { name = name }), is.name c, lists-touch name other cs)

  -- Messages keep the table in order.
  pub touch-is_table :
      (name : Str) (cs : List Course)
      → is_empty name ≡ false
      → is_table cs ≡ true
      → is_table (touch flag name cs) ≡ true
  unfolding is_table touch
  touch-is_table name [] some table = refl
  touch-is_table name (c ∷ cs) some table = elim (Bool-cases (is_empty c.name)) [
    | inl e ↦
        rw (e, is.name (record c { name = name }), some)
          (ground (arith, lists-all_free name cs, is_table-all_free cs))
    | inr e ↦ elim (Bool-cases (str_eq c.name name)) [
      | inl same ↦ rw (e, same, is.name c) (ground arith)
      | inr other ↦
          rw (e, other)
            (ground
              (arith, str_eq_sym c.name name, lists-touch name c.name cs, touch-is_table name cs))
    ]
  ]

  -- A course that is listed, or that there is room for, has the flag after the message.
  pub known-touch_self :
      (test : Course → ℕ) (name : Str) (cs : List Course)
      → ((c : Course) → test (flag c) ≡ 1)
      → is_empty name ≡ false
      → has_room name cs ≡ true
      → known test name (touch flag name cs) ≡ true
  unfolding known touch has_room
  known-touch_self test name [] sets some room = ground arith
  known-touch_self test name (c ∷ cs) sets some room = ground (
    arith,
    is.name (record c { name = name }),
    is.name c,
    sets c,
    sets (record c { name = name }),
    str_eq_refl name,
    known-touch_self test name cs sets,
  )

  -- Nothing is known of another course that was not known before.
  pub known-touch_other :
      (test : Course → ℕ) (name other : Str) (cs : List Course)
      → str_eq name other ≡ false
      → is_empty name ≡ false
      → is_table cs ≡ true
      → known test other (touch flag name cs) ≡ known test other cs
  unfolding known touch is_table
  known-touch_other test name other [] ne some table = refl
  known-touch_other test name other (c ∷ cs) ne some table = ground (
    arith,
    is.name (record c { name = name }),
    is.name c,
    known-all_free test other cs,
    str_eq-left c.name name other,
    known-touch_other test name other cs,
  )

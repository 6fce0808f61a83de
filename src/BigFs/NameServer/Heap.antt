-- ===== src/BigFs/NameServer/Heap.antt =====
-- `struct node` of Assignment2P1/fileNameServer.c, and the memory that holds the nodes.
use network_programming_assi.Base.{
  Bool, true, false, ℕ, Str, ℤ, Option, none, some, Outcome, ok, fault, ◌>>=◌, ◌==◌, if◌then◌else◌,
}

abbrev pub Ptr : Type 0
Ptr = ℕ

abbrev pub null : Ptr
null = 0

-- The strings that the field `type` holds.
pub data NodeType : Type 0 where
  directory file : NodeType

abbrev pub is_file : NodeType → Bool
is_file directory = false
is_file file = true

-- `none` is a field that was not written since `malloc`. The fields with no `Option` are written
-- before anything reads them.
pub record Node : Type 0 where
  pub name : Str
  pub next : Ptr
  pub child : Ptr
  pub parent : Option Ptr
  pub type : NodeType
  pub no_of_chunks : Option ℤ
  pub loc_name : Option Str

abbrev pub Heap : Type 0
Heap = Ptr → Option Node

unfoldable pub write : Heap → Ptr → Node → Heap
write h p n q = if q == p then some n else h q

-- A value that is read must have been written.
abbrev pub determinate {ℓ} : {A : Type ℓ} → Option A → Outcome A
determinate none = fault
determinate (some a) = ok a

-- `*p`
unfoldable pub load : Heap → Ptr → Outcome Node
load h p = if p == null then fault else determinate (h p)

-- `p->next = q`
unfoldable pub set_next : Heap → Ptr → Ptr → Outcome Heap
set_next h p q = do n ← load h p; ok (write h p (record n { next = q }))

-- `p->child = q`
unfoldable pub set_child : Heap → Ptr → Ptr → Outcome Heap
set_child h p q = do n ← load h p; ok (write h p (record n { child = q }))

-- `p->parent = q`
unfoldable pub set_parent : Heap → Ptr → Ptr → Outcome Heap
set_parent h p q = do n ← load h p; ok (write h p (record n { parent = some q }))

-- strcpy(p->loc_name, location)
unfoldable pub set_loc_name : Heap → Ptr → Str → Outcome Heap
set_loc_name h p location = do n ← load h p; ok (write h p (record n { loc_name = some location }))

-- strcpy(p->name, name)
unfoldable pub set_name : Heap → Ptr → Str → Outcome Heap
set_name h p name = do n ← load h p; ok (write h p (record n { name = name }))

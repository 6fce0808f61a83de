-- ===== src/Labs/Semaphores.antt =====
-- labs/2016A7PS0064P_lab6/code/sharedmemory: shmserver.c and its clients, shmclient.c, which share a
-- segment of memory and two semaphores.
use network_programming_assi.Base.{
  ℕ, zero, suc, ◌+◌, ◌<◌, ◌≤◌, ◌≡◌, refl, ap, sym, ◌∙◌, List, [], ◌∷◌, ◌++◌, Str, codes, before,
  replicate, arith,
}
pub mod Order
pub mod Progress

-- The server waits at its first semop; may read; has printed a text; has signalled with its last
-- semop; has removed the semaphores. The segment stays until the clients that share it end.
pub data Server : Type 0 where
  waits : Server
  reads : Server
  told : Str → Server
  freed : Str → Server
  removed : Str → Server

-- A client is before its first semop; may write; has written; has signalled.
pub data Client : Type 0 where
  starts : Client
  writes : Client
  wrote : Client
  ended : Client

-- The two semaphores, the segment, the server and the clients.
pub data State : Type 0 where
  state : ℕ → ℕ → Str → Server → List Client → State

-- The semaphores are there.
abbrev pub Present : Server → Type 0
Present waits = Unit
Present reads = Unit
Present (told t) = Unit
Present (freed t) = Unit
Present (removed t) = ⊥

-- One process goes on; a semop does all its operations or none. The clients' first one waits for the
-- first semaphore to be 0, the server's first one for the second to be positive. The server does not
-- look whether its last semop has failed. When the semaphores are removed, a client's semop fails, also
-- one that waits, and the client does not look at this either and goes on.
pub data Step : State → State → Type 0 where
  server_enter :
      {a b : ℕ} {m : Str} {cs : List Client}
      → Step (state a (suc b) m waits cs) (state (suc a) b m reads cs)
  server_print :
      {a b : ℕ} {m : Str} {cs : List Client}
      → Step (state a b m reads cs) (state a b m (told (before 0 m)) cs)
  server_leave :
      {a b : ℕ} {m t : Str} {cs : List Client}
      → Step (state (suc a) b m (told t) cs) (state a b m (freed t) cs)
  server_fail :
      {b : ℕ} {m t : Str} {cs : List Client}
      → Step (state 0 b m (told t) cs) (state 0 b m (freed t) cs)
  server_remove :
      {a b : ℕ} {m t : Str} {cs : List Client}
      → Step (state a b m (freed t) cs) (state a b m (removed t) cs)
  client_enter :
      {b : ℕ} {m : Str} {sv : Server} (xs ys : List Client)
      → Present sv
      → Step (state 0 b m sv (xs ++ starts ∷ ys)) (state 1 b m sv (xs ++ writes ∷ ys))
  client_write :
      {a b : ℕ} {m : Str} {sv : Server} (xs ys : List Client)
      → Step (state a b m sv (xs ++ writes ∷ ys)) (state a b (codes "hello") sv (xs ++ wrote ∷ ys))
  client_enter_late :
      {a b : ℕ} {m t : Str} (xs ys : List Client)
      → Step
          (state a b m (removed t) (xs ++ starts ∷ ys))
          (state a b m (removed t) (xs ++ writes ∷ ys))
  client_leave_late :
      {a b : ℕ} {m t : Str} (xs ys : List Client)
      → Step
          (state a b m (removed t) (xs ++ wrote ∷ ys))
          (state a b m (removed t) (xs ++ ended ∷ ys))
  client_leave :
      {a b : ℕ} {m : Str} {sv : Server} (xs ys : List Client)
      → Present sv
      → Step (state (suc a) b m sv (xs ++ wrote ∷ ys)) (state a (suc b) m sv (xs ++ ended ∷ ys))

-- The server after its set-up, with `k` clients that have found the
-- semaphores and the segment; the segment is full of zeros.
unfoldable pub start : ℕ → State
start k = state 0 0 [] waits (replicate k starts)

pub data Reach (k : ℕ) : State → Type 0 where
  begin : Reach k (start k)
  then : {s s' : State} → Reach k s → Step s s' → Reach k s'

-- If a client is between its semops, and if it has written.
abbrev pub busy : Client → ℕ
busy starts = 0
busy writes = 1
busy wrote = 1
busy ended = 0

abbrev pub written : Client → ℕ
written starts = 0
written writes = 0
written wrote = 1
written ended = 1

unfoldable pub total : (Client → ℕ) → List Client → ℕ
total f [] = 0
total f (c ∷ cs) = f c + total f cs

-- If the server is between its semops.
abbrev pub held : Server → ℕ
held waits = 0
held reads = 1
held (told t) = 1
held (freed t) = 0
held (removed t) = 0

abbrev pub Waits : Server → Type 0
Waits waits = Unit
Waits reads = ⊥
Waits (told t) = ⊥
Waits (freed t) = ⊥
Waits (removed t) = ⊥

-- What the server has printed is what a client writes.
abbrev pub Tells : Server → Type 0
Tells waits = Unit
Tells reads = Unit
Tells (told t) = t ≡ codes "hello"
Tells (freed t) = t ≡ codes "hello"
Tells (removed t) = t ≡ codes "hello"

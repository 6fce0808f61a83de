-- ===== src/BigFs/NameServer/Server.antt =====
-- The state of the name server once the client is connected: Assignment2P1/fileNameServer.c,
-- lines 34 to 40. `input` holds the strings that the client sends and the server has not read;
-- `BigFs.Receiver` shows how `copyToString` cuts them from the bytes. `output` is what was written
-- to the client.
use network_programming_assi.Base.{
  ℕ, ◌+◌, Str, none, some, List, [], ◌∷◌, ◌++◌, Outcome, ok, blocked, ◌>>=◌, ◌>>◌, require, length,
  ltb, fits, codes,
}
use network_programming_assi.Base.Decimal.{show}
use network_programming_assi.BigFs.NameServer.Heap.{
  Ptr, Heap, Node, directory, null, write, determinate, load,
}

abbrev pub max_size : ℕ
max_size = 1024

-- `fresh` is the address that `malloc` returns next.
pub record Server : Type 0 where
  pub heap : Heap
  pub fresh : ℕ
  pub cur : Ptr
  pub input : List Str
  pub output : Str

-- copyToString(buf) with `char buf[cap]`
unfoldable pub receive : ℕ → Server → Outcome (Str × Server)
receive cap s = elim s.input [
  | [] ↦ blocked
  | w ∷ ws ↦ do require (ltb (length w) cap); ok (w, record s { input = ws })
]

-- write(connfd, bytes, length)
abbrev pub send : Str → Server → Server
send bytes s = record s { output = s.output ++ bytes }

-- The NUL that ends a string is sent with it.
abbrev pub send_string : Str → Server → Server
send_string w = send (w ++ 0 ∷ [])

abbrev pub malloc : Node → Server → Server
malloc n s = record s { heap = write s.heap s.fresh n; fresh = s.fresh + 1 }

-- write(connfd, temp->loc_name, ...) and the number of chunks through `char chunks[10]`.
unfoldable pub send_location : Ptr → Server → Outcome Server
send_location temp s = do
  n ← load s.heap temp
  location ← determinate n.loc_name
  chunks ← determinate n.no_of_chunks
  fits 10 (show chunks)
  ok (send_string (show chunks) (send_string location s))

abbrev pub home : Node
home = record {
  name = codes "home";
  next = null;
  child = null;
  parent = some null;
  type = directory;
  no_of_chunks = none;
  loc_name = none;
}

-- The state when the command loop starts.
abbrev pub start : List Str → Server
start input = record {
  heap = write (λ _. none) 1 home;
  fresh = 2;
  cur = 1;
  input = input;
  output = [];
}

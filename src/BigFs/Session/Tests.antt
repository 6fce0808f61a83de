-- ===== src/BigFs/Session/Tests.antt =====
-- A chunk of Assignment2P1 that goes to a data server and back, and a directory that is made and
-- listed.
use network_programming_assi.Base.{
  ℕ, suc, zero, ◌<◌, ◌≡◌, refl, Str, codes, List, [], ◌∷◌, ◌++◌, ok, ◌>>=◌, length, flatten, arith,
}
use network_programming_assi.Base.Decimal.{show_nat}
use network_programming_assi.BigFs.Receiver.Programs.{max_size}
use network_programming_assi.BigFs.Client.Strings.{strings, gather}
use network_programming_assi.BigFs.Client.State.{Client, data_receive}
use network_programming_assi.BigFs.Client.Chunks.{upload, ask, report, base_name}
use network_programming_assi.BigFs.DataServer.Server.{DataServer, command}
use network_programming_assi.BigFs.DataServer.Tables.{
  Table, tables, disk, tables-Writable, numbered_short, free_first,
}
use network_programming_assi.BigFs.Session.Requests.{
  to_server, upload_writes, upload_rest, ask_writes, IsText-has,
}
use network_programming_assi.BigFs.Session.Chunk.{chunk_roundtrip}
use network_programming_assi.BigFs.Session.Listing.{listing_roundtrip}
use network_programming_assi.BigFs.NameServer.Heap.{write}
use network_programming_assi.BigFs.NameServer.Server.{Server, start, home}
use network_programming_assi.BigFs.NameServer.Ready.{IsReady}
use network_programming_assi.BigFs.NameServer.Siblings.{listing}
use network_programming_assi.BigFs.NameServer.Commands.{new_directory}
use network_programming_assi.BigFs.NameServer.Transfer.{handle}
use network_programming_assi.BigFs.Client.State.{name_server}
use network_programming_assi.BigFs.Client.Commands.{Local, run_line}
use network_programming_assi.Base.{none, true, has-Without}

abbrev client : Client
client = record {
  command = [];
  servers = 2;
  from_name = [];
  from_data = (codes "data/f(0)" ∷ []) ∷ [] ∷ [];
  sent = [];
  printed = [];
  saved = [];
}

one_digit : (n : ℕ) → n < 2 → length (show_nat n) < 10
unfolding show_nat
one_digit zero lt = omega arith
one_digit (suc zero) lt = omega arith
one_digit (suc (suc n)) lt = absurd (omega arith)

-- The name `data/f` is taken on the data server, which stores the chunk under `data/f(0)`.
chunk_roundtrip_example :
    (ws : List Str) × (loc : Str) × (stored : DataServer Table) × (back : Str) × (upload 1 0 0 0
        (codes "f")
        (codes "text")
        client
      ≡ (data_receive max_size 0
            (record client { sent = [] ++ to_server 0 (upload_writes ws (codes "f") 0 0) })
          >>= upload_rest 0 0 0 0 (codes "f") (codes "text")))
    × (command tables 1 (record {
      input = strings (flatten (upload_writes ws (codes "f") 0 0));
      disk = disk;
      sent = [];
    })
        ≡ ok stored)
    × (stored.sent ≡ [] ++ (loc ++ 0 ∷ []))
    × (report 0 loc (codes "f") client
        ≡ (base_name loc, record client { sent = [] ++ (name_server, loc ++ 0 ∷ []) ∷ [] }))
    × (ask 1 0 0 loc client ≡ ok (record client { sent = [] ++ to_server 0 (ask_writes loc 0) }))
    × (command tables 1 (record stored { input = strings (flatten (ask_writes loc 0)) })
        ≡ ok (record stored { input = []; sent = stored.sent ++ back }))
    × (gather (strings back) ≡ ok (codes "text", []))
chunk_roundtrip_example =
    chunk_roundtrip tables 1 disk [] 0 0 0 (codes "f") (codes "text") client 0 (omega arith)
      (one_digit 0 (omega arith)) (IsText-has (codes "text") refl) (omega arith)
      (IsText-has (codes "f") refl) (omega arith) numbered_short free_first (omega arith)
      tables-Writable

abbrev disk_of_client : Local
disk_of_client = record { contents = λ f. none; creatable = λ f. true; flushed = λ t. 0 }

start-IsReady : IsReady (start []) home []
unfolding write
start-IsReady = record {
  some_node = omega arith;
  below = λ a le. ground arith;
  is_dir = record { present = refl; holds = refl; apart = refl; chain = tt };
}

abbrev asked_mkdir : Client
asked_mkdir = record client {
  command = [];
  sent = (name_server, codes "mkdir" ++ 0 ∷ []) ∷ (name_server, codes "d" ++ 0 ∷ []) ∷ [];
}

listing_roundtrip_example :
    (s1 s2 : Server) × (back : Str) × (run_line disk_of_client (codes "mkdir d") client
      ≡ ok asked_mkdir)
    × (handle (record (start []) { input = strings (codes "mkdir" ++ 0 ∷ (codes "d" ++ 0 ∷ [])) })
        ≡ ok s1)
    × (run_line disk_of_client (codes "ls") (record asked_mkdir { from_name = strings back })
        ≡ ok (record asked_mkdir {
          command = [];
          from_name = [];
          sent = asked_mkdir.sent ++ (name_server, codes "ls" ++ 0 ∷ []) ∷ [];
          printed = codes "d\n";
        }))
    × (handle (record s1 { input = strings (codes "ls" ++ 0 ∷ []) }) ≡ ok s2)
    × (s2.output ≡ [] ++ back)
    × IsReady s2 home ((2, new_directory (codes "d") 1) ∷ [])
unfolding listing
listing_roundtrip_example =
    listing_roundtrip disk_of_client (codes "d") client (start []) home [] start-IsReady
      (has-Without 32 (codes "d") refl) (IsText-has (codes "d") refl) tt (omega arith) (omega arith)

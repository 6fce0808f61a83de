-- ===== src/Labs/Relay/Server.antt =====
-- The loop of labs/2016A7PS0064P_lab7/tcp_server_select_oddeven.c.
use network_programming_assi.Base.{
  ℕ, ◌+◌, ◌%◌, Str, before, Option, none, some, List, [], ◌∷◌, ◌++◌, map, Bool, true, false, not,
  ◌&&◌, Outcome, ok, fault, stopped, ◌>>=◌, ◌==◌, ltb, if◌then◌else◌, has, replicate,
}

-- What `read` returns for a client.
pub data Input : Type 0 where
  closed : Input
  failed : Input
  bytes : Str → Input

-- What a round of the loop meets: a connection on the master socket, if one came, as the result of
-- `accept`; the sockets that `select` finds readable; and what they give.
pub record Round : Type 0 where
  pub incoming : Option (Option ℕ)
  pub readable : ℕ → Bool
  pub read : ℕ → Input

-- `client_socket`, where 0 is an empty place, and what was sent.
pub record Relay : Type 0 where
  pub clients : List ℕ
  pub sent : List (ℕ × Str)

unfoldable pub start : Relay
start = record { clients = replicate 30 0; sent = [] }

-- The new socket takes the first empty place; if there is none it is forgotten.
unfoldable pub add_client : ℕ → List ℕ → List ℕ
add_client socket [] = []
add_client socket (sd ∷ rest) =
    let more = add_client socket rest in if sd == 0 then socket ∷ rest else sd ∷ more

-- The sockets that a message from `sd` is sent to.
unfoldable pub recipients : ℕ → List ℕ → List ℕ
recipients sd [] = []
recipients sd (k ∷ rest) =
    let more = recipients sd rest in if not (k == 0) && (k + sd) % 2 == 1 then k ∷ more else more

-- `send` takes the bytes before the first NUL.
abbrev pub relay : ℕ → Str → List ℕ → Relay → Relay
relay sd s clients r = record r {
  sent = r.sent ++ map (λ k. (k, before 0 s)) (recipients sd clients);
}

-- The loop over the clients; those in front were served. A failed read writes before the buffer.
unfoldable pub serve_clients : (ℕ → Bool) → (ℕ → Input) → List ℕ → List ℕ → Relay → Outcome Relay
serve_clients is_set read front [] r = ok (record r { clients = front })
serve_clients is_set read front (sd ∷ rest) r = elim (is_set sd) [
  | false ↦ serve_clients is_set read (front ++ sd ∷ []) rest r
  | true ↦ elim (read sd) [
    | closed ↦ serve_clients is_set read (front ++ 0 ∷ []) rest r
    | failed ↦ fault
    | bytes s ↦
        serve_clients is_set read (front ++ sd ∷ []) rest (relay sd s (front ++ sd ∷ rest) r)
  ]
]

-- A client's socket was given to `select` if it stood in the table before the round.
abbrev pub watched : List ℕ → ℕ → Bool
watched clients sd = ltb 0 sd && has sd clients

abbrev pub accepted : Option (Option ℕ) → List ℕ → Outcome (List ℕ)
accepted none clients = ok clients
accepted (some none) clients = stopped
accepted (some (some socket)) clients = ok (add_client socket clients)

unfoldable pub round : Round → Relay → Outcome Relay
round e r = do
  clients ← accepted e.incoming r.clients
  serve_clients (λ sd. watched r.clients sd && e.readable sd) e.read [] clients r

-- ===== src/Labs/Relay/Tests.antt =====
-- A round of labs/2016A7PS0064P_lab7/tcp_server_select_oddeven.c, and the theorems at it.
use network_programming_assi.Base.{
  ◌≡◌, refl, codes, before, none, some, [], ◌∷◌, true, ok, ◌==◌, inr,
}
use network_programming_assi.Labs.Relay.Server.{
  bytes, Round, Relay, recipients, serve_clients, round,
}
use network_programming_assi.Labs.Relay.Sends.{once, Relayed, round-Relayed}
use network_programming_assi.Labs.Relay.Clients.{IsTable, round-IsTable}

-- Four clients are connected, and the client 5 sends a greeting.
abbrev four : Relay
four = record { clients = 4 ∷ 5 ∷ 0 ∷ 6 ∷ 7 ∷ []; sent = [] }

abbrev greeting : Round
greeting = record { incoming = none; readable = λ a. a == 5; read = λ a. bytes (codes "hi") }

greeting_run :
    round greeting four ≡ ok (record four { sent = (4, codes "hi") ∷ (6, codes "hi") ∷ [] })
unfolding round serve_clients recipients before
greeting_run = refl

four-once : once four.clients ≡ true
unfolding once
four-once = refl

round-Relayed_example :
    (r' : Relay) × (round greeting four ≡ ok r') × Relayed 5 (codes "hi") four r'
round-Relayed_example =
    round-Relayed greeting 5 (codes "hi") four refl refl refl (λ a ne there. ne) refl four-once refl

-- The same round with a new client.
abbrev arrival : Round
arrival = record greeting { incoming = some (some 8) }

round-IsTable_example : (r' : Relay) × (round arrival four ≡ ok r') × IsTable 5 r'.clients
round-IsTable_example =
    round-IsTable arrival four 5 (inr (8, refl, refl)) (λ a set. λ e. cc)
      (record { size = refl; single = four-once })

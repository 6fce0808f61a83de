-- ===== src/BigFs/Client/Tests.antt =====
-- Assignment2P1/Client.c at small inputs.
use network_programming_assi.Base.{
  ℕ, zero, suc, ◌<◌, ◌≡◌, refl, Str, codes, List, [], ◌∷◌, ◌++◌, ok, length, arith,
}
use network_programming_assi.Base.Decimal.{show_nat}
use network_programming_assi.BigFs.NameServer.Commands.{send_addresses}
use network_programming_assi.BigFs.Client.Strings.{strings}
use network_programming_assi.BigFs.Client.State.{Client, name_server, receive}
use network_programming_assi.BigFs.Client.Chunks.{ask}
use network_programming_assi.BigFs.Client.Commands.{addresses, list_directory}
use network_programming_assi.BigFs.Client.Spread.{requests, ask-sent}
use network_programming_assi.BigFs.Client.Addresses.{IsAddress, addresses-send_addresses}

abbrev client : Client
client = record {
  command = [];
  servers = 2;
  from_name = codes "f\n" ∷ [];
  from_data = [] ∷ [] ∷ [];
  sent = [];
  printed = [];
  saved = [];
}

ls_run :
    list_directory client
    ≡ ok (record client {
      from_name = [];
      sent = (name_server, codes "ls" ++ 0 ∷ []) ∷ [];
      printed = codes "f\n";
    })
unfolding list_directory receive
ls_run = refl

number_short : (j : ℕ) → j < 3 → length (show_nat j) < 10
unfolding show_nat
number_short zero lt = omega arith
number_short (suc zero) lt = omega arith
number_short (suc (suc zero)) lt = omega arith
number_short (suc (suc (suc j))) lt = absurd (omega arith)

ask-sent_example :
    ask 3 0 0 (codes "data/f") client
    ≡ ok (record client { sent = [] ++ requests 2 3 0 (codes "data/f") })
ask-sent_example = ask-sent 3 0 (codes "data/f") client (omega arith) number_short

abbrev ips : List Str
ips = codes "10.0.0.1" ∷ codes "10.0.0.2" ∷ []

abbrev one_IsAddress : IsAddress (codes "10.0.0.1")
one_IsAddress = record {
  full = tt;
  text = (refl, (refl, (refl, (refl, (refl, (refl, (refl, (refl, tt))))))));
  no_spaces = (refl, (refl, (refl, (refl, (refl, (refl, (refl, (refl, tt))))))));
}

abbrev two_IsAddress : IsAddress (codes "10.0.0.2")
two_IsAddress = record {
  full = tt;
  text = (refl, (refl, (refl, (refl, (refl, (refl, (refl, (refl, tt))))))));
  no_spaces = (refl, (refl, (refl, (refl, (refl, (refl, (refl, (refl, tt))))))));
}

addresses-send_addresses_example :
    (w : Str) × (strings (send_addresses ips) ≡ w ∷ []) × (addresses w ≡ ok ips)
unfolding send_addresses
addresses-send_addresses_example =
    addresses-send_addresses ips (one_IsAddress, (two_IsAddress, tt)) (omega arith)

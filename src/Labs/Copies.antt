-- ===== src/Labs/Copies.antt =====
-- Runs of tee.c of lab 2, and of the echo service and the shared memory of lab 6.
use network_programming_assi.Base.{
  fault, before, ◌≤◌, ◌≡◌, ◌⊎◌, refl, none, some, [], ◌∷◌, ◌++◌, map, ok, Str, codes, has-Without,
  replicate, arith,
}
use network_programming_assi.Labs.Echo.{handle_client, echo_client, echo_roundtrip}
use network_programming_assi.Labs.Tee.{tee}
use network_programming_assi.Labs.Tee.Lines.{IsLine, tee_last_line}
use network_programming_assi.Labs.Semaphores.{
  reads, removed, starts, writes, ended, State, state, Step, server_enter, client_enter,
  client_write, client_leave, client_enter_late, server_print, server_leave, server_remove, start,
  Reach, begin, then, busy, total, Tells,
}
use network_programming_assi.Labs.Semaphores.Order.{Reach-Tells}
use network_programming_assi.Labs.Semaphores.Progress.{Reach-Goes}

abbrev word : Str
word = codes "hello"

echo_roundtrip_example :
    (handle_client (map some (codes "hel" ∷ codes "lo" ∷ []) ++ some [] ∷ []) ≡ ok word)
    × (echo_client
          (codes "127.0.0.1" ∷ word ∷ [])
          (map some (codes "h" ∷ codes "ello" ∷ []) ++ none ∷ [])
        ≡ ok (record { address = codes "127.0.0.1"; port = 7; sent = word; printed = word }))
echo_roundtrip_example =
    echo_roundtrip (codes "127.0.0.1") word (codes "hel" ∷ codes "lo" ∷ [])
      (codes "h" ∷ codes "ello" ∷ []) [] (none ∷ []) (has-Without 0 word refl)
      (omega arith, (omega arith, tt)) refl
      ((omega arith, omega arith), ((omega arith, omega arith), tt)) refl

a-IsLine : IsLine (codes "a")
a-IsLine = (has-Without 10 (codes "a") refl, has-Without 0 (codes "a") refl, omega arith)

tee_last_line_example :
    (tee 1 (codes "a\na") ≡ ok (replicate 2 (codes "a\na"))) × (tee 1 (codes "a\n") ≡ fault)
tee_last_line_example =
    tee_last_line 1 (codes "a" ∷ []) (codes "a") (a-IsLine, tt) a-IsLine (omega arith)

-- The second client is still before its semop, and the server may read.
two_clients : Reach 2 (state 1 0 (codes "hello") reads (ended ∷ starts ∷ []))
unfolding start
two_clients =
    then
      (then (then (then begin (client_enter [] (starts ∷ []) tt)) (client_write [] (starts ∷ [])))
        (client_leave [] (starts ∷ []) tt))
      server_enter

-- The server does not wait for the first semaphore: the second client is before its strcpy when the
-- server reads.
both_inside : Reach 2 (state 2 0 (codes "hello") reads (ended ∷ writes ∷ []))
unfolding start
both_inside =
    then
      (then
        (then (then (then begin (client_enter [] (starts ∷ []) tt)) (client_write [] (starts ∷ [])))
          (client_leave [] (starts ∷ []) tt))
        (client_enter (ended ∷ []) [] tt))
      server_enter

-- When the server has removed the semaphores, two clients are before their strcpy.
two_inside :
    Reach 3 (state 0 0 (codes "hello") (removed (codes "hello")) (ended ∷ writes ∷ writes ∷ []))
unfolding start before
two_inside =
    then
      (then
        (then
          (then
            (then
              (then
                (then
                  (then (then begin (client_enter [] (starts ∷ starts ∷ []) tt))
                    (client_write [] (starts ∷ starts ∷ [])))
                  (client_leave [] (starts ∷ starts ∷ []) tt))
                server_enter)
              server_print)
            server_leave)
          server_remove)
        (client_enter_late (ended ∷ []) (starts ∷ [])))
      (client_enter_late (ended ∷ writes ∷ []) [])

Reach-Tells_example :
    ((total busy (ended ∷ writes ∷ []) ≤ 1) ⊎ ((t : Str) × (reads ≡ removed t))) × Tells reads
Reach-Tells_example = Reach-Tells 2 2 0 (codes "hello") reads (ended ∷ writes ∷ []) both_inside

Reach-Goes_example :
    (reads ≡ removed (codes "hello"))
    ⊎ ((s' : State) × Step (state 1 0 (codes "hello") reads (ended ∷ starts ∷ [])) s')
Reach-Goes_example = Reach-Goes 1 1 0 (codes "hello") reads (ended ∷ starts ∷ []) two_clients

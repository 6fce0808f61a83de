-- ===== src/Labs/Relay/Sends.antt =====
-- Who gets a message of labs/2016A7PS0064P_lab7/tcp_server_select_oddeven.c.
use network_programming_assi.Base.{
  ℕ, zero, suc, ◌≢◌, ◌<◌, ◌+◌, ◌%◌, ◌≡◌, refl, ap, sym, ◌∙◌, Str, before, none, List, [], ◌∷◌, ◌++◌,
  append_assoc, append-nil, map, Bool, true, false, not, ◌&&◌, ◌||◌, ok, ◌==◌, has, arith,
  Bool-cases, inl, inr,
}
use network_programming_assi.Labs.Relay.Server.{
  Input, closed, bytes, Round, Relay, recipients, relay, serve_clients, watched, round,
}

-- No empty place holds a socket twice.
unfoldable pub once : List ℕ → Bool
once [] = true
once (x ∷ xs) = (x == 0 || not (has x xs)) && once xs

-- Only `sd` is readable and stands in the table.
abbrev only : ℕ → ℕ → Bool
only sd a = a == sd

module _ (is_set : ℕ → Bool) (read : ℕ → Input) (front : List ℕ) (sd : ℕ) (rest : List ℕ)
    (r : Relay) where
  pub serve-unset :
      is_set sd ≡ false
      → serve_clients is_set read front (sd ∷ rest) r
        ≡ serve_clients is_set read (front ++ sd ∷ []) rest r
  unfolding serve_clients
  serve-unset e = rw (serve_clients, e) refl

  pub serve-bytes :
      (s : Str)
      → is_set sd ≡ true
      → read sd ≡ bytes s
      → serve_clients is_set read front (sd ∷ rest) r
        ≡ serve_clients is_set read (front ++ sd ∷ []) rest (relay sd s (front ++ sd ∷ rest) r)
  unfolding serve_clients
  serve-bytes s e got = rw (serve_clients, e, got) refl

  pub serve-closed :
      is_set sd ≡ true
      → read sd ≡ closed
      → serve_clients is_set read front (sd ∷ rest) r
        ≡ serve_clients is_set read (front ++ 0 ∷ []) rest r
  unfolding serve_clients
  serve-closed e got = rw (serve_clients, e, got) refl

serve-skips :
    (is_set : ℕ → Bool) (read : ℕ → Input) (sd : ℕ) (front rest : List ℕ) (r : Relay)
    → ((a : ℕ) → (a == sd) ≡ false → is_set a ≡ false)
    → has sd rest ≡ false
    → serve_clients is_set read front rest r ≡ ok (record r { clients = front ++ rest })
serve-skips is_set read sd front [] r quiet out =
    unfold serve_clients in ap (λ l. ok (record r { clients = l })) (sym (append-nil front))
serve-skips is_set read sd front (x ∷ rest) r quiet out =
    rw (serve-unset is_set read front x rest r (quiet x (ground arith))) (
      serve-skips is_set read sd (front ++ x ∷ []) rest r quiet (ground arith)
      ∙ ap (λ l. ok (record r { clients = l })) (append_assoc front (x ∷ []) rest))

serve-hit :
    (is_set : ℕ → Bool) (read : ℕ → Input) (sd : ℕ) (s : Str) (front : List ℕ) (x : ℕ)
    (rest : List ℕ) (r : Relay)
    → ((a : ℕ) → (a == sd) ≡ false → is_set a ≡ false)
    → is_set sd ≡ true
    → read sd ≡ bytes s
    → once (x ∷ rest) ≡ true
    → (sd == 0) ≡ false
    → (x == sd) ≡ true
    → serve_clients is_set read front (x ∷ rest) r
      ≡ ok (record (relay sd s (front ++ x ∷ rest) r) { clients = front ++ x ∷ rest })
unfolding once
serve-hit is_set read sd s front x rest r quiet set e single some same =
    let at : sd ≡ x = ground arith in
    let set_x : is_set x ≡ true = rw (← at) set in
    let read_x : read x ≡ bytes s = rw (← at) e in
    let out : has sd rest ≡ false = ground arith in
    rw (serve-bytes is_set read front x rest r s set_x read_x) (
      serve-skips is_set read sd (front ++ x ∷ []) rest (relay x s (front ++ x ∷ rest) r) quiet out
      ∙ ap (λ l. ok (record (relay x s (front ++ x ∷ rest) r) { clients = l }))
          (append_assoc front (x ∷ []) rest)
      ∙ ap (λ a. ok (record (relay a s (front ++ x ∷ rest) r) { clients = front ++ x ∷ rest }))
          (sym at))

serve-one :
    (is_set : ℕ → Bool) (read : ℕ → Input) (sd : ℕ) (s : Str) (front rest : List ℕ) (r : Relay)
    → ((a : ℕ) → (a == sd) ≡ false → is_set a ≡ false)
    → is_set sd ≡ true
    → read sd ≡ bytes s
    → has sd rest ≡ true
    → once rest ≡ true
    → (sd == 0) ≡ false
    → serve_clients is_set read front rest r
      ≡ ok (record (relay sd s (front ++ rest) r) { clients = front ++ rest })
unfolding once
serve-one is_set read sd s front [] r quiet set e there single some = ground arith
serve-one is_set read sd s front (x ∷ rest) r quiet set e there single some =
    elim (Bool-cases (x == sd)) [
      | inl same ↦ serve-hit is_set read sd s front x rest r quiet set e single some same
      | inr other ↦ rw (serve-unset is_set read front x rest r (quiet x other)) (
          serve-one is_set read sd s (front ++ x ∷ []) rest r quiet set e (ground arith)
            (ground arith) some
          ∙ ap (λ l. ok (record (relay sd s l r) { clients = l }))
              (append_assoc front (x ∷ []) rest))
    ]

-- `ks` are the entries of the table `clients`, in its order, that hold a socket of the other parity
-- than `sd`: each place is taken once or passed over.
pub data Picks (sd : ℕ) : List ℕ → List ℕ → Type 0 where
  nobody : Picks sd [] []
  picked :
      {k : ℕ} {clients ks : List ℕ}
      → 0 < k
      → k % 2 ≢ sd % 2
      → Picks sd clients ks
      → Picks sd (k ∷ clients) (k ∷ ks)
  vacant : {clients ks : List ℕ} → Picks sd clients ks → Picks sd (0 ∷ clients) ks
  alike :
      {k : ℕ} {clients ks : List ℕ}
      → k % 2 ≡ sd % 2
      → Picks sd clients ks
      → Picks sd (k ∷ clients) ks

some_place : (k : ℕ) → (suc k == 0) ≡ false
some_place k = ground arith

recipients-Picks : (sd : ℕ) (clients : List ℕ) → Picks sd clients (recipients sd clients)
unfolding recipients
recipients-Picks sd [] = nobody
recipients-Picks sd (zero ∷ rest) = vacant (recipients-Picks sd rest)
recipients-Picks sd (suc k ∷ rest) =
    let below = recipients-Picks sd rest in
    elim (Bool-cases ((suc k + sd) % 2 == 1)) [
      | inl e ↦
          rw (some_place k, e)
            (picked (omega arith) (λ same. absurd (ground (arith, e, same))) below)
      | inr e ↦ rw (some_place k, e) (alike (ground (arith, e)) below)
    ]

-- What a round does in which no connection comes and only the client `sd` has sent something.
pub record Relayed (sd : ℕ) (s : Str) (r : Relay) (r' : Relay) : Type 0 where
  pub clients : r'.clients ≡ r.clients
  pub to : List ℕ
  pub picks : Picks sd r.clients to
  pub sent : r'.sent ≡ r.sent ++ map (λ k. (k, before 0 s)) to

-- In a round in which no connection comes and exactly one client of the table, which stands there
-- once, has sent bytes, the server sends the bytes before the first NUL once to each entry of the
-- table whose parity is not the sender's, in the order of the table, and to nobody else. The table stays as it is.
pub round-Relayed :
    (e : Round) (sd : ℕ) (s : Str) (r : Relay)
    → e.incoming ≡ none
    → e.readable sd ≡ true
    → e.read sd ≡ bytes s
    → ((a : ℕ) → (a == sd) ≡ false → has a r.clients ≡ true → e.readable a ≡ false)
    → has sd r.clients ≡ true
    → once r.clients ≡ true
    → (sd == 0) ≡ false
    → (r' : Relay) × (round e r ≡ ok r') × Relayed sd s r r'
unfolding round
round-Relayed e sd s r none_in ready got quiet there single some =
    let is_set : ℕ → Bool = λ a. watched r.clients a && e.readable a in
    (
      relay sd s r.clients r,
      rw none_in (
          serve-one is_set e.read sd s [] r.clients r (λ a ne. ground (arith, quiet a))
            (ground arith) got there single some),
      record {
        clients = refl;
        to = recipients sd r.clients;
        picks = recipients-Picks sd r.clients;
        sent = refl;
      },
    )

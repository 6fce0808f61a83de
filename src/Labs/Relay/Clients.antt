-- ===== src/Labs/Relay/Clients.antt =====
-- The table of clients of labs/2016A7PS0064P_lab7/tcp_server_select_oddeven.c.
use network_programming_assi.Base.{
  ℕ, ◌≡◌, ◌≢◌, refl, ◌∙◌, ◌⊎◌, none, some, List, [], ◌∷◌, ◌++◌, append_assoc, append-nil, Bool,
  true, false, ◌&&◌, ok, ◌==◌, has, length, length-append, arith, Bool-cases, inl, inr,
}
use network_programming_assi.Labs.Relay.Server.{
  Input, closed, failed, bytes, Round, Relay, start, add_client, relay, serve_clients, watched,
  round,
}
use network_programming_assi.Labs.Relay.Sends.{once, serve-unset, serve-bytes, serve-closed}

has-blank :
    (x sd : ℕ) (front rest : List ℕ)
    → (x == 0) ≡ false
    → has x (front ++ sd ∷ rest) ≡ false
    → has x (front ++ 0 ∷ rest) ≡ false
has-blank x sd [] rest full out = ground arith
has-blank x sd (y ∷ front) rest full out = ground (arith, has-blank x sd front rest)

once-blank :
    (sd : ℕ) (front rest : List ℕ)
    → once (front ++ sd ∷ rest) ≡ true
    → once (front ++ 0 ∷ rest) ≡ true
unfolding once
once-blank sd [] rest single = ground arith
once-blank sd (y ∷ front) rest single =
    ground (arith, has-blank y sd front rest, once-blank sd front rest)

has-add_client :
    (x fd : ℕ) (clients : List ℕ)
    → (x == fd) ≡ false
    → has x clients ≡ false
    → has x (add_client fd clients) ≡ false
unfolding add_client
has-add_client x fd [] ne out = refl
has-add_client x fd (y ∷ rest) ne out = ground (arith, has-add_client x fd rest)

once-add_client :
    (fd : ℕ) (clients : List ℕ)
    → has fd clients ≡ false
    → once clients ≡ true
    → once (add_client fd clients) ≡ true
unfolding once add_client
once-add_client fd [] out single = refl
once-add_client fd (y ∷ rest) out single =
    ground (arith, has-add_client y fd rest, once-add_client fd rest)

length-add_client : (fd : ℕ) (clients : List ℕ) → length (add_client fd clients) ≡ length clients
unfolding add_client
length-add_client fd [] = refl
length-add_client fd (y ∷ rest) = ground (arith, length-add_client fd rest)

-- The table has its size, and no socket stands in it twice.
pub record IsTable (n : ℕ) (clients : List ℕ) : Type 0 where
  pub size : length clients ≡ n
  pub single : once clients ≡ true

IsTable-blank :
    {n : ℕ} (sd : ℕ) (front rest : List ℕ)
    → IsTable n (front ++ sd ∷ rest)
    → IsTable n ((front ++ 0 ∷ []) ++ rest)
IsTable-blank sd front rest t = rw (append_assoc front (0 ∷ []) rest) (record {
  size = omega (arith, length-append front (sd ∷ rest), length-append front (0 ∷ rest), t.size);
  single = once-blank sd front rest t.single;
})

IsTable-next :
    {n : ℕ} (sd : ℕ) (front rest : List ℕ)
    → IsTable n (front ++ sd ∷ rest)
    → IsTable n ((front ++ sd ∷ []) ++ rest)
IsTable-next sd front rest t = rw (append_assoc front (sd ∷ []) rest) t

-- No read of a socket that `select` returned fails.
abbrev pub Reads : (ℕ → Bool) → (ℕ → Input) → Type 0
Reads is_set read = (a : ℕ) → is_set a ≡ true → read a ≢ failed

module _ (is_set : ℕ → Bool) (read : ℕ → Input) (reads : Reads is_set read) (n : ℕ) where
  abbrev Served : List ℕ → List ℕ → Relay → Type 0
  Served front rest r =
      (r' : Relay) × (serve_clients is_set read front rest r ≡ ok r') × IsTable n r'.clients

  served_set :
      (front : List ℕ) (sd : ℕ) (rest : List ℕ) (r : Relay)
      → IsTable n (front ++ sd ∷ rest)
      → is_set sd ≡ true
      → ((front' : List ℕ) (r' : Relay) → IsTable n (front' ++ rest) → Served front' rest r')
      → (input : Input) → read sd ≡ input
      → Served front (sd ∷ rest) r
  served_set front sd rest r t e later closed got =
      let (r', run, t') = later (front ++ 0 ∷ []) r (IsTable-blank sd front rest t) in
      (r', serve-closed is_set read front sd rest r e got ∙ run, t')
  served_set front sd rest r t e later failed got = absurd (reads sd e got)
  served_set front sd rest r t e later (bytes s) got =
      let (r', run, t') =
        later (front ++ sd ∷ []) (relay sd s (front ++ sd ∷ rest) r)
          (IsTable-next sd front rest t) in
      (r', serve-bytes is_set read front sd rest r s e got ∙ run, t')

  served : (front rest : List ℕ) (r : Relay) → IsTable n (front ++ rest) → Served front rest r
  served front [] r t =
      (record r { clients = front }, unfold serve_clients in refl, rw (append-nil front) at t)
  served front (sd ∷ rest) r t = elim (Bool-cases (is_set sd)) [
    | inl e ↦
        served_set front sd rest r t e (λ front' r' t'. served front' rest r' t') (read sd) refl
    | inr e ↦
        let (r', run, t') = served (front ++ sd ∷ []) rest r (IsTable-next sd front rest t) in
        (r', serve-unset is_set read front sd rest r e ∙ run, t')
  ]

-- A round in which `accept` gives a socket that is not in the table, or is not called, and no read
-- fails, ends normally; the table keeps its size and has no socket twice.
pub round-IsTable :
    (e : Round) (r : Relay) (n : ℕ)
    → (e.incoming ≡ none) ⊎ ((fd : ℕ) × (e.incoming ≡ some (some fd)) × (has fd r.clients ≡ false))
    → Reads (λ a. watched r.clients a && e.readable a) e.read
    → IsTable n r.clients
    → (r' : Relay) × (round e r ≡ ok r') × IsTable n r'.clients
unfolding round
round-IsTable e r n (inl quiet) reads t =
    let (r', run, t') =
      served (λ a. watched r.clients a && e.readable a) e.read reads n [] r.clients r t in
    (r', rw quiet run, t')
round-IsTable e r n (inr (fd, came, fresh)) reads t =
    let (r', run, t') =
      served (λ a. watched r.clients a && e.readable a) e.read reads n [] (add_client fd r.clients)
        r
        (record {
          size = length-add_client fd r.clients ∙ t.size;
          single = once-add_client fd r.clients fresh t.single;
        }) in
    (r', rw came run, t')

-- So it is when the server starts.
pub start-IsTable : IsTable 30 start.clients
unfolding start once
start-IsTable = record { size = refl; single = refl }

-- ===== src/Labs/Echo.antt =====
-- The echo service of labs/2016A7PS0064P_lab6/code/tcp: `HandleTCPClient` of HandleTcpClient.c, and
-- its client in client.c.
use network_programming_assi.Base.{
  ℕ, ◌+◌, ◌-◌, ◌%◌, ℤ, pos, negsuc, ◌<◌, ◌≡◌, refl, ap, sym, ◌∙◌, Option, none, some, List, [], ◌∷◌,
  ◌++◌, append_assoc, append-nil, map, Outcome, ok, fault, blocked, stopped, ◌>>=◌, ◌>>◌, fits, Str,
  before, Without, ltb, lt→ltb, if◌then◌else◌, length, length-append, flatten, All, arith,
}
use network_programming_assi.Base.Decimal.{atoi}

-- The results of `recv`: the bytes, none of them when the other side has closed the connection, or
-- none for -1. When the list is at its end nothing comes any more.
abbrev pub Received : Type 0
Received = List (Option Str)

-- HandleTCPClient: what is sent until the client closes the connection.
unfoldable pub handle_client : Received → Outcome Str
handle_client [] = blocked
handle_client (none ∷ rs) = stopped
handle_client (some [] ∷ rs) = ok []
handle_client (some (c ∷ s) ∷ rs) = handle_client rs >>= λ sent. ok ((c ∷ s) ++ sent)

-- The client's test of a `recv`, and what it does with the bytes.
unfoldable pub got : Option Str → (Str → Outcome Str) → Outcome Str
got none next = stopped
got (some []) next = stopped
got (some (c ∷ s)) next = fits 32 (c ∷ s) >> next (c ∷ s)

-- The client's loop, with the number of bytes received and what is printed.
unfoldable pub receive_echo : ℕ → ℕ → Str → Received → Outcome Str
receive_echo size total printed [] = if ltb total size then blocked else ok printed
receive_echo size total printed (r ∷ rs) =
    let next = got r (λ s. receive_echo size (total + length s) (printed ++ before 0 s) rs) in
    if ltb total size then next else ok printed

-- What the client does: the address and port it connects to, the bytes it sends, and what it prints
-- after "Received: ".
pub record Session : Type 0 where
  pub address : Str
  pub port : ℕ
  pub sent : Str
  pub printed : Str

-- The conversion of an int to an unsigned short.
unfoldable pub port_of : Option ℤ → Outcome ℕ
port_of none = fault
port_of (some (pos n)) = ok (n % 65536)
port_of (some (negsuc n)) = ok (65535 - n % 65536)

unfoldable pub talk : Str → Str → ℕ → Received → Outcome Session
talk address word port rs = receive_echo (length word) 0 [] rs >>= λ printed.
    ok (record { address = address; port = port; sent = word; printed = printed })

-- `main`, for the arguments after the program's name.
unfoldable pub echo_client : List Str → Received → Outcome Session
echo_client (address ∷ word ∷ []) rs = talk address word 7 rs
echo_client (address ∷ word ∷ number ∷ []) rs = do
  port ← port_of (atoi number)
  talk address word port rs
echo_client args rs = stopped

handle_client-flatten :
    (chunks : List Str) (rs : Received)
    → All (λ s. 0 < length s) chunks
    → handle_client (map some chunks ++ some [] ∷ rs) ≡ ok (flatten chunks)
unfolding handle_client
handle_client-flatten [] rs full = refl
handle_client-flatten ([] ∷ chunks) rs full = absurd (omega (arith, full.0))
handle_client-flatten ((c ∷ s) ∷ chunks) rs full = rw (handle_client-flatten chunks rs full.1) refl

-- What a `recv` of the client gives at once.
abbrev pub IsChunk : Str → Type 0
IsChunk s = (0 < length s) × (length s < 32)

Without-take : (sep : ℕ) (w s : Str) → Without sep (w ++ s) → (before sep w ≡ w) × Without sep s
unfolding before
Without-take sep [] s free = (refl, free)
Without-take sep (c ∷ w) s free =
    let (kept, rest) = Without-take sep w s free.1 in (rw (free.0, kept) refl, rest)

receive_echo-flatten :
    (size total : ℕ) (printed : Str) (chunks : List Str) (rs : Received)
    → size ≡ total + length (flatten chunks)
    → All IsChunk chunks
    → Without 0 (flatten chunks)
    → receive_echo size total printed (map some chunks ++ rs) ≡ ok (printed ++ flatten chunks)
unfolding receive_echo got
receive_echo-flatten size total printed [] [] e full free = ground (arith, append-nil printed)
receive_echo-flatten size total printed [] (r ∷ rs) e full free = ground (arith, append-nil printed)
receive_echo-flatten size total printed ([] ∷ chunks) rs e full free =
    absurd (omega (arith, full.0))
receive_echo-flatten size total printed ((c ∷ s) ∷ chunks) rs e full free =
    let (kept, rest) = Without-take 0 (c ∷ s) (flatten chunks) free in
    let parts = length-append (c ∷ s) (flatten chunks) in
    let more : total < size = omega (arith, parts) in
    rw
      (
        lt→ltb total size more,
        lt→ltb (length (c ∷ s)) 32 full.0.1,
        kept,
        receive_echo-flatten size (total + length (c ∷ s)) (printed ++ (c ∷ s)) chunks rs
            (omega (arith, parts)) full.1 rest,
      )
      (ap ok (append_assoc printed (c ∷ s) (flatten chunks)))

-- However the bytes of a word without a NUL come in pieces on the two ways, the server sends back
-- the word and ends when the client closes the connection; the client, which connects to the echo
-- port, prints the word, and does not wait for anything after it.
pub echo_roundtrip :
    (address word : Str) (there back : List Str) (rs rs' : Received)
    → Without 0 word
    → All (λ s. 0 < length s) there
    → flatten there ≡ word
    → All IsChunk back
    → flatten back ≡ word
    → (handle_client (map some there ++ some [] ∷ rs) ≡ ok word)
      × (echo_client (address ∷ word ∷ []) (map some back ++ rs')
          ≡ ok (record { address = address; port = 7; sent = word; printed = word }))
unfolding echo_client talk
echo_roundtrip address word there back rs rs' free full whole full' whole' = (
  handle_client-flatten there rs full ∙ ap ok whole,
  rw
      (receive_echo-flatten (length word) 0 [] back rs' (omega (arith, ap (length {A = ℕ}) whole'))
        full' (rw (ap (Without 0) (sym whole')) at free))
      (ap (λ s. ok (record { address = address; port = 7; sent = word; printed = s })) whole'),
)

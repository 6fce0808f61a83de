-- ===== src/BigFs/Client/Spread.antt =====
-- How Assignment2P1/Client.c spreads a file over the data servers.
use native.Mathlib.Nat.{mod-add-mod}
use network_programming_assi.Base.{
  ℕ, zero, suc, ◌+◌, ◌<◌, ◌≤◌, ◌%◌, ◌≡◌, refl, ap, sym, ◌∙◌, Str, codes, List, [], ◌∷◌, ◌++◌,
  append_assoc, append-nil, ok, ◌>>=◌, leb, lt→ltb, take, drop, length, flatten, All,
  take-append-drop, length-take, length-drop, true, false, arith, Bool-cases, inl, inr,
}
use network_programming_assi.Base.Decimal.{show_nat}
use network_programming_assi.BigFs.Client.State.{
  Target, data_server, Client, send, send_string, advance,
}
use network_programming_assi.BigFs.Client.Chunks.{portions, ask}
use network_programming_assi.BigFs.DataServer.Naming.{fits-lt}

-- The requests for the chunks `i` to `i + k - 1`, each at the data server whose number is the
-- remainder of the chunk's.
unfoldable pub requests : ℕ → ℕ → ℕ → Str → List (Target × Str)
requests servers zero i file_name = []
requests servers (suc k) i file_name =
    (data_server (i % servers), codes "cat" ++ 0 ∷ [])
    ∷ (data_server (i % servers), file_name)
    ∷ (data_server (i % servers), show_nat i ++ 0 ∷ [])
    ∷ requests servers k (i + 1) file_name

advance-mod : (servers i : ℕ) → 0 < servers → advance servers (i % servers) ≡ ok ((i + 1) % servers)
unfolding advance
advance-mod servers i some = rw (lt→ltb 0 servers some) (ap ok (mod-add-mod i servers 1))

-- Three writes, one after the other.
append-three :
    (l r : List (Target × Str)) (a b x : Target × Str)
    → (((l ++ a ∷ []) ++ b ∷ []) ++ x ∷ []) ++ r ≡ l ++ (a ∷ b ∷ x ∷ r)
append-three l r a b x =
    append_assoc ((l ++ a ∷ []) ++ b ∷ []) (x ∷ []) r
    ∙ append_assoc (l ++ a ∷ []) (b ∷ []) (x ∷ r)
    ∙ append_assoc l (a ∷ []) (b ∷ x ∷ r)

-- If there is a data server and the chunks' numbers fit the buffer for them, the loop that asks for
-- `k` chunks from `i` on ends; it asks the data server with the number `j % servers` for the chunk
-- `j`, in the order of the chunks, and does nothing else.
pub ask-sent :
    (k i : ℕ) (file_name : Str) (c : Client)
    → 0 < c.servers
    → ((j : ℕ) → j < i + k → length (show_nat j) < 10)
    → ask k i (i % c.servers) file_name c
      ≡ ok (record c { sent = c.sent ++ requests c.servers k i file_name })
unfolding ask requests
ask-sent zero i file_name c some short =
    ap (λ l. ok (record c { sent = l })) (sym (append-nil c.sent))
ask-sent (suc k) i file_name c some short =
    rw (fits-lt 10 (show_nat i) (short i (omega arith)), advance-mod c.servers i some)
      (ask-sent k (i + 1) file_name
          (send_string (data_server (i % c.servers)) (show_nat i) (
            send (data_server (i % c.servers)) file_name
              (send_string (data_server (i % c.servers)) (codes "cat") c)))
          some (λ j lt. short j (omega arith))
        ∙ ap (λ l. ok (record c { sent = l }))
            (append-three c.sent (requests c.servers k (i + 1) file_name) _ _ _))

portions-last :
    (k unit c : ℕ) (s : Str)
    → length (c ∷ s) ≤ unit
    → portions (suc k) unit (c ∷ s) ≡ ok ((c ∷ s) ∷ [])
unfolding portions
portions-last k unit c s le =
    let fit : leb (length (c ∷ s)) unit ≡ true = ground arith in rw fit refl

portions-more :
    (k u c : ℕ) (s : Str)
    → suc u < length (c ∷ s)
    → portions (suc k) (suc u) (c ∷ s)
      ≡ (portions k (suc u) (drop u s) >>= λ rest. ok ((c ∷ take u s) ∷ rest))
unfolding portions
portions-more k u c s lt =
    let long : leb (length (c ∷ s)) (suc u) ≡ false = ground arith in rw long refl

-- If the unit is positive and there are more rounds than bytes, the loop of `transfertoBigFS`
-- that writes a chunk ends; what it writes is, put together, the chunk, and no write is larger
-- than the unit.
pub portions-flatten :
    (k unit : ℕ) (s : Str)
    → 0 < unit
    → length s < k
    → (ws : List Str) × (portions k unit s ≡ ok ws)
      × (flatten ws ≡ s)
      × All (λ w. length w ≤ unit) ws
portions-flatten zero unit s full fuel = absurd (omega arith)
portions-flatten k zero s full fuel = absurd (omega arith)
portions-flatten (suc k) unit [] full fuel = ([], unfold portions in refl, refl, tt)
portions-flatten (suc k) (suc u) (c ∷ s) full fuel =
    elim (Bool-cases (leb (length (c ∷ s)) (suc u))) [
      | inl e ↦ (
        (c ∷ s) ∷ [],
        portions-last k (suc u) c s (ground arith),
        append-nil (c ∷ s),
        (ground arith, tt),
      )
      | inr e ↦
          let (ws, run, parts, small) =
            portions-flatten k (suc u) (drop u s) full (omega (arith, length-drop u s)) in
          (
            (c ∷ take u s) ∷ ws,
            rw (portions-more k u c s (ground arith), run) refl,
            ap (c ∷◌) (ap (take u s ++◌) parts ∙ take-append-drop u s),
            (omega (arith, length-take u s), small),
          )
    ]

-- ===== src/BigFs/Client/Addresses.antt =====
-- The addresses of the data servers, from `sendiptoClient` of Assignment2P1/fileNameServer.c to the
-- loop in `main` of Assignment2P1/Client.c.
use network_programming_assi.Base.{
  ℕ, zero, suc, ◌<◌, ◌≤◌, ◌≡◌, refl, ap, sym, ◌∙◌, inl, inr, Outcome, ok, fault, ◌>>=◌, ltb, lt→ltb,
  Bool-cases, if◌then◌else◌, length, length-append, arith, Str, split_on, List, [], ◌∷◌, ◌++◌,
  append_assoc, ◌==◌, false, All,
}
use network_programming_assi.BigFs.Receiver.Programs.{max_size}
use network_programming_assi.BigFs.Receiver.Copy.{IsText}
use network_programming_assi.BigFs.NameServer.Commands.{send_addresses}
use network_programming_assi.BigFs.Client.Strings.{cut, strings, strings-text}
use network_programming_assi.BigFs.Client.Commands.{addresses, store_addresses}

abbrev pub NoSpaces : Str → Type 0
NoSpaces [] = Unit
NoSpaces (c ∷ w) = ((c == b' ') ≡ false) × NoSpaces w

abbrev pub Full : Str → Type 0
Full [] = ⊥
Full (c ∷ w) = Unit

-- An address as `inet_ntop` prints it: not empty, without NUL and without spaces.
pub record IsAddress (w : Str) : Type 0 where
  pub full : Full w
  pub text : IsText w
  pub no_spaces : NoSpaces w

-- The addresses, a space after each.
listing : List Str → Str
listing [] = []
listing (ip ∷ ips) = ip ++ (b' ' ∷ listing ips)

send_addresses-listing : (ips : List Str) → send_addresses ips ≡ listing ips ++ 0 ∷ []
unfolding send_addresses listing
send_addresses-listing [] = refl
send_addresses-listing (ip ∷ ips) =
    ap (λ l. ip ++ (b' ' ∷ l)) (send_addresses-listing ips)
    ∙ sym (append_assoc ip (b' ' ∷ listing ips) (0 ∷ []))

append-IsText : (v w : Str) → IsText v → IsText w → IsText (v ++ w)
append-IsText [] w text_v text_w = text_w
append-IsText (c ∷ v) w text_v text_w = (text_v.0, append-IsText v w text_v.1 text_w)

listing-IsText : (ips : List Str) → All IsAddress ips → IsText (listing ips)
unfolding listing
listing-IsText [] each = tt
listing-IsText (ip ∷ ips) each =
    append-IsText ip (b' ' ∷ listing ips) each.0.text (refl, listing-IsText ips each.1)

split_on-word : (w s : Str) → NoSpaces w → split_on b' ' (w ++ (b' ' ∷ s)) ≡ w ∷ split_on b' ' s
unfolding split_on
split_on-word [] s h = refl
split_on-word (c ∷ w) s h = rw (h.0, split_on-word w s h.1) refl

-- A word that fits its place.
store_addresses_lem :
    (room : ℕ) (w : Str) (ws : List Str)
    → Full w
    → length w < max_size
    → store_addresses (suc room) (w ∷ ws) ≡ (store_addresses room ws >>= λ rest. ok (w ∷ rest))
unfolding store_addresses
store_addresses_lem room [] ws h small = absurd h
store_addresses_lem room (c ∷ w) ws h small = rw (lt→ltb (length (c ∷ w)) max_size small) refl

no_room : (w : Str) (ws : List Str) → Full w → store_addresses zero (w ∷ ws) ≡ fault
unfolding store_addresses
no_room [] ws h = absurd h
no_room (c ∷ w) ws h = refl

abbrev pub kept_in : ℕ → List Str → Outcome (List Str)
kept_in room ips = if ltb room (length ips) then fault else ok ips

ltb-suc : (m n : ℕ) → ltb (suc m) (suc n) ≡ ltb m n
ltb-suc m n = elim (Bool-cases (ltb m n)) [
  | inl e ↦ rw e (ground arith)
  | inr e ↦ rw e (ground arith)
]

no_addresses : (room : ℕ) → kept_in room [] ≡ ok []
no_addresses zero = ground arith
no_addresses (suc room) = ground arith

no_room_left : {A : Type 0} (n : ℕ) (o : Outcome A) → fault ≡ (if ltb 0 (suc n) then fault else o)
no_room_left n o = rw (lt→ltb 0 (suc n) (omega arith)) refl

kept_in-cons :
    (room : ℕ) (ip : Str) (ips : List Str)
    → (kept_in room ips >>= λ rest. ok (ip ∷ rest)) ≡ kept_in (suc room) (ip ∷ ips)
kept_in-cons room ip ips = elim (Bool-cases (ltb room (length ips))) [
  | inl e ↦ rw (e, ltb-suc room (length ips), e) refl
  | inr e ↦ rw (e, ltb-suc room (length ips), e) refl
]

store_addresses-listing :
    (room : ℕ) (ips : List Str)
    → All IsAddress ips
    → length (listing ips) < max_size
    → store_addresses room (split_on b' ' (listing ips)) ≡ kept_in room ips
unfolding listing
store_addresses-listing room [] each small =
    unfold split_on store_addresses in sym (no_addresses room)
store_addresses-listing zero (ip ∷ ips) each small =
    ap (store_addresses zero) (split_on-word ip (listing ips) each.0.no_spaces)
    ∙ no_room ip (split_on b' ' (listing ips)) each.0.full
    ∙ no_room_left (length ips) (ok (ip ∷ ips))
store_addresses-listing (suc room) (ip ∷ ips) each small =
    let size = length-append ip (b' ' ∷ listing ips) in
    ap (store_addresses (suc room)) (split_on-word ip (listing ips) each.0.no_spaces)
    ∙ store_addresses_lem room ip (split_on b' ' (listing ips)) each.0.full (omega (arith, size))
    ∙ ap (λ o. o >>= λ rest. ok (ip ∷ rest))
        (store_addresses-listing room ips each.1 (omega (arith, size)))
    ∙ kept_in-cons room ip ips

addresses-listing :
    (ips : List Str)
    → All IsAddress ips
    → length (listing ips) < max_size
    → addresses (listing ips) ≡ kept_in 10 ips
unfolding addresses
addresses-listing ips each small =
    rw (lt→ltb (length (listing ips)) max_size small) (store_addresses-listing 10 ips each small)

-- If no address is empty or holds a space or a NUL, and all of them with a space after each and the
-- NUL fit the client's buffer, then what the name server sends when the client connects is one
-- string, and the client reads from it the addresses of the data servers, in their order, if there
-- are at most 10; with more it writes behind its table.
pub addresses-send_addresses :
    (ips : List Str)
    → All IsAddress ips
    → length (send_addresses ips) ≤ max_size
    → (w : Str) × (strings (send_addresses ips) ≡ w ∷ [])
      × (addresses w ≡ (if ltb 10 (length ips) then fault else ok ips))
addresses-send_addresses ips each small = (
  listing ips,
  ap strings (send_addresses-listing ips)
      ∙ strings-text (listing ips) [] (listing-IsText ips each)
      ∙ ap (listing ips ∷◌) (unfold cut in refl),
  addresses-listing ips each
      (omega (arith, ap length (send_addresses-listing ips), length-append (listing ips) (0 ∷ []))),
)

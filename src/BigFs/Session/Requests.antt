-- ===== src/BigFs/Session/Requests.antt =====
-- What Assignment2P1/Client.c writes for one chunk, and the strings that a data server reads of it.
use network_programming_assi.Base.{
  ℕ, suc, ◌+◌, ◌-◌, ◌/◌, ◌<◌, ◌≡◌, refl, ap, sym, ◌∙◌, Str, codes, Without, List, [], ◌∷◌, ◌++◌,
  append_assoc, append-nil, Outcome, ok, ◌>>=◌, ◌==◌, if◌then◌else◌, take, drop, length, flatten,
  has, false, arith,
}
use network_programming_assi.Base.Decimal.{show_nat, Without-show_nat}
use network_programming_assi.BigFs.Receiver.Copy.{IsText}
use network_programming_assi.BigFs.Receiver.Programs.{max_size, block_size}
use network_programming_assi.BigFs.Client.Strings.{cut, strings, strings-text}
use network_programming_assi.BigFs.Client.State.{
  Target, data_server, Client, send, send_string, data_receive, advance,
}
use network_programming_assi.BigFs.Client.Chunks.{send_portions, report, upload, ask}
use network_programming_assi.BigFs.Client.Spread.{portions-flatten}
use network_programming_assi.BigFs.DataServer.Naming.{fits-lt}

-- Writes to one data server, one after the other.
abbrev pub to_server : ℕ → List Str → List (Target × Str)
to_server ptr [] = []
to_server ptr (w ∷ ws) = (data_server ptr, w) ∷ to_server ptr ws

-- A test for text.
pub IsText-has : (w : Str) → has 0 w ≡ false → IsText w
IsText-has [] h = tt
IsText-has (c ∷ w) h = (ground arith, IsText-has w (ground arith))

IsText-Without : (w : Str) → Without 0 w → IsText w
IsText-Without [] h = tt
IsText-Without (c ∷ w) h = (h.0, IsText-Without w h.1)

pub show_nat-IsText : (n : ℕ) → IsText (show_nat n)
show_nat-IsText n = IsText-Without (show_nat n) (Without-show_nat n)

-- The writes of a round of the loop of `transfertoBigFS`, the portions of the chunk given.
abbrev pub upload_writes : List Str → Str → ℕ → ℕ → List Str
upload_writes ws dir count i =
    (codes "tobigfs" ++ 0 ∷ [])
    ∷ (ws ++ (0 ∷ []) ∷ (dir ++ 0 ∷ []) ∷ (show_nat count ++ 0 ∷ []) ∷ (show_nat i ++ 0 ∷ []) ∷ [])

send_portions-sent :
    (ptr : ℕ) (ws : List Str) (c : Client)
    → send_portions ptr ws c ≡ record c { sent = c.sent ++ to_server ptr ws }
unfolding send_portions
send_portions-sent ptr [] c = ap (λ l. record c { sent = l }) (sym (append-nil c.sent))
send_portions-sent ptr (w ∷ ws) c =
    send_portions-sent ptr ws (send (data_server ptr) w c)
    ∙ ap (λ l. record c { sent = l })
        (append_assoc c.sent ((data_server ptr, w) ∷ []) (to_server ptr ws))

to_server-append :
    (ptr : ℕ) (xs ys : List Str) → to_server ptr (xs ++ ys) ≡ to_server ptr xs ++ to_server ptr ys
to_server-append ptr [] ys = refl
to_server-append ptr (x ∷ xs) ys = ap (λ l. (data_server ptr, x) ∷ l) (to_server-append ptr xs ys)

-- The writes of a round, one after the other.
writes-append :
    (ptr i count : ℕ) (dir : Str) (ws : List Str) (l : List (Target × Str))
    → ((((((l ++ (data_server ptr, codes "tobigfs" ++ 0 ∷ []) ∷ []) ++ to_server ptr ws)
              ++ (data_server ptr, 0 ∷ []) ∷ [])
            ++ (data_server ptr, dir ++ 0 ∷ []) ∷ [])
          ++ (data_server ptr, show_nat count ++ 0 ∷ []) ∷ [])
        ++ (data_server ptr, show_nat i ++ 0 ∷ []) ∷ [])
      ≡ l ++ to_server ptr (upload_writes ws dir count i)
writes-append ptr i count dir ws l = simp (append_assoc, to_server-append)

-- What follows when the location of the chunk has come.
abbrev pub upload_rest : ℕ → ℕ → ℕ → ℕ → Str → Str → Str × Client → Outcome Client
upload_rest k i ptr count dir text (data_loc, c) =
    let (dir, c) = report i data_loc dir c in
    advance c.servers ptr >>= λ next.
    upload k (i + 1) next (if ptr == c.servers - 1 then count + 1 else count) dir
      (drop block_size text) c

pub upload-writes :
    (k i ptr count : ℕ) (dir text : Str) (c : Client)
    → length (show_nat count) < 10
    → length (show_nat i) < 10
    → (ws : List Str) × (flatten ws ≡ take block_size text)
      × (upload (suc k) i ptr count dir text c ≡ (
          data_receive max_size ptr
            (record c { sent = c.sent ++ to_server ptr (upload_writes ws dir count i) })
          >>= upload_rest k i ptr count dir text))
unfolding upload
upload-writes k i ptr count dir text c count_lt i_lt =
    let chunk = take block_size text in
    let (ws, run, parts, small) =
      portions-flatten (suc (length chunk)) (block_size / 1000) chunk (omega arith) (omega arith) in
    (
      ws,
      parts,
      rw
          (
            run,
            send_portions-sent ptr ws (send_string (data_server ptr) (codes "tobigfs") c),
            fits-lt 10 (show_nat count) count_lt,
            fits-lt 10 (show_nat i) i_lt,
          )
          (ap
            (λ l.
              data_receive max_size ptr (record c { sent = l })
              >>= upload_rest k i ptr count dir text)
            (writes-append ptr i count dir ws c.sent)),
    )

flatten-append : (xs ys : List Str) → flatten (xs ++ ys) ≡ flatten xs ++ flatten ys
flatten-append [] ys = refl
flatten-append (x ∷ xs) ys =
    ap (λ l. x ++ l) (flatten-append xs ys) ∙ sym (append_assoc x (flatten xs) (flatten ys))

pub IsText-append : (w v : Str) → IsText w → IsText v → IsText (w ++ v)
IsText-append [] v h k = k
IsText-append (c ∷ w) v h k = (h.0, IsText-append w v h.1 k)

-- A data server reads the command, the chunk, the name and the two numbers.
pub strings-upload_writes :
    (ws : List Str) (dir : Str) (count i : ℕ)
    → IsText (flatten ws)
    → IsText dir
    → strings (flatten (upload_writes ws dir count i))
      ≡ codes "tobigfs" ∷ flatten ws ∷ dir ∷ show_nat count ∷ show_nat i ∷ []
strings-upload_writes ws dir count i text named =
    let tail =
      (0 ∷ []) ∷ (dir ++ 0 ∷ []) ∷ (show_nat count ++ 0 ∷ []) ∷ (show_nat i ++ 0 ∷ []) ∷ [] in
    let last = show_nat i ++ 0 ∷ [] in
    let numbers = (show_nat count ++ 0 ∷ []) ++ (last ++ []) in
    ap (λ l. strings ((codes "tobigfs" ++ 0 ∷ []) ++ l)) (flatten-append ws tail)
    ∙ strings-text (codes "tobigfs") (flatten ws ++ flatten tail)
        (IsText-has (codes "tobigfs") refl)
    ∙ ap (λ l. codes "tobigfs" ∷ l)
        (strings-text (flatten ws) ((dir ++ 0 ∷ []) ++ numbers) text
          ∙ ap (λ l. flatten ws ∷ l)
              (ap strings (append_assoc dir (0 ∷ []) numbers)
                ∙ strings-text dir numbers named
                ∙ ap (λ l. dir ∷ l)
                    (ap strings (append_assoc (show_nat count) (0 ∷ []) (last ++ []))
                      ∙ strings-text (show_nat count) (last ++ []) (show_nat-IsText count)
                      ∙ ap (λ l. show_nat count ∷ l)
                          (ap strings (append_assoc (show_nat i) (0 ∷ []) [])
                            ∙ strings-text (show_nat i) [] (show_nat-IsText i)
                            ∙ (unfold cut in refl)))))

-- The writes of a round of the loop that asks for chunks.
abbrev pub ask_writes : Str → ℕ → List Str
ask_writes loc i = (codes "cat" ++ 0 ∷ []) ∷ loc ∷ (show_nat i ++ 0 ∷ []) ∷ []

-- The location is written without its NUL: the data server reads it with the chunk's number.
pub strings-ask_writes :
    (loc : Str) (i : ℕ)
    → IsText loc
    → strings (flatten (ask_writes loc i)) ≡ codes "cat" ∷ (loc ++ show_nat i) ∷ []
strings-ask_writes loc i text =
    let last = show_nat i ++ 0 ∷ [] in
    strings-text (codes "cat") (loc ++ (last ++ [])) (IsText-has (codes "cat") refl)
    ∙ ap (λ l. codes "cat" ∷ l)
        (ap (λ l. strings (loc ++ l)) (append_assoc (show_nat i) (0 ∷ []) [])
          ∙ ap strings (sym (append_assoc loc (show_nat i) (0 ∷ [])))
          ∙ strings-text (loc ++ show_nat i) []
              (IsText-append loc (show_nat i) text (show_nat-IsText i))
          ∙ (unfold cut in refl))

pub ask-writes :
    (i ptr next : ℕ) (loc : Str) (c : Client)
    → length (show_nat i) < 10
    → advance c.servers ptr ≡ ok next
    → ask 1 i ptr loc c ≡ ok (record c { sent = c.sent ++ to_server ptr (ask_writes loc i) })
unfolding ask
ask-writes i ptr next loc c i_lt step =
    rw (fits-lt 10 (show_nat i) i_lt, step)
      (ap (λ l. ok (record c { sent = l })) (simp (append_assoc)))

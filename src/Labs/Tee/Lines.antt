-- ===== src/Labs/Tee/Lines.antt =====
-- What labs/2016A7PS0064P_lab2/tee.c makes of the last line.
use network_programming_assi.Base.{
  ℕ, zero, suc, ◌+◌, ◌<◌, ◌≤◌, ◌≡◌, refl, ap, sym, ◌∙◌, true, false, List, [], ◌∷◌, ◌++◌,
  append_assoc, map, ok, fault, Str, before, Without, length, length-append, replicate, All, arith,
}
use network_programming_assi.Labs.Tee.{read_line, text_of, round, loop, tee}

-- A line without its newline that fits the buffer.
abbrev pub IsLine : Str → Type 0
IsLine w = Without b'\n' w × Without 0 w × (length w < 1023)

abbrev pub unlines : List Str → Str
unlines [] = []
unlines (w ∷ ws) = (w ++ b'\n' ∷ []) ++ unlines ws

read_line-newline :
    (room : ℕ) (w s : Str)
    → Without b'\n' w
    → length w < room
    → read_line room (w ++ b'\n' ∷ s) ≡ (w ++ b'\n' ∷ [], record { text = s; eof = false })
unfolding read_line
read_line-newline zero w s one lt = absurd (omega arith)
read_line-newline (suc room) [] s one lt = refl
read_line-newline (suc room) (c ∷ w) s one lt =
    rw (one.0, read_line-newline room w s one.1 (omega arith)) refl

read_line_last :
    (room : ℕ) (w : Str)
    → Without b'\n' w
    → length w < room
    → read_line room w ≡ (w, record { text = []; eof = true })
unfolding read_line
read_line_last zero w one lt = absurd (omega arith)
read_line_last (suc room) [] one lt = refl
read_line_last (suc room) (c ∷ w) one lt =
    rw (one.0, read_line_last room w one.1 (omega arith)) refl

before-whole : (w : Str) → Without 0 w → before 0 w ≡ w
unfolding before
before-whole [] full = refl
before-whole (c ∷ w) full = rw (full.0, before-whole w full.1) refl

Without-newline : (w : Str) → Without 0 w → Without 0 (w ++ b'\n' ∷ [])
Without-newline [] full = (refl, tt)
Without-newline (c ∷ w) full = (full.0, Without-newline w full.1)

text_of-whole : (s : Str) → 0 < length s → Without 0 s → text_of s ≡ ok s
text_of-whole [] more full = absurd (omega arith)
text_of-whole (c ∷ s) more full = rw (before-whole (c ∷ s) full) refl

map-replicate : (n : ℕ) (a e : Str) → map (λ t. t ++ e) (replicate n a) ≡ replicate n (a ++ e)
map-replicate zero a e = refl
map-replicate (suc n) a e = ap (λ l. (a ++ e) ∷ l) (map-replicate n a e)

map-append :
    (f : List Str) (a b : Str)
    → map (λ t. t ++ b) (map (λ t. t ++ a) f) ≡ map (λ t. t ++ (a ++ b)) f
map-append [] a b = refl
map-append (t ∷ f) a b = rw (append_assoc t a b, map-append f a b) refl

-- A round that reads a line.
loop_line :
    (k : ℕ) (w s : Str) (f : List Str)
    → IsLine w
    → loop (suc k) (record { text = w ++ b'\n' ∷ s; eof = false }) f
      ≡ loop k (record { text = s; eof = false }) (map (λ t. t ++ (w ++ b'\n' ∷ [])) f)
unfolding loop round
loop_line k w s f (one, full, small) =
    rw
      (
        read_line-newline 1023 w s one small,
        text_of-whole (w ++ b'\n' ∷ []) (omega (arith, length-append w (b'\n' ∷ [])))
            (Without-newline w full),
      )
      refl

-- The round that finds the end, with a last line that has no newline.
loop_end :
    (k : ℕ) (v : Str) (f : List Str)
    → IsLine v
    → 0 < length v
    → loop (suc (suc k)) (record { text = v; eof = false }) f ≡ ok (map (λ t. t ++ v) f)
unfolding loop round
loop_end k v f (one, full, small) more =
    rw (read_line_last 1023 v one small, text_of-whole v more full) refl

-- The round that finds the end and nothing else.
loop_nothing : (k : ℕ) (f : List Str) → loop (suc k) (record { text = []; eof = false }) f ≡ fault
unfolding loop round read_line
loop_nothing k f = refl

loop-unlines :
    (k : ℕ) (ws : List Str) (v : Str) (f : List Str)
    → All IsLine ws
    → IsLine v
    → 0 < length v
    → length ws + 1 < k
    → loop k (record { text = unlines ws ++ v; eof = false }) f
      ≡ ok (map (λ t. t ++ (unlines ws ++ v)) f)
loop-unlines zero ws v f lines line more lt = absurd (omega arith)
loop-unlines (suc zero) ws v f lines line more lt = absurd (omega arith)
loop-unlines (suc (suc k)) [] v f lines line more lt = loop_end k v f line more
loop-unlines (suc (suc k)) (w ∷ ws) v f lines line more lt =
    let first = w ++ b'\n' ∷ [] in
    let split = append_assoc first (unlines ws) v ∙ append_assoc w (b'\n' ∷ []) (unlines ws ++ v) in
    ap (λ (t : Str). loop (suc (suc k)) (record { text = t; eof = false }) f) split
    ∙ loop_line (suc k) w (unlines ws ++ v) f lines.0
    ∙ loop-unlines (suc k) ws v (map (λ t. t ++ first) f) lines.1 line more (omega arith)
    ∙ ap ok (
        map-append f first (unlines ws ++ v)
        ∙ ap (λ b. map (λ t. t ++ b) f) (sym (append_assoc first (unlines ws) v)))

-- After lines that all have their newline.
loop-whole_lines :
    (k : ℕ) (ws : List Str) (f : List Str)
    → All IsLine ws
    → length ws < k
    → loop k (record { text = unlines ws; eof = false }) f ≡ fault
loop-whole_lines zero ws f lines lt = absurd (omega arith)
loop-whole_lines (suc k) [] f lines lt = loop_nothing k f
loop-whole_lines (suc k) (w ∷ ws) f lines lt =
    let first = w ++ b'\n' ∷ [] in
    ap (λ (t : Str). loop (suc k) (record { text = t; eof = false }) f)
      (append_assoc w (b'\n' ∷ []) (unlines ws))
    ∙ loop_line k w (unlines ws) f lines.0
    ∙ loop-whole_lines k ws (map (λ t. t ++ first) f) lines.1 (omega arith)

length-unlines : (ws : List Str) → length ws ≤ length (unlines ws)
length-unlines [] = omega arith
length-unlines (w ∷ ws) = omega (
  arith,
  length-append (w ++ b'\n' ∷ []) (unlines ws),
  length-append w (b'\n' ∷ []),
  length-unlines ws,
)

-- For lines without a NUL that fit the buffer: with a last line that is not empty and has no
-- newline, the output and every file get the input as it is; if every line has its newline, and also
-- if there is no line, the program comes to write its buffer when nothing was read into it, which is
-- a fault.
pub tee_last_line :
    (files : ℕ) (ws : List Str) (w : Str)
    → All IsLine ws
    → IsLine w
    → 0 < length w
    → (tee files (unlines ws ++ w) ≡ ok (replicate (files + 1) (unlines ws ++ w)))
      × (tee files (unlines ws) ≡ fault)
unfolding tee
tee_last_line files ws w lines line more = (
  loop-unlines (length (unlines ws ++ w) + 2) ws w (replicate (files + 1) []) lines line more
        (omega (arith, length-append (unlines ws) w, length-unlines ws))
      ∙ ap ok (map-replicate (files + 1) [] (unlines ws ++ w)),
  loop-whole_lines (length (unlines ws) + 2) ws (replicate (files + 1) []) lines
      (omega (arith, length-unlines ws)),
)

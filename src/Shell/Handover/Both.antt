-- ===== src/Shell/Handover/Both.antt =====
-- `doubleMessageQueue` of Assignment1P1/functions.c: the output of one program for two others.
use network_programming_assi.Base.{
  ℕ, zero, suc, ◌+◌, ◌-◌, ◌<◌, ◌≤◌, ◌≡◌, refl, ap, sym, ◌∙◌, none, some, List, [], ◌∷◌, ◌++◌,
  append-nil, ok, Str, codes, str_eq, get_elem?, take, drop, length, length-drop, All, arith,
}
use network_programming_assi.Shell.Redirections.{strinarr, getfile}
use network_programming_assi.Shell.Pipelines.{subarray, drop-drop}
use network_programming_assi.Shell.Starting.{Not, strinarr-append, index_from-append}
use network_programming_assi.Shell.Handover.{
  Start, World, program_at, read_both, start_three, double_message_queue,
}

drop-append : (ws : List Str) (v : Str) (vs : List Str) → drop (length ws + 1) (ws ++ v ∷ vs) ≡ vs
drop-append [] v vs = refl
drop-append (w ∷ ws) v vs =
    let next : length (w ∷ ws) + 1 ≡ suc (length ws + 1) = omega arith in
    ap (λ n. drop n (w ∷ (ws ++ v ∷ vs))) next ∙ drop-append ws v vs

take-append : (ws vs : List Str) (n : ℕ) → n ≡ length ws → take n (ws ++ vs) ≡ ws
take-append [] vs zero e = refl
take-append [] vs (suc n) e = absurd (omega arith)
take-append (w ∷ ws) vs zero e = absurd (omega arith)
take-append (w ∷ ws) vs (suc n) e = ap (λ l. w ∷ l) (take-append ws vs n (omega arith))

get_elem?-drop : (n : ℕ) (ws vs : List Str) (v : Str) → drop n ws ≡ v ∷ vs → get_elem? ws n ≡ some v
get_elem?-drop zero ws vs v e = rw e refl
get_elem?-drop (suc n) [] vs v e = let clash : [] ≡ v ∷ vs = e in cc
get_elem?-drop (suc n) (w ∷ ws) vs v e = get_elem?-drop n ws vs v e

subarray-drop :
    (argv : List Str) (start end : ℕ) (ws vs : List Str)
    → end - start ≡ length ws
    → drop start argv ≡ ws ++ vs
    → subarray argv start end ≡ ws
unfolding subarray
subarray-drop argv start end ws vs size rest =
    ap (take (end - start)) rest ∙ take-append ws vs (end - start) size

take_short : (n : ℕ) (s : Str) → length s ≤ n → take n s ≡ s
take_short zero [] le = refl
take_short zero (c ∷ s) le = absurd (omega arith)
take_short (suc n) [] le = refl
take_short (suc n) (c ∷ s) le = ap (λ l. c ∷ l) (take_short n s (omega arith))

drop_short : (n : ℕ) (s : Str) → length s ≤ n → drop n s ≡ []
drop_short zero [] le = refl
drop_short zero (c ∷ s) le = absurd (omega arith)
drop_short (suc n) [] le = refl
drop_short (suc n) (c ∷ s) le = drop_short n s (omega arith)

read_both_short : (s : Str) → 0 < length s → length s ≤ 10000 → read_both s ≡ ok (s, s)
unfolding read_both
read_both_short [] some_text le = absurd (omega arith)
read_both_short (c ∷ s) some_text le =
    rw (drop_short 10000 (c ∷ s) le, take_short 10000 (c ∷ s) le) refl

module _ (w : World) (path1 b c : Str) (args bs cs : List Str) where
  abbrev argv : List Str
  argv = args ++ codes "##" ∷ ((b ∷ bs) ++ codes "," ∷ c ∷ cs)

  after_first : drop (length args + 1) argv ≡ (b ∷ bs) ++ codes "," ∷ c ∷ cs
  after_first = drop-append args (codes "##") ((b ∷ bs) ++ codes "," ∷ c ∷ cs)

  after_second : drop (length args + 1 + length (b ∷ bs) + 1) argv ≡ c ∷ cs
  after_second =
      let sum : length args + 1 + length (b ∷ bs) + 1 ≡ length args + 1 + (length (b ∷ bs) + 1) =
        omega arith in
      ap (λ n. drop n argv) sum
      ∙ drop-drop (length args + 1) (length (b ∷ bs) + 1) argv
      ∙ ap (drop (length (b ∷ bs) + 1)) after_first
      ∙ drop-append (b ∷ bs) (codes ",") (c ∷ cs)

  second_symbol :
      All (Not (codes ",")) (b ∷ bs)
      → strinarr argv (codes ",") (length args + 1) ≡ some (length args + 1 + length (b ∷ bs))
  unfolding strinarr
  second_symbol no_comma = rw after_first (
      index_from-append (codes ",") (length args + 1) (b ∷ bs) (codes ",") (c ∷ cs) no_comma
        (unfold str_eq in refl))

  start_three-both :
      (path2 path3 : Str)
      → let first : Start = record { program = path1; args = args; input = none } in
        let out = w.output (first ∷ []) in
        getfile w.files w.path b ≡ ok (some path2)
        → getfile w.files w.path c ≡ ok (some path3)
        → 0 < length out
        → length out ≤ 10000
        → start_three w path1 argv (some (length args)) (some (length args + 1 + length (b ∷ bs)))
          ≡ ok (
              first
              ∷ record { program = path2; args = b ∷ bs; input = some out }
              ∷ record { program = path3; args = c ∷ cs; input = some out }
              ∷ [])
  unfolding start_three program_at
  start_three-both path2 path3 found2 found3 some_text small =
      let index2 = length args + 1 + length (b ∷ bs) in
      let out = w.output (record { program = path1; args = args; input = none } ∷ []) in
      let size2 : index2 - (length args + 1) ≡ length (b ∷ bs) = omega arith in
      let size3 : length argv - (index2 + 1) ≡ length (c ∷ cs) =
        sym (length-drop (index2 + 1) argv) ∙ ap (length {A = Str}) after_second in
      let args1 = subarray-drop argv 0 (length args) args _ (omega arith) refl in
      let args2 = subarray-drop argv (length args + 1) index2 (b ∷ bs) _ size2 after_first in
      let args3 =
        subarray-drop argv (index2 + 1) (length argv) (c ∷ cs) [] size3
          (after_second ∙ sym (append-nil (c ∷ cs))) in
      rw
        (
          get_elem?-drop (length args + 1) argv _ b after_first,
          get_elem?-drop (index2 + 1) argv cs c after_second,
          found2,
          found3,
          args1,
          args2,
          args3,
          read_both_short out some_text small,
        )
        refl

-- A program whose output is not empty and at most 10000 bytes hands all of it to each of two others,
-- whose arguments stand after `##` and after the comma that follows. All three programs are found.
pub double_message_queue-both :
    (w : World) (path1 path2 path3 b c : Str) (args bs cs : List Str)
    → All (Not (codes "##")) args
    → All (Not (codes ",")) (b ∷ bs)
    → getfile w.files w.path b ≡ ok (some path2)
    → getfile w.files w.path c ≡ ok (some path3)
    → let first : Start = record { program = path1; args = args; input = none } in
      let out = w.output (first ∷ []) in
      0 < length out
      → length out ≤ 10000
      → double_message_queue w path1 (args ++ codes "##" ∷ ((b ∷ bs) ++ codes "," ∷ c ∷ cs))
        ≡ ok (
            first
            ∷ record { program = path2; args = b ∷ bs; input = some out }
            ∷ record { program = path3; args = c ∷ cs; input = some out }
            ∷ [])
unfolding double_message_queue
double_message_queue-both w path1 path2 path3 b c args bs cs plain no_comma found2 found3 some_text
      small =
    let rest = (b ∷ bs) ++ codes "," ∷ c ∷ cs in
    let found1 =
      strinarr-append (codes "##") args (codes "##") rest plain (unfold str_eq in refl) in
    rw (found1, second_symbol w path1 b c args bs cs no_comma)
      (start_three-both w path1 b c args bs cs path2 path3 found2 found3 some_text small)

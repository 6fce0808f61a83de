-- ===== src/BigFs/Client/Strings.antt =====
-- The strings that come to the client of Assignment2P1/Client.c, and the loop of `printfile` and
-- `savefile` that puts a chunk of a file together. `BigFs.Receiver` shows how the strings are cut
-- from the bytes.
use network_programming_assi.Base.{
  ◌≡◌, ap, sym, ◌∙◌, Str, List, [], ◌∷◌, ◌++◌, append_assoc, append-nil, Outcome, ok, blocked,
  ◌>>=◌, ◌==◌, if◌then◌else◌,
}
use network_programming_assi.BigFs.Receiver.Copy.{IsText}

-- The complete strings among the bytes, after the bytes `acc`.
unfoldable pub cut : Str → Str → List Str
cut acc [] = []
cut acc (c ∷ u) =
    let done = acc ∷ cut [] u in let more = cut (acc ++ c ∷ []) u in if c == 0 then done else more

abbrev pub strings : Str → List Str
strings = cut []

-- Strings are put together until an empty one comes.
unfoldable pub gather : List Str → Outcome (Str × List Str)
gather [] = blocked
gather ([] ∷ ws) = ok ([], ws)
gather ((c ∷ w) ∷ ws) = do (t, r) ← gather ws; ok ((c ∷ w) ++ t, r)

cut-text : (acc w u : Str) → IsText w → cut acc (w ++ 0 ∷ u) ≡ (acc ++ w) ∷ cut [] u
unfolding cut
cut-text acc [] u text = ap (λ a. a ∷ cut [] u) (sym (append-nil acc))
cut-text acc (c ∷ w) u text =
    rw text.0
      (cut-text (acc ++ c ∷ []) w u text.1 ∙ ap (λ a. a ∷ cut [] u) (append_assoc acc (c ∷ []) w))

-- A string of text with its NUL is the first string.
pub strings-text : (w u : Str) → IsText w → strings (w ++ 0 ∷ u) ≡ w ∷ strings u
strings-text = cut-text []

-- ===== src/Cluster/Config.antt =====
-- The file of nodes that Assignment1P2/clustershell_client.c and clustershell_server.c read.
use network_programming_assi.Base.{
  ℕ, zero, suc, ◌<◌, ◌≡◌, refl, ap, ◌∙◌, List, [], ◌∷◌, ◌++◌, append_assoc, Outcome, ok, fault,
  ◌>>=◌, ◌>>◌, Str, before, before-append, fits, Without, ◌==◌, lt→ltb, if◌then◌else◌, length,
  length-append, All, arith,
}

pub record Node : Type 0 where
  pub name : Str
  pub ip : Str
  pub active : ℕ

-- fgets with room for so many bytes and the NUL: the line with its newline, and the rest.
unfoldable pub fgets_loop : ℕ → Str → Str × Str
fgets_loop zero s = ([], s)
fgets_loop (suc k) [] = ([], [])
fgets_loop (suc k) (c ∷ s) =
    let rest = fgets_loop k s in if c == b'\n' then (c ∷ [], s) else (c ∷ rest.0, rest.1)

-- The first loop over a line: the bytes before the space, and those after it. It has no other end.
unfoldable pub name_loop : Str → Outcome (Str × Str)
name_loop [] = fault
name_loop (c ∷ s) =
    let rest = name_loop s in if c == b' ' then ok ([], s) else (rest >>= λ r. ok (c ∷ r.0, r.1))

unfoldable pub parse_node : Str → Outcome Node
parse_node line = do
  (name, rest) ← name_loop line
  fits 10 name
  let ip = before b'\n' rest
  fits 20 ip
  ok (record { name = name; ip = ip; active = 0 })

-- At the end of the file nothing is stored, and the line is indeterminate.
unfoldable pub fgets : ℕ → Str → Outcome (Str × Str)
fgets k [] = fault
fgets k (c ∷ s) = ok (fgets_loop k (c ∷ s))

-- The loop over the nodes, after `n` is read.
unfoldable pub read_nodes : ℕ → Str → Outcome (List Node)
read_nodes zero file = ok []
read_nodes (suc n) file = do
  (line, rest) ← fgets 254 file
  x ← parse_node line
  xs ← read_nodes n rest
  ok (x ∷ xs)

-- A line of the file.
abbrev pub print_node : Node → Str
print_node x = x.name ++ b' ' ∷ x.ip ++ b'\n' ∷ []

abbrev pub print_nodes : List Node → Str
print_nodes [] = []
print_nodes (x ∷ xs) = print_node x ++ print_nodes xs

-- What fits into the fields of a node and can stand in the file.
pub record IsNode (x : Node) : Type 0 where
  pub name_size : length x.name < 10
  pub ip_size : length x.ip < 20
  pub name_space : Without b' ' x.name
  pub name_newline : Without b'\n' x.name
  pub ip_newline : Without b'\n' x.ip
  pub waits : x.active ≡ 0

fgets_loop-append :
    (k : ℕ) (w s : Str)
    → length w < k
    → Without b'\n' w
    → fgets_loop k (w ++ b'\n' ∷ s) ≡ (w ++ b'\n' ∷ [], s)
unfolding fgets_loop
fgets_loop-append zero w s lt free = absurd (omega arith)
fgets_loop-append (suc k) [] s lt free = refl
fgets_loop-append (suc k) (c ∷ w) s lt free =
    rw (free.0, fgets_loop-append k w s (omega arith) free.1) refl

name_loop-append : (w s : Str) → Without b' ' w → name_loop (w ++ b' ' ∷ s) ≡ ok (w, s)
unfolding name_loop
name_loop-append [] s free = refl
name_loop-append (c ∷ w) s free = rw (free.0, name_loop-append w s free.1) refl

parse-print : (x : Node) → IsNode x → parse_node (print_node x) ≡ ok x
unfolding parse_node
parse-print x v =
    ap parse_node (append_assoc x.name (b' ' ∷ x.ip) (b'\n' ∷ []))
    ∙ rw
        (
          name_loop-append x.name (x.ip ++ b'\n' ∷ []) v.name_space,
          lt→ltb (length x.name) 10 v.name_size,
          before-append b'\n' x.ip [] v.ip_newline,
          lt→ltb (length x.ip) 20 v.ip_size,
        )
        (rw⁻¹ v.waits refl)

fgets-append :
    (k : ℕ) (w s : Str)
    → length w < k
    → Without b'\n' w
    → fgets k (w ++ b'\n' ∷ s) ≡ ok (w ++ b'\n' ∷ [], s)
unfolding fgets
fgets-append k [] s lt free = ap ok (fgets_loop-append k [] s lt free)
fgets-append k (c ∷ w) s lt free = ap ok (fgets_loop-append k (c ∷ w) s lt free)

Without-append : (sep : ℕ) (w s : Str) → Without sep w → Without sep s → Without sep (w ++ s)
Without-append sep [] s h k = k
Without-append sep (c ∷ w) s h k = (h.0, Without-append sep w s h.1 k)

-- A line without its newline.
abbrev fields : Node → Str
fields x = x.name ++ b' ' ∷ x.ip

print_node-append : (x : Node) (s : Str) → print_node x ++ s ≡ fields x ++ b'\n' ∷ s
print_node-append x s = append_assoc (fields x) (b'\n' ∷ []) s

fgets-print : (x : Node) (s : Str) → IsNode x → fgets 254 (print_node x ++ s) ≡ ok (print_node x, s)
fgets-print x s v =
    ap (fgets 254) (print_node-append x s)
    ∙ fgets-append 254 (fields x) s
        (omega (arith, length-append x.name (b' ' ∷ x.ip), v.name_size, v.ip_size))
        (Without-append b'\n' x.name (b' ' ∷ x.ip) v.name_newline (refl, v.ip_newline))

-- The nodes that are written to a file, one line for each, are read back from it with their names
-- and addresses, all of them inactive.
pub read_nodes-print_nodes :
    (xs : List Node) → All IsNode xs → read_nodes (length xs) (print_nodes xs) ≡ ok xs
unfolding read_nodes
read_nodes-print_nodes [] v = refl
read_nodes-print_nodes (x ∷ xs) v =
    rw (fgets-print x (print_nodes xs) v.0, parse-print x v.0, read_nodes-print_nodes xs v.1) refl

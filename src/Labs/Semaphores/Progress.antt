-- ===== src/Labs/Semaphores/Progress.antt =====
-- That the processes of labs/2016A7PS0064P_lab6/code/sharedmemory do not wait for each other.
use network_programming_assi.Base.{
  ℕ, zero, suc, ◌+◌, ◌<◌, ◌≡◌, refl, ap, ◌∙◌, ◌⊎◌, inl, inr, Bool-cases, ltb, ltb→lt, length, List,
  [], ◌∷◌, ◌++◌, Str, codes, replicate, arith,
}
use network_programming_assi.Labs.Semaphores.{
  Server, waits, reads, told, freed, Client, starts, writes, wrote, ended, State, state, Step,
  server_enter, server_print, server_leave, server_fail, server_remove, client_enter,
  client_enter_late, client_write, client_leave, client_leave_late, removed, Present, start, Reach,
  begin, then, busy, total,
}
use network_programming_assi.Labs.Semaphores.Order.{
  Shared, Reach-Shared, total-replace, total-starts,
}

abbrev starting : Client → ℕ
starting starts = 1
starting writes = 0
starting wrote = 0
starting ended = 0

abbrev signalled : Client → ℕ
signalled starts = 0
signalled writes = 0
signalled wrote = 0
signalled ended = 1

abbrev passed : Server → ℕ
passed waits = 0
passed reads = 1
passed (told t) = 1
passed (freed t) = 1
passed (removed t) = 1

-- While the semaphores are there, the signals of the clients are in the second one, but for the one
-- that the server has taken; the clients are as many as at the start.
abbrev Signals : ℕ → State → Type 0
Signals k (state a b m sv cs) = (Present sv → total signalled cs ≡ b + passed sv) × (length cs ≡ k)

length-replace :
    (xs ys : List Client) (c d : Client) → length (xs ++ d ∷ ys) ≡ length (xs ++ c ∷ ys)
length-replace [] ys c d = refl
length-replace (x ∷ xs) ys c d = ap suc (length-replace xs ys c d)

step-Signals : (k : ℕ) (s s' : State) → Step s s' → Signals k s → Signals k s'
step-Signals k _ _ server_enter h = (λ p. omega (arith, h.0 tt), h.1)
step-Signals k _ _ server_print h = h
step-Signals k _ _ server_leave h = h
step-Signals k _ _ server_fail h = h
step-Signals k _ _ server_remove h = (λ p. absurd p, h.1)
step-Signals k _ _ (client_enter xs ys there) h = (
  λ p. omega (arith, h.0 there, total-replace signalled xs ys starts writes),
  length-replace xs ys _ _ ∙ h.1,
)
step-Signals k _ _ (client_enter_late xs ys) h =
    (λ p. absurd p, length-replace xs ys starts writes ∙ h.1)
step-Signals k _ _ (client_write xs ys) h = (
  λ p. omega (arith, h.0 p, total-replace signalled xs ys writes wrote),
  length-replace xs ys _ _ ∙ h.1,
)
step-Signals k _ _ (client_leave xs ys there) h = (
  λ p. omega (arith, h.0 there, total-replace signalled xs ys wrote ended),
  length-replace xs ys _ _ ∙ h.1,
)
step-Signals k _ _ (client_leave_late xs ys) h =
    (λ p. absurd p, length-replace xs ys wrote ended ∙ h.1)

length-replicate : (k : ℕ) (c : Client) → length (replicate k c) ≡ k
length-replicate zero c = refl
length-replicate (suc k) c = ap suc (length-replicate k c)

Reach-Signals : (k : ℕ) (s : State) → Reach k s → Signals k s
unfolding start
Reach-Signals k _ begin =
    (λ p. omega (arith, total-starts signalled k refl), length-replicate k starts)
Reach-Signals k _ (then {s} {s'} before_it step) =
    step-Signals k s s' step (Reach-Signals k s before_it)

-- A client that counts is somewhere in the list.
find :
    (f : Client → ℕ) (cs : List Client)
    → 0 < total f cs
    → (xs : List Client) × (c : Client) × (ys : List Client) × (cs ≡ xs ++ c ∷ ys) × (0 < f c)
unfolding total
find f [] more = absurd (omega arith)
find f (c ∷ cs) more = elim (Bool-cases (ltb 0 (f c))) [
  | inl e ↦ ([], c, cs, refl, ltb→lt 0 (f c) e)
  | inr e ↦
      let (xs, d, ys, split, counts) = find f cs (ground arith) in
      (c ∷ xs, d, ys, ap (λ l. c ∷ l) split, counts)
]

total-split :
    (cs : List Client) → total starting cs + total busy cs + total signalled cs ≡ length cs
unfolding total
total-split [] = refl
total-split (starts ∷ cs) = omega (arith, total-split cs)
total-split (writes ∷ cs) = omega (arith, total-split cs)
total-split (wrote ∷ cs) = omega (arith, total-split cs)
total-split (ended ∷ cs) = omega (arith, total-split cs)

abbrev Goes : State → Type 0
Goes s = (s' : State) × Step s s'

busy-Goes :
    (a b : ℕ) (m : Str) (sv : Server) (xs ys : List Client) (c : Client)
    → Present sv
    → 0 < busy c
    → 0 < a
    → Goes (state a b m sv (xs ++ c ∷ ys))
busy-Goes a b m sv xs ys starts there counts more = absurd (omega arith)
busy-Goes a b m sv xs ys writes there counts more = (_, client_write xs ys)
busy-Goes zero b m sv xs ys wrote there counts more = absurd (omega arith)
busy-Goes (suc a) b m sv xs ys wrote there counts more = (_, client_leave xs ys there)
busy-Goes a b m sv xs ys ended there counts more = absurd (omega arith)

starting-Goes :
    (b : ℕ) (m : Str) (sv : Server) (xs ys : List Client) (c : Client)
    → Present sv
    → 0 < starting c
    → Goes (state 0 b m sv (xs ++ c ∷ ys))
starting-Goes b m sv xs ys starts there counts = (_, client_enter xs ys there)
starting-Goes b m sv xs ys writes there counts = absurd (omega arith)
starting-Goes b m sv xs ys wrote there counts = absurd (omega arith)
starting-Goes b m sv xs ys ended there counts = absurd (omega arith)

waits-Goes :
    (k a : ℕ) (m : Str) (cs : List Client)
    → a ≡ total busy cs
    → total signalled cs ≡ 0
    → length cs ≡ suc k
    → Goes (state a 0 m waits cs)
waits-Goes k zero m cs inside none_left size =
    let (xs, c, ys, split, counts) = find starting cs (omega (arith, total-split cs, inside)) in
    rw split (starting-Goes 0 m waits xs ys c tt counts)
waits-Goes k (suc a) m cs inside none_left size =
    let (xs, c, ys, split, counts) = find busy cs (omega (arith, inside)) in
    rw split (busy-Goes (suc a) 0 m waits xs ys c tt counts (omega arith))

server-Goes :
    (k a b : ℕ) (m : Str) (sv : Server) (cs : List Client)
    → Shared (state a b m sv cs)
    → Signals (suc k) (state a b m sv cs)
    → ((t : Str) × (sv ≡ removed t)) ⊎ Goes (state a b m sv cs)
server-Goes k a b m (removed t) cs h signals = inl (t, refl)
server-Goes k a b m (freed t) cs h signals = inr (_, server_remove)
server-Goes k a (suc b) m waits cs h signals = inr (_, server_enter)
server-Goes k a zero m waits cs h signals =
    inr (waits-Goes k a m cs (omega (arith, h.counted tt)) (omega (arith, signals.0 tt)) signals.1)
server-Goes k a b m reads cs h signals = inr (_, server_print)
server-Goes k zero b m (told t) cs h signals = inr (_, server_fail)
server-Goes k (suc a) b m (told t) cs h signals = inr (_, server_leave)

-- With at least one client, some process can go on in every state that is reached, until the server has
-- printed what a client wrote and removed the semaphores.
pub Reach-Goes :
    (k a b : ℕ) (m : Str) (sv : Server) (cs : List Client)
    → Reach (suc k) (state a b m sv cs)
    → (sv ≡ removed (codes "hello")) ⊎ ((s' : State) × Step (state a b m sv cs) s')
Reach-Goes k a b m sv cs reached =
    let h = Reach-Shared (suc k) (state a b m sv cs) reached in
    elim (server-Goes k a b m sv cs h (Reach-Signals (suc k) (state a b m sv cs) reached)) [
      | inl (t, e) ↦ let same : t ≡ codes "hello" = rw e at (h.tells) in inl (e ∙ ap removed same)
      | inr goes ↦ inr goes
    ]

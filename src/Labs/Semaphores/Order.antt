-- ===== src/Labs/Semaphores/Order.antt =====
-- The order that the semaphores of labs/2016A7PS0064P_lab6/code/sharedmemory keep.
use network_programming_assi.Base.{
  ℕ, zero, suc, ◌⊎◌, inl, inr, ◌+◌, ◌<◌, ◌≤◌, ◌≡◌, refl, ap, ◌∙◌, List, [], ◌∷◌, ◌++◌, Str, codes,
  before, replicate, arith,
}
use network_programming_assi.Labs.Semaphores.{
  Server, waits, reads, told, freed, Client, starts, writes, wrote, ended, State, state, Step,
  server_enter, server_print, server_leave, server_fail, server_remove, client_enter,
  client_enter_late, client_write, client_leave, client_leave_late, removed, Present, start, Reach,
  begin, then, busy, written, total, held, Waits, Tells,
}

pub record IsShared (a b : ℕ) (m : Str) (sv : Server) (cs : List Client) : Type 0 where
  pub counted : Present sv → a ≡ total busy cs + held sv
  pub alone : Present sv → total busy cs ≤ 1
  pub filled : 0 < total written cs → m ≡ codes "hello"
  pub quiet : total written cs ≡ 0 → (b ≡ 0) × Waits sv
  pub tells : Tells sv

abbrev pub Shared : State → Type 0
Shared (state a b m sv cs) = IsShared a b m sv cs

pub total-replace :
    (f : Client → ℕ) (xs ys : List Client) (c d : Client)
    → total f (xs ++ d ∷ ys) + f c ≡ total f (xs ++ c ∷ ys) + f d
unfolding total
total-replace f [] ys c d = omega arith
total-replace f (x ∷ xs) ys c d = omega (arith, total-replace f xs ys c d)

positive : (n : ℕ) → (n ≡ 0 → ⊥) → 0 < n
positive zero h = absurd (h refl)
positive (suc n) h = omega arith

before_hello : before 0 (codes "hello") ≡ codes "hello"
unfolding before
before_hello = refl

step-Shared : (s s' : State) → Step s s' → Shared s → Shared s'
step-Shared _ _ (server_enter {a} {b} {m} {cs}) h = record {
  counted = λ p. omega (arith, h.counted tt);
  alone = h.alone;
  filled = h.filled;
  quiet = λ none_left. absurd (omega (arith, (h.quiet none_left).0));
  tells = tt;
}
step-Shared _ _ (server_print {a} {b} {m} {cs}) h =
    let some_written = positive (total written cs) (λ none_left. (h.quiet none_left).1) in
    record {
      counted = h.counted;
      alone = h.alone;
      filled = h.filled;
      quiet = λ none_left. absurd ((h.quiet none_left).1);
      tells = ap (before 0) (h.filled some_written) ∙ before_hello;
    }
step-Shared _ _ server_leave h = record {
  counted = λ p. omega (arith, h.counted tt);
  alone = h.alone;
  filled = h.filled;
  quiet = λ none_left. absurd ((h.quiet none_left).1);
  tells = h.tells;
}
step-Shared _ _ server_fail h = absurd (omega (arith, h.counted tt))
step-Shared _ _ server_remove h = record {
  counted = λ p. absurd p;
  alone = λ p. absurd p;
  filled = h.filled;
  quiet = λ none_left. absurd ((h.quiet none_left).1);
  tells = h.tells;
}
step-Shared _ _ (client_enter xs ys there) h =
    let inside = total-replace busy xs ys starts writes in
    let done = total-replace written xs ys starts writes in
    record {
      counted = λ p. omega (arith, h.counted there, inside);
      alone = λ p. omega (arith, h.counted there, inside);
      filled = λ more. h.filled (omega (arith, done, more));
      quiet = λ none_left. h.quiet (omega (arith, done, none_left));
      tells = h.tells;
    }
step-Shared _ _ (client_enter_late xs ys) h =
    let done = total-replace written xs ys starts writes in
    record {
      counted = λ p. absurd p;
      alone = λ p. absurd p;
      filled = λ more. h.filled (omega (arith, done, more));
      quiet = λ none_left. h.quiet (omega (arith, done, none_left));
      tells = h.tells;
    }
step-Shared _ _ (client_write xs ys) h =
    let inside = total-replace busy xs ys writes wrote in
    let done = total-replace written xs ys writes wrote in
    record {
      counted = λ p. omega (arith, h.counted p, inside);
      alone = λ p. omega (arith, h.alone p, inside);
      filled = λ more. refl;
      quiet = λ none_left. absurd (omega (arith, done, none_left));
      tells = h.tells;
    }
step-Shared _ _ (client_leave xs ys there) h =
    let inside = total-replace busy xs ys wrote ended in
    let done = total-replace written xs ys wrote ended in
    let more = total-replace written xs ys starts ended in
    record {
      counted = λ p. omega (arith, h.counted there, inside);
      alone = λ p. omega (arith, h.alone there, inside);
      filled = λ some_done. h.filled (omega (arith, done, some_done));
      quiet = λ none_left. absurd (omega (arith, more, none_left));
      tells = h.tells;
    }
step-Shared _ _ (client_leave_late xs ys) h =
    let done = total-replace written xs ys wrote ended in
    let more = total-replace written xs ys starts ended in
    record {
      counted = λ p. absurd p;
      alone = λ p. absurd p;
      filled = λ some_done. h.filled (omega (arith, done, some_done));
      quiet = λ none_left. absurd (omega (arith, more, none_left));
      tells = h.tells;
    }

pub total-starts : (f : Client → ℕ) (k : ℕ) → f starts ≡ 0 → total f (replicate k starts) ≡ 0
unfolding total
total-starts f zero e = refl
total-starts f (suc k) e = omega (arith, e, total-starts f k e)

pub Reach-Shared : (k : ℕ) (s : State) → Reach k s → Shared s
unfolding start
Reach-Shared k _ begin =
    let inside = total-starts busy k refl in
    let done = total-starts written k refl in
    record {
      counted = λ p. omega (arith, inside);
      alone = λ p. omega (arith, inside);
      filled = λ more. absurd (omega (arith, done, more));
      quiet = λ none_left. (refl, tt);
      tells = tt;
    }
Reach-Shared k _ (then {s} {s'} before_it step) = step-Shared s s' step (Reach-Shared k s before_it)

-- The semaphores are there, or the server has removed them.
pub Present-cases : (sv : Server) → Present sv ⊎ ((t : Str) × (sv ≡ removed t))
Present-cases waits = inl tt
Present-cases reads = inl tt
Present-cases (told t) = inl tt
Present-cases (freed t) = inl tt
Present-cases (removed t) = inr (t, refl)

-- Whatever the order in which the server and its clients go on, at most one client is between its
-- semops, unless the server has removed the semaphores; and what the server has printed, if it has,
-- is what the clients write, although the segment is empty at first.
pub Reach-Tells :
    (k a b : ℕ) (m : Str) (sv : Server) (cs : List Client)
    → Reach k (state a b m sv cs)
    → ((total busy cs ≤ 1) ⊎ ((t : Str) × (sv ≡ removed t))) × Tells sv
Reach-Tells k a b m sv cs reached =
    let h = Reach-Shared k (state a b m sv cs) reached in
    (elim (Present-cases sv) [ inl p ↦ inl (h.alone p) | inr gone ↦ inr gone ], h.tells)

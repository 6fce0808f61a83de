-- ===== src/Labs/Voting/Results.antt =====
-- What the parent of labs/2016A7PS0064P_lab3/voting.c prints at the end of a round, and that it gets
-- there.
use network_programming_assi.Base.{ℕ, ◌<◌, ◌≡◌, ◌⊎◌}
use network_programming_assi.Labs.Voting.{Result, draw, wins}

-- What the line says of `z` votes for 0 and `o` votes for 1.
abbrev pub IsTrue : ℕ → ℕ → Result → Type 0
IsTrue z o (draw a) = (z ≡ a) × (o ≡ a)
IsTrue z o (wins w a b) = (z ≡ a) × (o ≡ b) × (((w ≡ 0) × (o < z)) ⊎ ((w ≡ 1) × (z < o)))

-- ===== src/BigFs/DataServer/Naming.antt =====
-- The loops of Assignment2P1/fileDataServer.c that look for a name that no file has.
use mathlib.Core.Path.{subst}
use network_programming_assi.Base.{
  ℕ, zero, suc, ◌+◌, ◌<◌, ◌≤◌, ◌≡◌, ◌≢◌, ◌∙◌, sym, refl, Str, true, false, ok, fits, ltb, lt→ltb,
  length, arith, Bool-cases, inl, inr,
}
use network_programming_assi.BigFs.Receiver.Programs.{max_size}
use network_programming_assi.BigFs.DataServer.Files.{FileSystem, access}
use network_programming_assi.BigFs.DataServer.Server.{free_name, numbered}

pub fits-lt : (n : ℕ) (s : Str) → length s < n → fits n s ≡ ok tt
fits-lt n s h = rw (lt→ltb (length s) n h) refl

differ : ¬ (true ≡ false)
differ h = ground arith

module _ {Fs : Type 0} (os : FileSystem Fs) where
  -- The smallest number from `i` on whose name no file has.
  pub record Fresh (d : Fs) (dir : Str) (i n number : ℕ) : Type 0 where
    pub from : i ≤ number
    pub upto : number ≤ n
    pub free : access os d (numbered dir number) ≡ false
    pub taken : (j : ℕ) → i ≤ j → j < number → access os d (numbered dir j) ≡ true

  Fresh-step :
      (d : Fs) (dir : Str) (i n m : ℕ)
      → access os d (numbered dir i) ≡ true
      → Fresh d dir (i + 1) n m
      → Fresh d dir i n m
  Fresh-step d dir i n m used f = record {
    from = omega (arith, f.from);
    upto = f.upto;
    free = f.free;
    taken = λ j from lt. elim (Bool-cases (ltb i j)) [
      | inl e ↦ f.taken j (ground arith) lt
      | inr e ↦
          let same : i ≡ j = ground arith in
          subst (λ j. access os d (numbered dir j) ≡ true) same used
    ];
  }

  -- If the name with the number `n` is free, the names with the numbers up to `n` all fit the
  -- buffer, and there are rounds for the numbers from `i` to `n`, the loop ends with the free
  -- name that has the smallest number from `i` on.
  pub free_name-Fresh :
      (k : ℕ) (d : Fs) (dir : Str) (i n : ℕ)
      → access os d (numbered dir n) ≡ false
      → ((j : ℕ) → j ≤ n → length (numbered dir j) < max_size)
      → i ≤ n
      → n < i + k
      → (m : ℕ) × Fresh d dir i n m × (free_name os k d dir i ≡ ok (numbered dir m))
  unfolding free_name
  free_name-Fresh zero d dir i n free short le fuel = absurd (omega arith)
  free_name-Fresh (suc k) d dir i n free short le fuel =
      elim (Bool-cases (access os d (numbered dir i))) [
        | inl used ↦
            let ne : i ≢ n = λ e.
              differ (sym used ∙ subst (λ j. access os d (numbered dir j) ≡ false) (sym e) free) in
            let (m, f, run) =
              free_name-Fresh k d dir (i + 1) n free short (omega arith) (omega arith) in
            (
              m,
              Fresh-step d dir i n m used f,
              rw (fits-lt max_size (numbered dir i) (short i le), used) run,
            )
        | inr unused ↦ (
          i,
          record {
            from = omega arith;
            upto = le;
            free = unused;
            taken = λ j from lt. absurd (omega arith);
          },
          rw (fits-lt max_size (numbered dir i) (short i le), unused) refl,
        )
      ]

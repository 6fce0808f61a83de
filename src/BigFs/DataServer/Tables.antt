-- ===== src/BigFs/DataServer/Tables.antt =====
-- A disk that is a table from paths to texts, to try Assignment2P1/fileDataServer.c on.
use mathlib.Core.Path.{subst}
use network_programming_assi.Base.{
  ℕ, ◌+◌, ◌<◌, ◌≤◌, ◌≡◌, ◌≢◌, refl, ap, sym, ◌∙◌, Str, str_eq, str_eq_refl, str_eq→eq, codes,
  Option, none, some, false, if◌then◌else◌, length, arith, Bool-cases, inl, inr,
}
use network_programming_assi.Base.Decimal.{show_nat}
use network_programming_assi.BigFs.Receiver.Programs.{max_size}
use network_programming_assi.BigFs.DataServer.Files.{FileSystem, access}
use network_programming_assi.BigFs.DataServer.Server.{numbered}
use network_programming_assi.BigFs.DataServer.Storing.{Writable}

abbrev pub Table : Type 0
Table = Str → Option Str

abbrev pub update : Table → Str → Option Str → Table
update d p o q = if str_eq p q then o else d q

abbrev pub look_up : Str → Option Table → Option Str
look_up q none = none
look_up q (some d) = d q

pub update_self : (d : Table) (p : Str) (o : Option Str) → update d p o p ≡ o
update_self d p o = rw (str_eq_refl p) refl

pub update_ne : (d : Table) (p q : Str) (o : Option Str) → p ≢ q → update d p o q ≡ d q
update_ne d p q o ne = elim (Bool-cases (str_eq p q)) [
  | inl e ↦ absurd (ne (str_eq→eq p q e))
  | inr e ↦ rw e refl
]

abbrev pub tables : FileSystem Table
tables = record {
  contents = λ d p. d p;
  save = λ d p text. some (update d p (some text));
  delete = λ d p. some (update d p none);
  contents-save = λ d p text d' e. sym (ap (look_up p) e) ∙ update_self d p (some text);
  contents-save_ne = λ d p text q d' e ne. sym (ap (look_up q) e) ∙ update_ne d p q (some text) ne;
  contents-delete = λ d p d' e. sym (ap (look_up p) e) ∙ update_self d p none;
  contents-delete_ne = λ d p q d' e ne. sym (ap (look_up q) e) ∙ update_ne d p q none ne;
}

-- A disk that has `data/f`, with the text `old`.
abbrev pub disk : Table
disk p = if str_eq (codes "data/f") p then some (codes "old") else none

pub tables-Writable : Writable tables
tables-Writable d p text = (update d p (some text), refl)

pub numbered_short : (j : ℕ) → j ≤ 0 → length (numbered (codes "data/f") j) + 20 < max_size
numbered_short j le =
    let first : 0 ≡ j = omega arith in
    subst (λ j. length (numbered (codes "data/f") j) + 20 < max_size) first
      (unfold numbered show_nat in omega arith)

pub free_first : access tables disk (numbered (codes "data/f") 0) ≡ false
unfolding numbered show_nat str_eq
free_first = refl

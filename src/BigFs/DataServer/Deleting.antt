-- ===== src/BigFs/DataServer/Deleting.antt =====
-- What `removefile` of Assignment2P1/fileDataServer.c does with the files.
use mathlib.Core.Path.{subst}
use network_programming_assi.Base.{
  ◌<◌, ◌≡◌, ◌≢◌, refl, sym, ◌∙◌, Str, str_eq, str_eq_iff, str_eq→eq, if◌then◌else◌, ap, none,
  Option-cases, List, ◌∷◌, ◌++◌, true, false, ok, length, Bool-cases, inl, inr, arith,
}
use network_programming_assi.BigFs.Receiver.Programs.{max_size}
use network_programming_assi.BigFs.DataServer.Files.{FileSystem, access, is_some}
use network_programming_assi.BigFs.DataServer.Server.{DataServer, kept, remove_file}
use network_programming_assi.BigFs.DataServer.Naming.{fits-lt}
use network_programming_assi.BigFs.DataServer.Storing.{receive-lt}

differ : {A : Type 0} → true ≡ false → A
differ h = ground arith

module _ {Fs : Type 0} (os : FileSystem Fs) where
  -- Every file that exists can be deleted.
  abbrev pub Deletable : Type 0
  Deletable = (d : Fs) (p : Str) → os.delete d p ≡ none → os.contents d p ≡ none

  -- The files `d'` are those of `d` without `p`.
  pub record Without (d : Fs) (p : Str) (d' : Fs) : Type 0 where
    pub gone : os.contents d' p ≡ none
    pub others : (q : Str) → p ≢ q → os.contents d' q ≡ os.contents d q

  kept-Without : Deletable → (d : Fs) (p : Str) → Without d p (kept d (os.delete d p))
  kept-Without deletable d p = elim (Option-cases (os.delete d p)) [
    | inl e ↦ rw e (record { gone = deletable d p e; others = λ q ne. refl })
    | inr (d', e) ↦ rw e (record {
      gone = os.contents-delete d p d' e;
      others = λ q ne. os.contents-delete_ne d p q d' e ne;
    })
  ]

  still_none :
      (d : Fs) (p q : Str) (d' : Fs)
      → Without d p d'
      → os.contents d q ≡ none
      → os.contents d' q ≡ none
  still_none d p q d' without before = elim (Bool-cases (str_eq p q)) [
    | inl e ↦ subst (λ q. os.contents d' q ≡ none) (str_eq→eq p q e) without.gone
    | inr e ↦ without.others q (λ same. differ (sym ((str_eq_iff p q).1 same) ∙ e)) ∙ before
  ]

  absent : (d : Fs) (p : Str) → access os d p ≡ false → os.contents d p ≡ none
  absent d p e = elim (Option-cases (os.contents d p)) [
    | inl n ↦ n
    | inr (t, f) ↦ differ (sym (ap is_some f) ∙ e)
  ]

  -- The files without the name, if there was such a file.
  first : Fs → Str → Fs
  first d name = if access os d name then kept d (os.delete d name) else d

  first-Without : Deletable → (d : Fs) (name : Str) → Without d name (first d name)
  unfolding first
  first-Without deletable d name = elim (Bool-cases (access os d name)) [
    | inl e ↦ rw e (kept-Without deletable d name)
    | inr e ↦ rw e (record { gone = absent d name e; others = λ q ne. refl })
  ]

  -- The state after `removefile` of the name and the chunk's number.
  pub record Deleted (s : DataServer Fs) (name chunks : Str) (s' : DataServer Fs) : Type 0 where
    pub name_gone : os.contents s'.disk name ≡ none
    pub chunk_gone : os.contents s'.disk (name ++ chunks) ≡ none
    pub others :
        (q : Str) → name ≢ q → name ++ chunks ≢ q → os.contents s'.disk q ≡ os.contents s.disk q
    pub silent : s'.sent ≡ s.sent

  -- If files that exist can be deleted and the strings fit the buffers, `removefile` ends normally,
  -- whether the files exist or not; then neither the name nor the chunk is a file, all other
  -- files are as they were, and the client is told nothing.
  pub remove_file-Deleted :
      (d : Fs) (sent name chunks : Str) (rest : List Str)
      → length (name ++ chunks) < max_size
      → length name < max_size
      → length chunks < 10
      → Deletable
      → (s' : DataServer Fs) × (remove_file os
            (record { input = name ∷ chunks ∷ rest; disk = d; sent = sent })
          ≡ ok s')
        × Deleted (record { input = name ∷ chunks ∷ rest; disk = d; sent = sent }) name chunks s'
  unfolding remove_file first
  remove_file-Deleted d sent name chunks rest both_lt name_lt chunks_lt deletable =
      let without = first-Without deletable d name in
      let without' = kept-Without deletable (first d name) (name ++ chunks) in
      (
        record {
          input = rest;
          disk = kept (first d name) (os.delete (first d name) (name ++ chunks));
          sent = sent;
        },
        rw
            (
              receive-lt max_size name (chunks ∷ rest) d sent name_lt,
              receive-lt 10 chunks rest d sent chunks_lt,
              fits-lt max_size (name ++ chunks) both_lt,
            )
            refl,
        record {
          name_gone = still_none (first d name) (name ++ chunks) name _ without' without.gone;
          chunk_gone = without'.gone;
          others = λ q ne ne'. without'.others q ne' ∙ without.others q ne;
          silent = refl;
        },
      )

-- ===== src/BigFs/DataServer/Files.antt =====
-- The files of the operating system that Assignment2P1/fileDataServer.c works on: what it relies on
-- of `access`, `fopen`, `read`, `fputs` and `remove`.
use network_programming_assi.Base.{Str, Bool, true, false, Option, none, some, ◌≡◌, ◌≢◌}

abbrev pub is_some {ℓ} : {A : Type ℓ} → Option A → Bool
is_some none = false
is_some (some a) = true

-- `contents` is the text of a file that exists; `save` is fopen(path, "w"), the text put into it
-- and `fclose`, or none where `fopen` fails; `delete` is `remove`, or none where it fails.
pub record FileSystem (Fs : Type 0) : Type 0 where
  pub contents : Fs → Str → Option Str
  pub save : Fs → Str → Str → Option Fs
  pub delete : Fs → Str → Option Fs
  pub contents-save :
      (d : Fs) (p text : Str) (d' : Fs) → save d p text ≡ some d' → contents d' p ≡ some text
  pub contents-save_ne :
      (d : Fs) (p text q : Str) (d' : Fs)
      → save d p text ≡ some d'
      → p ≢ q
      → contents d' q ≡ contents d q
  pub contents-delete : (d : Fs) (p : Str) (d' : Fs) → delete d p ≡ some d' → contents d' p ≡ none
  pub contents-delete_ne :
      (d : Fs) (p q : Str) (d' : Fs) → delete d p ≡ some d' → p ≢ q → contents d' q ≡ contents d q

module _ {Fs : Type 0} (os : FileSystem Fs) where
  -- access(path, F_OK) != -1
  abbrev pub access : Fs → Str → Bool
  access d p = is_some (os.contents d p)

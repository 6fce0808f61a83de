-- ===== src/BigFs/DataServer/Server.antt =====
-- The commands of Assignment2P1/fileDataServer.c. `input` holds the strings that the client sends
-- and the server has not read, `sent` the bytes written to it.
use network_programming_assi.Base.{
  ℕ, zero, suc, ◌+◌, ◌*◌, ◌/◌, Str, str_eq, codes, fits, Option, none, some, List, [], ◌∷◌, ◌++◌,
  ◌&&◌, Outcome, ok, fault, blocked, stopped, out_of_fuel, ◌>>=◌, ◌>>◌, ◌==◌, leb, if◌then◌else◌,
  take, drop, length,
}
use network_programming_assi.Base.Decimal.{show_nat}
use network_programming_assi.BigFs.Receiver.Programs.{max_size, block_size}
use network_programming_assi.BigFs.DataServer.Files.{FileSystem, access}

pub record DataServer (Fs : Type 0) : Type 0 where
  pub input : List Str
  pub disk : Fs
  pub sent : Str

-- sprintf(str, "%s(%d)", dir, i)
unfoldable pub numbered : Str → ℕ → Str
numbered dir i = dir ++ codes "(" ++ show_nat i ++ codes ")"

-- What the loop of `printfile` writes of the bytes that are left, `unit` at a time.
unfoldable pub pieces : ℕ → ℕ → Str → Outcome Str
pieces zero unit s = out_of_fuel
pieces (suc k) unit [] = ok []
pieces (suc k) unit (c ∷ s) =
    if leb (length (c ∷ s)) unit
    then ok ((c ∷ s) ++ 0 ∷ 0 ∷ [])
    else do rest ← pieces k unit (drop unit (c ∷ s)); ok (take unit (c ∷ s) ++ 0 ∷ rest)

-- What `fgetc` into a `char` gives before the value that equals EOF: the byte 255 does too.
unfoldable pub until_eof : Str → Str
until_eof [] = []
until_eof (c ∷ s) = let rest = until_eof s in if c == 255 then [] else c ∷ rest

abbrev pub opened {ℓ} : {A : Type ℓ} → Option A → Outcome A
opened none = fault
opened (some a) = ok a

abbrev pub or_exit {ℓ} : {A : Type ℓ} → Option A → Outcome A
or_exit none = stopped
or_exit (some a) = ok a

-- What `printfile` writes of a file with this text.
unfoldable pub print_pieces : ℕ → Str → Outcome Str
print_pieces block text = pieces (suc (length (take block text))) (block / 1000) (take block text)

abbrev pub kept : {Fs : Type 0} → Fs → Option Fs → Fs
kept d none = d
kept d (some d') = d'

module _ {Fs : Type 0} where
  -- copyToString(buf) with `char buf[cap]`
  unfoldable pub receive : ℕ → DataServer Fs → Outcome (Str × DataServer Fs)
  receive cap s = elim s.input [
    | [] ↦ blocked
    | w ∷ ws ↦ do fits cap w; ok (w, record s { input = ws })
  ]

  abbrev pub send : Str → DataServer Fs → DataServer Fs
  send bytes s = record s { sent = s.sent ++ bytes }

module _ {Fs : Type 0} (os : FileSystem Fs) where
  -- The loop that looks for a name that no file has, from the number `i` on.
  unfoldable pub free_name : ℕ → Fs → Str → ℕ → Outcome Str
  free_name zero d dir i = out_of_fuel
  free_name (suc k) d dir i =
      let rest = free_name k d dir (i + 1) in
      fits max_size (numbered dir i)
      >> (if access os d (numbered dir i) then rest else ok (numbered dir i))

  -- `limit` bounds how many names are tried.
  unfoldable pub place : ℕ → Fs → Str → Str → Outcome Str
  place limit d dir count =
      if str_eq count (codes "0") && access os d dir then free_name limit d dir 0 else ok dir

  unfoldable pub to_bigfs : ℕ → DataServer Fs → Outcome (DataServer Fs)
  to_bigfs limit s = do
    (temp_buf, s) ← receive (2 * block_size) s
    (name, s) ← receive max_size s
    (count, s) ← receive 10 s
    (num, s) ← receive 20 s
    fits max_size (codes "data/" ++ name)
    dir ← place limit s.disk (codes "data/" ++ name) count
    d ← opened (os.save s.disk dir [])
    fits max_size (dir ++ num)
    d ← opened (os.save d (dir ++ num) temp_buf)
    ok (send (dir ++ 0 ∷ []) (record s { disk = d }))

  unfoldable pub print_file : DataServer Fs → Outcome (DataServer Fs)
  print_file s = do
    (data_loc, s) ← receive max_size s
    text ← opened (os.contents s.disk data_loc)
    out ← print_pieces block_size text
    ok (send out s)

  unfoldable pub remove_file : DataServer Fs → Outcome (DataServer Fs)
  remove_file s = do
    (name, s) ← receive max_size s
    (chunks, s) ← receive 10 s
    fits max_size (name ++ chunks)
    let d = if access os s.disk name then kept s.disk (os.delete s.disk name) else s.disk
    ok (record s { disk = kept d (os.delete d (name ++ chunks)) })

  -- Where the copy goes: a new name, which the client is told, or the name that the client gives.
  unfoldable pub target : ℕ → Str → Str → DataServer Fs → Outcome (Str × DataServer Fs)
  target limit name chunks s =
      if str_eq chunks (codes "0")
      then (free_name limit s.disk name 0 >>= λ str. ok (str, send (str ++ 0 ∷ []) s))
      else (fits max_size (numbered name 0) >> receive max_size s)

  unfoldable pub copy_file : ℕ → DataServer Fs → Outcome (DataServer Fs)
  copy_file limit s = do
    (name, s) ← receive max_size s
    (chunks, s) ← receive 10 s
    (copy, s) ← target limit name chunks s
    fits max_size (name ++ chunks)
    opening ← or_exit (os.contents s.disk (name ++ chunks))
    d ← opened (os.save s.disk copy [])
    fits max_size (copy ++ chunks)
    d ← or_exit (os.save d (copy ++ chunks) [])
    text ← opened (os.contents d (name ++ chunks))
    d ← opened (os.save d (copy ++ chunks) (until_eof text))
    ok (record s { disk = d })

  -- A round of the loop of `main`.
  unfoldable pub command : ℕ → DataServer Fs → Outcome (DataServer Fs)
  command limit s = do
    (choice, s) ← receive max_size s
    if str_eq choice (codes "tobigfs")
        then to_bigfs limit s
        else if str_eq choice (codes "cat")
        then print_file s
        else if str_eq choice (codes "rm")
        then remove_file s
        else if str_eq choice (codes "cp")
        then copy_file limit s
        else ok s

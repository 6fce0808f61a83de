-- ===== src/BigFs/Client/Chunks.antt =====
-- The loops over the chunks of a file in Assignment2P1/Client.c.
use network_programming_assi.Base.{
  ℕ, zero, suc, ◌+◌, ◌-◌, ◌/◌, Str, codes, fits, split_on, last_or, List, [], ◌∷◌, ◌++◌, Outcome,
  ok, out_of_fuel, ◌>>=◌, ◌>>◌, ◌==◌, leb, if◌then◌else◌, take, drop, length,
}
use network_programming_assi.Base.Decimal.{show_nat}
use network_programming_assi.BigFs.Receiver.Programs.{max_size, block_size}
use network_programming_assi.BigFs.Client.State.{
  name_server, data_server, Client, send, send_string, data_receive, data_gather, advance,
}

-- What the loop of `transfertoBigFS` writes of the bytes that are left, `unit` at a time.
unfoldable pub portions : ℕ → ℕ → Str → Outcome (List Str)
portions zero unit s = out_of_fuel
portions (suc k) unit [] = ok []
portions (suc k) unit (c ∷ s) =
    if leb (length (c ∷ s)) unit
    then ok ((c ∷ s) ∷ [])
    else do rest ← portions k unit (drop unit (c ∷ s)); ok (take unit (c ∷ s) ∷ rest)

unfoldable pub send_portions : ℕ → List Str → Client → Client
send_portions ptr [] c = c
send_portions ptr (w ∷ ws) c = send_portions ptr ws (send (data_server ptr) w c)

-- The last piece of a path, which the loop over `strsep` leaves in `dir`.
abbrev pub base_name : Str → Str
base_name path = last_or [] (split_on b'/' path)

-- The first chunk's location goes to the name server, and its name is used for the later chunks.
unfoldable pub report : ℕ → Str → Str → Client → Str × Client
report zero data_loc dir c = (base_name data_loc, send_string name_server data_loc c)
report (suc i) data_loc dir c = (dir, c)

-- The loop of `transfertoBigFS` from the chunk `i` on, with `k` chunks to go and `text` not read.
unfoldable pub upload : ℕ → ℕ → ℕ → ℕ → Str → Str → Client → Outcome Client
upload zero i ptr count dir text c = ok c
upload (suc k) i ptr count dir text c = do
  let c = send_string (data_server ptr) (codes "tobigfs") c
  let chunk = take block_size text
  ws ← portions (suc (length chunk)) (block_size / 1000) chunk
  let c = send (data_server ptr) (0 ∷ []) (send_portions ptr ws c)
  let c = send_string (data_server ptr) dir c
  fits 10 (show_nat count)
  let c = send_string (data_server ptr) (show_nat count) c
  fits 10 (show_nat i)
  let c = send_string (data_server ptr) (show_nat i) c
  (data_loc, c) ← data_receive max_size ptr c
  let (dir, c) = report i data_loc dir c
  next ← advance c.servers ptr
  let count = if ptr == c.servers - 1 then count + 1 else count
  upload k (i + 1) next count dir (drop block_size text) c

-- The requests of `printfile` and `savefile`: `k` chunks from `i` on.
unfoldable pub ask : ℕ → ℕ → ℕ → Str → Client → Outcome Client
ask zero i ptr file_name c = ok c
ask (suc k) i ptr file_name c = do
  let c = send_string (data_server ptr) (codes "cat") c
  let c = send (data_server ptr) file_name c
  fits 10 (show_nat i)
  let c = send_string (data_server ptr) (show_nat i) c
  next ← advance c.servers ptr
  ask k (i + 1) next file_name c

-- The replies to them.
unfoldable pub fetch : ℕ → ℕ → Client → Outcome (Str × Client)
fetch zero ptr c = ok ([], c)
fetch (suc k) ptr c = do
  (t, c) ← data_gather ptr c
  next ← advance c.servers ptr
  (rest, c) ← fetch k next c
  ok (t ++ rest, c)

-- The loop of `removefile`.
unfoldable pub remove_chunks : ℕ → ℕ → ℕ → Str → Client → Outcome Client
remove_chunks zero i ptr loc c = ok c
remove_chunks (suc k) i ptr loc c = do
  let c = send_string (data_server ptr) (codes "rm") c
  let c = send_string (data_server ptr) loc c
  fits 10 (show_nat i)
  let c = send_string (data_server ptr) (show_nat i) c
  next ← advance c.servers ptr
  remove_chunks k (i + 1) next loc c

-- The first data server chooses the copy's location; the others are told.
unfoldable pub copy_location : ℕ → ℕ → Str → Client → Outcome (Str × Client)
copy_location zero ptr loca c = do
  (loca, c) ← data_receive max_size ptr c
  ok (loca, send_string name_server loca c)
copy_location (suc i) ptr loca c = ok (loca, send_string (data_server ptr) loca c)

-- The loop of `copyfile`.
unfoldable pub copy_chunks : ℕ → ℕ → ℕ → Str → Str → Client → Outcome Client
copy_chunks zero i ptr loc loca c = ok c
copy_chunks (suc k) i ptr loc loca c = do
  let c = send_string (data_server ptr) (codes "cp") c
  let c = send_string (data_server ptr) loc c
  fits 10 (show_nat i)
  let c = send_string (data_server ptr) (show_nat i) c
  (loca, c) ← copy_location i ptr loca c
  next ← advance c.servers ptr
  copy_chunks k (i + 1) next loc loca c

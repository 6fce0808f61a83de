-- ===== src/BigFs/Receiver/Buffers.antt =====
-- The buffers of Assignment2P1 and the functions on them. The two branches of the source on
-- `cursel` and on `bufsel` are one function of the half that is selected.
use network_programming_assi.Base.{
  ℕ, zero, suc, ◌+◌, ◌-◌, ◌*◌, Str, [], ◌∷◌, ◌++◌, Bool, true, false, not, ◌&&◌, Outcome, ok,
  blocked, out_of_fuel, ◌>>=◌, ◌==◌, ltb, leb, if◌then◌else◌, length, take,
}

-- `rbuf1`, `start1` and `cur1`, or `rbuf2`, `start2` and `cur2`. `start` is where the next bytes go
-- and `cur` is where the next byte is taken.
pub record Half : Type 0 where
  pub bytes : ℕ → ℕ
  pub start : ℕ
  pub cur : ℕ

-- `false` stands for 0, the first half.
pub record Buffers : Type 0 where
  pub first : Half
  pub second : Half
  pub bufsel : Bool
  pub cursel : Bool

abbrev pub half : Bool → Buffers → Half
half false s = s.first
half true s = s.second

abbrev pub set_half : Bool → Half → Buffers → Buffers
set_half false h s = record s { first = h }
set_half true h s = record s { second = h }

-- The static initialisers.
abbrev pub empty_half : Half
empty_half = record { bytes = λ _. 0; start = 0; cur = 0 }

abbrev pub empty : Buffers
empty = record { first = empty_half; second = empty_half; bufsel = false; cursel = false }

-- `read` puts the chunk at `bytes + start`.
unfoldable pub store : ℕ → Str → (ℕ → ℕ) → ℕ → ℕ
store at [] bytes i = bytes i
store at (b ∷ chunk) bytes i = if i == at then b else store (at + 1) chunk bytes i

unfoldable pub fill : Str → Half → Half
fill chunk h = record h { bytes = store h.start chunk h.bytes; start = h.start + length chunk }

-- The reader leaves a half that holds more than `limit` bytes.
unfoldable pub switch : ℕ → Buffers → Buffers
switch limit s =
    if ltb limit (half s.bufsel s).start
    then record (set_half (not s.bufsel) (record (half (not s.bufsel) s) { start = 0 }) s) {
      bufsel = not s.bufsel;
    }
    else s

-- One round of the thread that reads the socket. `chunk` is what has arrived; `read` takes what
-- there is room for, and nothing when it fails or would block.
unfoldable pub read_round : ℕ → Str → Buffers → Buffers
read_round limit chunk s =
    let s = switch limit s in
    let h = half s.bufsel s in set_half s.bufsel (fill (take (2 * limit - h.start) chunk) h) s

-- What a half gave to the string, and whether the copy goes on in the other half.
pub record Taken : Type 0 where
  pub text : Str
  pub cur : ℕ
  pub crossed : Bool

-- The loop of `copyToString` in one half. The thread that reads the socket does not run meanwhile:
-- `blocked` is where the source spins until it does.
unfoldable pub copy_half : ℕ → ℕ → Half → ℕ → Str → Outcome Taken
copy_half zero limit h cur buf = out_of_fuel
copy_half (suc k) limit h cur buf =
    if h.bytes cur == 0
    then ok (record { text = buf; cur = cur; crossed = false })
    else if leb h.start (cur + 1) && ltb limit h.start
    then ok (record { text = buf ++ h.bytes cur ∷ []; cur = cur + 1; crossed = true })
    else if leb h.start (cur + 1)
    then blocked
    else copy_half k limit h (cur + 1) (buf ++ h.bytes cur ∷ [])

-- The end of a string: its NUL is passed, the other half will be taken from its beginning, and a
-- half that is used up is left.
unfoldable pub finish : ℕ → ℕ → Buffers → Buffers
finish limit cur s =
    let sel = s.cursel in
    let here = record (half sel s) { cur = cur + 1 } in
    let there = record (half (not sel) s) { cur = 0 } in
    let moved = leb here.start (cur + 1) && ltb limit here.start in
    record (set_half (not sel) there (set_half sel here s)) {
      cursel = if moved then not sel else sel;
    }

unfoldable pub cross : ℕ → Buffers → Buffers
cross cur s = record (set_half s.cursel (record (half s.cursel s) { cur = cur }) s) {
  cursel = not s.cursel;
}

-- `copyToString`; the first argument bounds how often it calls itself.
unfoldable pub copy_string : ℕ → ℕ → Str → Buffers → Outcome (Str × Buffers)
copy_string zero limit buf s = out_of_fuel
copy_string (suc k) limit buf s =
    let h = half s.cursel s in
    if ltb h.start limit && leb h.start h.cur then blocked else do
      t ← copy_half (suc (suc h.start)) limit h h.cur buf
      if t.crossed
          then copy_string k limit t.text (cross t.cur s)
          else ok (t.text, finish limit t.cur s)

abbrev pub copy_to_string : ℕ → Buffers → Outcome (Str × Buffers)
copy_to_string limit = copy_string 3 limit []

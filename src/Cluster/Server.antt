-- ===== src/Cluster/Server.antt =====
-- The loop of Assignment1P2/clustershell_server.c over the commands that
-- Assignment1P2/clustershell_client.c sends.
use network_programming_assi.Base.{
  ℕ, ◌+◌, ◌<◌, ◌≤◌, ◌≡◌, refl, Bool, true, false, not, List, [], ◌∷◌, ◌++◌, Outcome, ok, ◌>>=◌,
  ◌>>◌, require, Str, codes, str_eq, before, before-append, Without, ltb, lt→ltb, if◌then◌else◌,
  length, length-append, arith,
}
use network_programming_assi.Cluster.Arguments.{words, parse_args, parse_args-words}
use network_programming_assi.Cluster.Commands.{Action, exec, feed, run_args}

-- The server starts anew when the client has closed the connection, or answers a command.
pub data Answer : Type 0 where
  restarted : Answer
  answered : List Action → Answer

-- malloc(n) gives a block of `usable n` bytes.
module _ (usable : ℕ → ℕ) where
  -- The command itself, and the input that is read for it if it stands after a pipe.
  unfoldable pub run_request : Bool → Str → Action → Outcome (List Action)
  run_request false input (exec ws) = ok (exec ws ∷ [])
  run_request true input (exec ws) = do
    require (ltb (length input) (usable 1024))
    ok (feed (before 0 input) ∷ exec ws ∷ [])
  run_request piped input a = ok (a ∷ [])

  -- A round of the loop, with the bytes that its reads of the flag, the message and the input give.
  -- A NUL is written after each of them.
  unfoldable pub serve : Str → Str → Str → Outcome Answer
  serve [] bytes input = ok restarted
  serve (c ∷ flag) bytes input = do
    require (ltb (length (c ∷ flag)) (usable 2))
    let piped = not (str_eq (before 0 (c ∷ flag)) (codes "0"))
    require (ltb (length bytes) (usable 1024))
    let args = parse_args (before 0 bytes)
    require args.1
    a ← run_args args.0
    acts ← run_request piped input a
    ok (answered acts)

-- What the client sends: `temppipe` with its NUL, and the 1024 bytes of `temp_msg`, which are
-- indeterminate after the text and its NUL.
unfoldable pub flag_bytes : Bool → Str
flag_bytes piped = (if piped then b'1' else b'0') ∷ 0 ∷ []

unfoldable pub message_bytes : Str → Str → Str
message_bytes msg junk = msg ++ 0 ∷ junk

-- What the server does about a command.
abbrev pub served : Bool → Str → Action → List Action
served false input (exec ws) = exec ws ∷ []
served true input (exec ws) = feed (before 0 input) ∷ exec ws ∷ []
served piped input a = a ∷ []

run_request-served :
    (usable : ℕ → ℕ) (piped : Bool) (input : Str) (a : Action)
    → length input < usable 1024
    → run_request usable piped input a ≡ ok (served piped input a)
unfolding run_request
run_request-served usable false input (exec ws) small = refl
run_request-served usable true input (exec ws) small =
    rw (lt→ltb (length input) (usable 1024) small) refl
run_request-served usable piped input a small = refl

flag-piped : (piped : Bool) → not (str_eq (before 0 (flag_bytes piped)) (codes "0")) ≡ piped
unfolding flag_bytes before str_eq
flag-piped false = refl
flag-piped true = refl

-- If malloc gives a byte more than asked for, a command of at least one word and less than 1024
-- bytes that the client sends, whatever stands in its buffer after the text, makes the server do
-- what the client would do itself, with the text that was sent after it as the input of a
-- program that stands after a pipe.
pub serve-served :
    (usable : ℕ → ℕ) (piped : Bool) (msg junk input : Str) (a : Action)
    → 2 < usable 2
    → 1024 < usable 1024
    → length msg + 1 + length junk ≡ 1024
    → length input ≤ 1024
    → Without 0 msg
    → run_args (words msg) ≡ ok a
    → serve usable (flag_bytes piped) (message_bytes msg junk) input
      ≡ ok (answered (served piped input a))
unfolding serve flag_bytes message_bytes
serve-served usable piped msg junk input a more more' size small free good =
    rw
      (
        flag-piped piped,
        lt→ltb 2 (usable 2) more,
        lt→ltb (length (msg ++ 0 ∷ junk)) (usable 1024)
            (omega (arith, length-append msg (0 ∷ junk))),
        before-append 0 msg junk free,
        parse_args-words msg,
        good,
        run_request-served usable piped input a (omega arith),
      )
      refl

-- ===== src/Codex/Lines.antt =====
-- internal/codex/jsonrpc.go: the lines of the connection. The writer and the reader of the process's
-- pipes are streams of answers.
use agent_room.Prelude.{
  ℕ, ◌+◌, ◌-◌, ◌*◌, ◌^◌, Bool, true, false, not, ◌&&◌, List, [], ◌∷◌, ◌++◌, Option, none, some,
  ◌==◌, ltb, if◌then◌else◌, length,
}
pub mod Writing
pub mod Reading
use agent_room.Prelude.Int.{ℤ, pos, negsuc}

abbrev pub max_line : ℕ
max_line = 8388608

pub data LineError : Type 0 where
  line_too_long empty_line truncated_line end_of_file short_write no_progress message_too_large :
      LineError
  -- an error of a pipe, of the context, or the one that has ended the connection
  broken : ℕ → LineError

-- What `ReadSlice` answers: bytes that end with a newline, or those before its error.
pub data ReadError : Type 0 where
  no_error buffer_full eof : ReadError
  read_failed : ℕ → ReadError

pub record Fragment : Type 0 where
  pub bytes : List ℕ
  pub error : ReadError

-- A line with the fragments after it, an error, or a read that still waits.
pub data Line : Type 0 where
  line : List ℕ → List Fragment → Line
  failed : LineError → Line
  waiting : Line

abbrev pub newline : ℕ
newline = 10

unfoldable pub ends_line : List ℕ → Bool
ends_line [] = false
ends_line (b ∷ []) = b == newline
ends_line (b ∷ bs) = ends_line bs

-- All bytes but the last.
unfoldable pub without_last : List ℕ → List ℕ
without_last [] = []
without_last (b ∷ []) = []
without_last (b ∷ bs) = b ∷ without_last bs

-- The end of a fragment with no newline.
unfoldable pub end_of_read : ReadError → List ℕ → Line → Line
end_of_read no_error acc again = again
end_of_read buffer_full acc again = again
end_of_read eof [] again = failed end_of_file
end_of_read eof (b ∷ bs) again = failed truncated_line
end_of_read (read_failed e) acc again = failed (broken e)

-- `bytes.TrimSpace` of a line is empty.
module _ (is_blank : List ℕ → Bool) where
  unfoldable pub end_line : List ℕ → List Fragment → Line
  end_line acc rest = if is_blank acc then failed empty_line else line acc rest

  unfoldable pub take_fragment : Bool → List ℕ → List ℕ → ReadError → List Fragment → Line → Line
  unfolding end_line end_of_read
  take_fragment found acc payload error rest again =
      if ltb max_line (length acc + length payload)
      then failed line_too_long
      else if found
      then end_line (acc ++ payload) rest
      else end_of_read error (acc ++ payload) again

  -- The loop of `readJSONLLine`, with the line so far.
  unfoldable pub read_line : List ℕ → List Fragment → Line
  unfolding take_fragment ends_line without_last
  read_line acc [] = waiting
  read_line acc (f ∷ rest) =
      let found = ends_line f.bytes in
      let payload = if found then without_last f.bytes else f.bytes in
      take_fragment found acc payload f.error rest (read_line (acc ++ payload) rest)

-- A round of the loop of `writeJSONL`: the context or the connection has ended before it, or the
-- writer answers, perhaps with a negative count.
pub data Round : Type 0 where
  stopped : ℕ → Round
  wrote : ℤ → Option ℕ → Round

-- The bytes written and the error, or a write that still waits.
pub data Written : Type 0 where
  ended : ℕ → Option LineError → Written
  unfinished : Written

unfoldable pub after_round : ℕ → ℕ → Option ℕ → (ℕ → Written) → Written
after_round total n (some e) again = ended (total + n) (some (broken e))
after_round total n none again =
    if n == 0 then ended (total + n) (some no_progress) else again (total + n)

-- The loop, with the size of the line and the bytes written so far.
unfoldable pub write_loop : ℕ → List Round → ℕ → Written
unfolding after_round
write_loop size [] total = if ltb total size then unfinished else ended total none
write_loop size (stopped e ∷ rs) total =
    if ltb total size then ended total (some (broken e)) else ended total none
write_loop size (wrote (negsuc n) e ∷ rs) total =
    if ltb total size then ended total (some short_write) else ended total none
write_loop size (wrote (pos n) e ∷ rs) total =
    let next = after_round total n e (write_loop size rs) in
    if ltb total size
    then (if ltb (size - total) n then ended size (some short_write) else next)
    else ended total none

-- The first round: the call is marked as being written before the writer is asked, which can fail.
unfoldable pub first_round : Option ℕ → ℕ → List Round → Written
unfolding write_loop
first_round (some e) size (wrote n w ∷ rs) = ended 0 (some (broken e))
first_round begun size rs = write_loop size rs 0

-- `writeJSONL`: the payload and a newline, once the writer is this goroutine's (`gate` is the error
-- of the context or of the connection by then).
unfoldable pub write_jsonl : Option ℕ → Option ℕ → List ℕ → List Round → Written
unfolding first_round
write_jsonl gate begun payload rs =
    if ltb max_line (length payload) then ended 0 (some message_too_large) else elim gate [
      | some e ↦ ended 0 (some (broken e))
      | none ↦ first_round begun (length payload + 1) rs
    ]

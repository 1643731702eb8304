-- ===== src/Protocol/Tests.antt =====
-- The theorems on internal/protocol at concrete inputs: an envelope whose JSON is two bytes.
use agent_room.Prelude.{
  ℕ, ◌≡◌, refl, true, false, List, [], ◌∷◌, ◌++◌, Option, none, some, ◌==◌, if◌then◌else◌,
}
use agent_room.Prelude.Int.{pos}
use agent_room.Prelude.Text.{is_blank}
use agent_room.Protocol.Envelope.{Envelope, event, validate}
use agent_room.Protocol.Framing.{
  Codec, done, Reply, frame, read, read_full, read_body, uint32, decode_envelope, write_full,
}
use agent_room.Protocol.RoundTrip.{received, read-frame, IsPrefix, write_full-IsPrefix}

abbrev notice : Envelope
notice = record {
  version = 1;
  kind = event;
  id = "";
  method = "turn/running";
  requires = [];
  seq = some 7;
  body = b'{' ∷ b'}' ∷ [];
}

-- A JSON library for texts that begin with a 1: the rest is the body.
abbrev parse_notice : List ℕ → Option Envelope
parse_notice [] = none
parse_notice (b ∷ body) = if b == 1 then some (record notice { body = body }) else none

abbrev codec : Codec
codec = record {
  marshal = λ e. some (1 ∷ e.body);
  parse = parse_notice;
  valid_json = λ body. true;
  valid_utf8 = λ body. true;
}

abbrev bytes : List ℕ
bytes = 0 ∷ 0 ∷ 0 ∷ 3 ∷ 1 ∷ b'{' ∷ b'}' ∷ []

test_frame : frame codec notice ≡ done bytes
unfolding frame validate is_blank
test_frame = refl

read-frame_example :
    (body : List ℕ) × (some (1 ∷ b'{' ∷ b'}' ∷ []) ≡ some body)
    × (read codec 8388608 (bytes ++ 0 ∷ []) ≡ received codec 8388608 body (0 ∷ []))
read-frame_example = read-frame codec notice 8388608 (0 ∷ []) test_frame

test_read : read codec 8388608 (bytes ++ 0 ∷ []) ≡ done (notice, 0 ∷ [])
unfolding read read_full uint32 read_body decode_envelope validate is_blank
test_read = refl

abbrev replies : List Reply
replies =
    record { count = pos 4; has_error = false } ∷ record { count = pos 2; has_error = true } ∷ []

write_full-IsPrefix_example : IsPrefix bytes (write_full replies bytes)
write_full-IsPrefix_example = write_full-IsPrefix replies bytes

-- ===== src/Protocol/Framing.antt =====
-- internal/protocol/framing.go: a frame is four bytes of length, most significant first, and a body.
use agent_room.Prelude.{
  ℕ, ◌+◌, ◌*◌, ◌/◌, ◌%◌, Bool, not, List, [], ◌∷◌, ◌++◌, Option, none, some, ◌==◌, if◌then◌else◌,
  ltb, length, take, drop,
}
use agent_room.Prelude.Int.{ℤ, pos, negsuc, pos_part}
use agent_room.Protocol.Envelope.{
  Envelope, ProtocolError, invalid_json, empty_frame, frame_too_large, invalid_utf8, end_of_file,
  short_write, sink_failed, validate,
}

abbrev pub max_frame_bytes : ℕ
max_frame_bytes = 8388608

-- The libraries that the code calls, over bytes: encoding/json for an envelope (the code's checks of
-- duplicate keys and of the case of keys are part of `parse`), its validity check, and unicode/utf8.
pub record Codec : Type 0 where
  pub marshal : Envelope → Option (List ℕ)
  pub parse : List ℕ → Option Envelope
  pub valid_json : List ℕ → Bool
  pub valid_utf8 : List ℕ → Bool

-- `binary.BigEndian.PutUint32` of a 32-bit number.
unfoldable pub put_uint32 : ℕ → List ℕ
put_uint32 n = n / 16777216 % 256 ∷ n / 65536 % 256 ∷ n / 256 % 256 ∷ n % 256 ∷ []

-- `binary.BigEndian.Uint32`.
unfoldable pub uint32 : List ℕ → ℕ
uint32 (a ∷ b ∷ c ∷ d ∷ []) = a * 16777216 + b * 65536 + c * 256 + d
uint32 _ = 0

pub data Outcome {ℓ} (A : Type ℓ) : Type ℓ where
  done : A → Outcome A
  failed : ProtocolError → Outcome A

-- `io.ReadFull` from the bytes that the source still has.
unfoldable pub read_full : ℕ → List ℕ → Outcome (List ℕ × List ℕ)
read_full n source =
    if ltb (length source) n then failed end_of_file else done (take n source, drop n source)

abbrev pub then_read {ℓ κ} : {A : Type ℓ} {B : Type κ} → Outcome A → (A → Outcome B) → Outcome B
then_read (done a) next = next a
then_read (failed e) next = failed e

module _ (codec : Codec) where
  unfoldable pub decode_envelope : List ℕ → Outcome Envelope
  decode_envelope body = elim (codec.parse body) [
    | none ↦ failed invalid_json
    | some e ↦ elim (validate codec.valid_json e) [ none ↦ done e | some x ↦ failed x ]
  ]

  -- `maximum` is the reader's, capped by `NewReader`.
  unfoldable pub read_body : ℕ → ℕ → List ℕ → Outcome (Envelope × List ℕ)
  read_body maximum size source =
      if size == 0
      then failed empty_frame
      else if ltb maximum size
      then failed frame_too_large
      else then_read (read_full size source) λ (body, rest).
        if not (codec.valid_utf8 body)
        then failed invalid_utf8
        else then_read (decode_envelope body) λ e. done (e, rest)

  unfoldable pub read : ℕ → List ℕ → Outcome (Envelope × List ℕ)
  read maximum source =
      then_read (read_full 4 source) λ (prefix, rest). read_body maximum (uint32 prefix) rest

  -- The frame that `Write` hands to the destination: the prefix, then the body.
  unfoldable pub frame : Envelope → Outcome (List ℕ)
  unfolding put_uint32
  frame e = elim (validate codec.valid_json e) [
    | some x ↦ failed x
    | none ↦ elim (codec.marshal e) [
      | none ↦ failed invalid_json
      | some body ↦
          if length body == 0
          then failed empty_frame
          else if ltb max_frame_bytes (length body)
          then failed frame_too_large
          else done (put_uint32 (length body) ++ body)
    ]
  ]

-- What the destination answers to a write: a count, and whether there was an error.
pub record Reply : Type 0 where
  pub count : ℤ
  pub has_error : Bool

-- One round of the loop: the answer to the write of what is left, and the rounds after it.
unfoldable pub after_write :
    ℤ → Bool → List ℕ → List ℕ × Outcome (Unit {0}) → List ℕ × Outcome (Unit {0})
after_write (negsuc n) has_error body rest = ([], failed short_write)
after_write (pos n) has_error body rest =
    if ltb (length body) n
    then ([], failed short_write)
    else if has_error
    then (take n body, failed sink_failed)
    else if n == 0
    then ([], failed short_write)
    else (take n body ++ rest.0, rest.1)

-- `writeFull`: the loop on what is left, with the destination's answers in their order; the bytes
-- written and how it ended. A destination without a further answer has failed.
unfoldable pub write_full : List Reply → List ℕ → List ℕ × Outcome (Unit {0})
unfolding after_write
write_full replies [] = ([], done tt)
write_full [] (b ∷ body) = ([], failed sink_failed)
write_full (r ∷ replies) (b ∷ body) =
    let rest = write_full replies (drop (pos_part r.count) (b ∷ body)) in
    after_write r.count r.has_error (b ∷ body) rest

-- ===== src/Protocol/Envelope.antt =====
-- internal/protocol/envelope.go: an envelope and its validation.
use agent_room.Prelude.{
  ℕ, Bool, true, false, not, ◌&&◌, ◌||◌, List, Option, none, some, String, len, str_eq, ◌==◌,
  if◌then◌else◌, all, length,
}
use agent_room.Prelude.Text.{codes, is_blank, is_hex}

-- The type is a text: `other` is any text but the four constants.
pub data Kind : Type 0 where
  request response event error : Kind
  other : String → Kind

pub record Envelope : Type 0 where
  pub version : ℕ
  pub kind : Kind
  pub id : String
  pub method : String
  pub requires : List String
  pub seq : Option ℕ
  pub body : List ℕ

pub data ProtocolError : Type 0 where
  invalid_envelope invalid_version invalid_kind invalid_id : ProtocolError
  invalid_json empty_frame frame_too_large invalid_utf8 : ProtocolError
  end_of_file short_write sink_failed : ProtocolError

unfoldable pub valid_message_id : String → Bool
valid_message_id id = len id == 32 && all is_hex (codes id)

-- The `switch` on the kind.
abbrev is_kind : Kind → Bool
is_kind (other _) = false
is_kind _ = true

abbrev needs_id : Kind → Bool
needs_id request = true
needs_id response = true
needs_id _ = false

-- The id is required of a request and a response, and may be empty for the others.
abbrev id_fits : Kind → String → Bool
id_fits kind id = if needs_id kind then valid_message_id id else str_eq id "" || valid_message_id id

-- `validateJSON` of the body is the parameter `valid_json`.
unfoldable pub validate : (List ℕ → Bool) → Envelope → Option ProtocolError
unfolding valid_message_id
validate valid_json e =
    if not (e.version == 1)
    then some invalid_version
    else if not (is_kind e.kind)
    then some invalid_kind
    else if is_blank e.method
    then some invalid_envelope
    else if not (id_fits e.kind e.id)
    then some invalid_id
    else if length e.body == 0
    then some invalid_envelope
    else if valid_json e.body
    then none
    else some invalid_json

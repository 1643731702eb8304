-- ===== src/Store/Items.antt =====
-- internal/store/repository.go: the items that the agent has completed. `encoding/json` and SHA-256
-- are the parameter `Json`; no law of it is assumed here.
pub mod Once
pub mod Later
use agent_room.Prelude.{
  ℕ, ◌-◌, Bool, true, false, not, ◌&&◌, ◌||◌, Option, none, some, String, str_eq, if◌then◌else◌,
  find, ltb, leb,
}
use agent_room.Prelude.Text.{is_blank, byte_len}
use agent_room.Result.{Result, ok, ◌>>=◌, ◌>>◌, guard, invalid_input, invalid_state}
use agent_room.Room.Types.{CompletedItem}
use agent_room.Store.Tables.{Payload, item_completed, EventRow, Database, in_room}
use agent_room.Store.Rows.{validate_room_id, append_event}
use agent_room.Store.Rooms.{load_room}

-- The library's `Valid`, `Marshal` and `Compact` on the text of a value, the text of an
-- "output-omitted" object, and what an object's fields `type` and `sha256` are read as ("" where
-- there is none).
pub record Json : Type 0 where
  pub valid : String → Bool
  pub marshal : String → String
  pub compact : String → String
  pub omitted : (original_bytes : ℕ) (sha256 : String) → String
  pub marker_type : String → String
  pub marker_sha256 : String → String
  pub hex_sha256 : String → String

-- `int(protocol.MaxFrameBytes)-(128<<10)`.
abbrev pub payload_limit : ℕ
payload_limit = 8388608 - 131072

-- What is stored of a payload: the text itself, or a marker in place of one that fills a frame.
unfoldable pub stored_payload : Json → String → String
stored_payload json payload =
    let copy = json.marshal payload in
    if ltb payload_limit (byte_len copy)
    then json.omitted (byte_len payload) (json.hex_sha256 copy)
    else copy

-- The same value, or markers of the same content.
unfoldable pub same_payload : Json → String → String → Bool
same_payload json old new =
    let a = json.compact old in
    let b = json.compact new in
    str_eq a b
    || not (
        not (str_eq (json.marker_type a) "output-omitted")
        || not (str_eq (json.marker_type b) "output-omitted")
        || str_eq (json.marker_sha256 a) ""
        || not (str_eq (json.marker_sha256 a) (json.marker_sha256 b)))

-- The `json_extract` conditions on a stored payload.
abbrev pub names_item : String → String → String → Payload → Bool
names_item thread turn item (item_completed t u i payload) =
    str_eq t thread && str_eq u turn && str_eq i item
names_item thread turn item _ = false

abbrev pub is_item : String → CompletedItem → EventRow → Bool
is_item rid item e =
    in_room rid e
    && str_eq e.kind "item/completed"
    && names_item item.thread_id item.turn_id item.item_id e.payload

abbrev pub payload_text : Payload → String
payload_text (item_completed t u i payload) = payload
payload_text _ = ""

-- `thread.Valid && thread.String == string(item.ThreadID)`.
abbrev pub holds_thread : String → Option String → Bool
holds_thread thread none = false
holds_thread thread (some t) = str_eq t thread

-- The first event of the item, or a new one: an item that was recorded before must be the same.
unfoldable pub record_item :
    Json
    → String
    → CompletedItem
    → String
    → ℕ
    → Database
    → Option EventRow
    → Result (EventRow × Database)
unfolding same_payload
record_item json rid item copy now db (some e) = do
  guard (same_payload json (payload_text e.payload) copy) invalid_state
  ok (e, db)
record_item json rid item copy now db none =
    append_event rid 0 "item/completed"
      (item_completed item.thread_id item.turn_id item.item_id copy) now db

unfoldable pub is_complete : Json → CompletedItem → Bool
is_complete json item = not (
    is_blank item.thread_id
    || is_blank item.turn_id
    || is_blank item.item_id
    || not (json.valid item.payload))

-- The loop over the three ids.
unfoldable pub has_short_ids : CompletedItem → Bool
has_short_ids item =
    leb (byte_len item.thread_id) 4096
    && leb (byte_len item.turn_id) 4096
    && leb (byte_len item.item_id) 4096

unfoldable pub record_completed_item :
    Json → String → CompletedItem → ℕ → Database → Result (EventRow × Database)
unfolding stored_payload record_item load_room is_complete has_short_ids
record_completed_item json rid item now db = do
  validate_room_id rid
  guard (is_complete json item) invalid_input
  guard (has_short_ids item) invalid_input
  r ← load_room rid db
  guard (holds_thread item.thread_id r.codex_thread_id) invalid_state
  record_item json rid item (stored_payload json item.payload) now db
      (find (is_item rid item) db.events)

-- ===== src/Room/Projection.antt =====
-- internal/room/projection.go: the items that the agent is working on, within a budget of bytes.
use Prim.Native.String
use agent_room.Prelude.{
  ℕ, ◌+◌, ◌-◌, ◌*◌, ◌^◌, ◌%◌, Bool, true, false, not, ◌&&◌, List, [], ◌∷◌, ◌++◌, Option, none, some,
  String, str_eq, if◌then◌else◌, ltb, find,
}
use agent_room.Prelude.Text.{byte_len}
use agent_room.Room.Types.{TransientEvent, CompletedItem}

abbrev pub budget : ℕ
budget = 1048576

abbrev pub item_cost : String → String → String → String → ℕ
item_cost thread turn item partial =
    256 + 6 * (byte_len thread + byte_len turn + byte_len item + byte_len partial)

-- An entry of the map `items`: its key, and a `ProjectedItem`. A key is inserted only when it is
-- not there, so that the first entry of a key is its only one.
pub record Entry : Type 0 where
  pub thread : String
  pub turn : String
  pub item : String
  pub partial : String
  pub completed : Option CompletedItem

pub record Projection : Type 0 where
  pub revision : ℕ
  pub items : List Entry
  pub used : ℕ
  pub truncated : Bool

pub data AgentEvent : Type 0 where
  item_delta : (thread turn item delta : String) → AgentEvent
  item_completed : Option CompletedItem → AgentEvent
  -- Any other kind of event.
  elsewhere : AgentEvent

pub record ProjectionUpdate : Type 0 where
  pub transient : Option TransientEvent
  pub durable : Option CompletedItem

abbrev pub no_update : ProjectionUpdate
no_update = record { transient = none; durable = none }

abbrev pub has_key : String → String → String → Entry → Bool
has_key thread turn item e = str_eq e.thread thread && str_eq e.turn turn && str_eq e.item item

abbrev pub entry_cost : Entry → ℕ
entry_cost e = item_cost e.thread e.turn e.item e.partial

-- `p.revision++` on 64 bits.
abbrev pub next_revision : ℕ → ℕ
next_revision n = (n + 1) % 2 ^ 64

-- `delete(p.items, key)`.
unfoldable pub delete : (Entry → Bool) → List Entry → List Entry
delete key [] = []
delete key (e ∷ es) = let rest = delete key es in if key e then es else e ∷ rest

-- `current.Partial += delta`, stored under a key that is there.
unfoldable pub extend : (Entry → Bool) → String → List Entry → List Entry
extend key delta [] = []
extend key delta (e ∷ es) =
    let rest = extend key delta es in
    if key e then record e { partial = String.◌++◌ e.partial delta } ∷ es else e ∷ rest

abbrev pub truncation : ℕ → String → String → TransientEvent
truncation revision thread turn = record {
  revision = revision;
  kind = "projection-truncated";
  thread_id = thread;
  turn_id = turn;
  item_id = "";
  delta = "";
}

-- The projection and the update when a change of the items at a cost does not fit, or does.
unfoldable pub add_delta :
    String → String → String → String → ℕ → List Entry → Projection → ProjectionUpdate × Projection
add_delta thread turn item delta cost items p =
    let revision = next_revision p.revision in
    if ltb budget (p.used + cost)
    then (
      record { transient = some (truncation revision thread turn); durable = none },
      record p { truncated = true; revision = revision },
    )
    else (
      record {
        transient = some (record {
          revision = revision;
          kind = "item-delta";
          thread_id = thread;
          turn_id = turn;
          item_id = item;
          delta = delta;
        });
        durable = none;
      },
      record p { used = p.used + cost; items = items; revision = revision },
    )

-- The case of a delta, by the entry that its key has.
unfoldable pub apply_delta :
    Option Entry → String → String → String → String → Projection → ProjectionUpdate × Projection
unfolding add_delta extend
apply_delta none thread turn item delta p =
    add_delta thread turn item delta (6 * byte_len delta + item_cost thread turn item "")
      (p.items
        ++ record { thread = thread; turn = turn; item = item; partial = delta; completed = none }
          ∷ [])
      p
apply_delta (some e) thread turn item delta p = elim e.completed [
  | some c ↦ (no_update, p)
  | none ↦
      add_delta thread turn item delta (6 * byte_len delta)
        (extend (has_key thread turn item) delta p.items) p
]

-- The old entry of a completed item is given up.
unfoldable pub release : Option Entry → (Entry → Bool) → Projection → Projection
unfolding delete
release none key p = p
release (some e) key p = record p { used = p.used - entry_cost e; items = delete key p.items }

-- The key of a completed item, kept so that late deltas are passed over.
abbrev pub mark : CompletedItem → Entry
mark c = record {
  thread = c.thread_id;
  turn = c.turn_id;
  item = c.item_id;
  partial = "";
  completed = some (record c { payload = "" });
}

unfoldable pub keep_mark : CompletedItem → Projection → Projection
keep_mark c p =
    let cost = item_cost c.thread_id c.turn_id c.item_id "" in
    if not p.truncated && not (ltb budget (p.used + cost))
    then record p { items = p.items ++ mark c ∷ []; used = p.used + cost }
    else record p { truncated = true }

unfoldable pub apply_completed : CompletedItem → Projection → ProjectionUpdate × Projection
unfolding release keep_mark
apply_completed c p =
    let key = has_key c.thread_id c.turn_id c.item_id in
    let kept = keep_mark c (release (find key p.items) key p) in
    let revision = next_revision p.revision in
    (
      record {
        durable = some c;
        transient = some (
            if kept.truncated && not p.truncated
            then truncation revision c.thread_id c.turn_id
            else record {
              revision = revision;
              kind = "item-completed";
              thread_id = c.thread_id;
              turn_id = c.turn_id;
              item_id = c.item_id;
              delta = "";
            });
      },
      record kept { revision = revision },
    )

unfoldable pub apply : AgentEvent → Projection → ProjectionUpdate × Projection
unfolding apply_delta apply_completed
apply (item_delta thread turn item delta) p =
    if p.truncated
    then (no_update, p)
    else apply_delta (find (has_key thread turn item) p.items) thread turn item delta p
apply (item_completed none) p = (no_update, p)
apply (item_completed (some c)) p = apply_completed c p
apply elsewhere p = (no_update, p)

abbrev pub new_projection : Projection
new_projection = record { revision = 0; items = []; used = 0; truncated = false }

-- ===== src/Store/Invariant/Insert.antt =====
-- The rows that a new command leaves: its message, a binding or none, and its event.
use agent_room.Prelude.{
  ◌+◌, ◌≤◌, ◌≡◌, false, List, [], ◌∷◌, ◌++◌, none, some, String, eq_refl, arith, All, All-append,
  find, any, update_where, find_of_any, find-append_none,
}
use agent_room.Store.Tables.{
  RoomRow, MessageRow, BindingRow, EventRow, Database, is_room, is_message, is_event,
}
use agent_room.Store.Rows.{bump_seq}
use agent_room.Store.Wellformed.Log.{Grows-snoc, IsGapFree-snoc}
use agent_room.Store.Wellformed.Messages.{
  Agrees, IsLogged, IsLogged-append, Extends-snoc, Evolves-Extends, Agrees-Extends, All-map,
  find_fresh,
}
use agent_room.Store.Invariant.{IsWellFormed, Follows}

-- What the new rows have to do with one another and with the database before them.
pub record Fits (rid : String) (db : Database) (m : MessageRow) (e : EventRow) : Type 0 where
  pub room : RoomRow
  pub found : find (is_room rid) db.rooms ≡ some room
  pub message_in : m.room_id ≡ rid
  pub message_id : m.id ≡ db.last_message_id + 1
  pub message_seq : m.accepted_seq ≡ room.next_seq
  pub event_in : e.room_id ≡ rid
  pub event_seq : e.seq ≡ room.next_seq
  pub event_new : any (is_event rid room.next_seq) db.events ≡ false

-- The binding of the new message, where it has one.
pub data NewBindings (m : MessageRow) (bs : List BindingRow) : List BindingRow → Type 0 where
  unbound : NewBindings m bs bs
  bound :
      (b : BindingRow)
      → b.room_id ≡ m.room_id
      → b.message_id ≡ m.id
      → b.state ≡ m.state
      → NewBindings m bs (bs ++ b ∷ [])

new_message-found :
    (db : Database) (m : MessageRow)
    → m.id ≡ db.last_message_id + 1
    → All (λ x. x.id ≤ db.last_message_id) db.messages
    → find (is_message m.room_id m.id) (db.messages ++ m ∷ []) ≡ some m
new_message-found db m at bounded =
    let none_yet : find (is_message m.room_id m.id) db.messages ≡ none =
      rw at (find_fresh m.room_id db.last_message_id db.messages bounded) in
    rw (find-append_none (is_message m.room_id m.id) db.messages (m ∷ []) none_yet)
      (ground (arith, eq_refl m.room_id))

new-Agrees :
    (db : Database) (m : MessageRow) (bs : List BindingRow)
    → m.id ≡ db.last_message_id + 1
    → IsWellFormed db
    → NewBindings m db.bindings bs
    → All (Agrees (db.messages ++ m ∷ [])) bs
new-Agrees db m bs at w unbound =
    Agrees-Extends db.messages (db.messages ++ m ∷ []) db.bindings (Extends-snoc db.messages m)
      w.agree
new-Agrees db m bs at w (bound b in_room of_message same) =
    All-append (Agrees (db.messages ++ m ∷ [])) db.bindings (b ∷ [])
      (Agrees-Extends db.messages (db.messages ++ m ∷ []) db.bindings (Extends-snoc db.messages m)
        w.agree)
      ((m, rw (in_room, of_message) (new_message-found db m at w.bounded), same), tt)

new-IsLogged :
    (rid : String) (db : Database) (m : MessageRow) (e : EventRow)
    → Fits rid db m e
    → IsLogged (db.events ++ e ∷ []) m
new-IsLogged rid db m e f = (
  e,
  rw
      (
        f.message_in,
        f.message_seq,
        find-append_none (is_event rid f.room.next_seq) db.events (e ∷ [])
            (find_of_any (is_event rid f.room.next_seq) db.events f.event_new),
      )
      (ground (arith, f.event_in, f.event_seq, eq_refl rid)),
)

-- The tables that the invariant reads, once the rows are there.
pub record Inserted (rid : String) (db : Database) (m : MessageRow) (e : EventRow) (new : Database)
    : Type 0 where
  pub rooms : new.rooms ≡ update_where (is_room rid) bump_seq db.rooms
  pub messages : new.messages ≡ db.messages ++ m ∷ []
  pub last_message_id : new.last_message_id ≡ db.last_message_id + 1
  pub events : new.events ≡ db.events ++ e ∷ []
  pub bindings : NewBindings m db.bindings new.bindings

pub Inserted-Follows :
    (rid : String) (old db new : Database) (m : MessageRow) (e : EventRow)
    → Follows old db
    → Fits rid db m e
    → Inserted rid db m e new
    → Follows old new
Inserted-Follows rid old db new m e fs f i =
    let w = fs.well_formed in
    record {
      well_formed = record {
        gap_free =
            rw (i.rooms, i.events)
              (IsGapFree-snoc rid db.rooms db.events e w.gap_free f.found f.event_in f.event_seq);
        agree = rw i.messages (new-Agrees db m new.bindings f.message_id w i.bindings);
        bounded =
            rw (i.messages, i.last_message_id)
              (All-append (λ x. x.id ≤ db.last_message_id + 1) db.messages (m ∷ [])
                (All-map (λ x. x.id ≤ db.last_message_id) (λ x. x.id ≤ db.last_message_id + 1)
                  db.messages (λ x h. omega arith) w.bounded)
                (omega (arith, f.message_id), tt));
        logged =
            rw (i.messages, i.events)
              (All-append (IsLogged (db.events ++ e ∷ [])) db.messages (m ∷ [])
                (IsLogged-append db.messages db.events (e ∷ []) w.logged)
                (new-IsLogged rid db m e f, tt));
      };
      evolves = rw i.messages (
          Evolves-Extends old.messages db.messages (db.messages ++ m ∷ []) fs.evolves
            (Extends-snoc db.messages m));
      appended = rw i.events (Grows-snoc old.events db.events e fs.appended);
    }

-- ===== src/Store/Invariant/Steps.antt =====
-- The steps of an insertion, from the allocation of a number to the rows that are left.
use mathlib.Core.Path.{subst, subst₂}
use agent_room.Prelude.{
  ℕ, ◌+◌, ◌≡◌, refl, sym, ap, ◌∙◌, Bool, true, false, List, [], ◌∷◌, ◌++◌, Option, none, some,
  String, any, arith,
}
use agent_room.Result.{ok, >>=-eq-ok}
use agent_room.Room.Types.{Actor}
use agent_room.Store.Tables.{MessageRow, EventRow, Database, Payload, TaskMessageRow, is_event}
use agent_room.Store.Rows.{allocate_seq, insert_event_at}
use agent_room.Store.Tasks.{
  attach_task_message, require_task_writer, admit_run, load_task, link_run,
}
use agent_room.Store.Accept.{Offer, insert_message, insert_binding, attach_if, binding_row}
use agent_room.Store.Recovery.{inherit_task}
use agent_room.Store.Wellformed.Log.{allocate_seq-eq-ok, insert_event_at-eq-ok}
use agent_room.Store.Moves.{Extends}
use agent_room.Store.Wellformed.Messages.{Extends-snoc}
use agent_room.Store.Invariant.{Follows}
use agent_room.Store.Invariant.Insert.{
  Fits, Inserted, Inserted-Follows, NewBindings, unbound, bound,
}

-- The link of a run to its task touches the tables of the tasks alone.
pub record SameLog (db new : Database) : Type 0 where
  pub rooms : new.rooms ≡ db.rooms
  pub messages : new.messages ≡ db.messages
  pub last_message_id : new.last_message_id ≡ db.last_message_id
  pub bindings : new.bindings ≡ db.bindings
  pub events : new.events ≡ db.events

pub attach_task_message-SameLog :
    (rid : String) (actor : Actor) (task_id mid now : ℕ) (db : Database) {new : Database}
    → attach_task_message rid actor task_id mid now db ≡ ok new
    → SameLog db new
unfolding attach_task_message
attach_task_message-SameLog rid actor task_id mid now db {new} h =
    let (_, _, h') = >>=-eq-ok (require_task_writer rid actor db) _ h in
    let (_, _, h'') = >>=-eq-ok (admit_run (load_task rid task_id db)) _ h' in
    let shape : link_run rid actor task_id mid now db ≡ new = ground arith in
    subst (SameLog db) shape (record {
      rooms = refl;
      messages = refl;
      last_message_id = refl;
      bindings = refl;
      events = refl;
    })

pub attach_if-SameLog :
    (b : Bool) (rid : String) (actor : Actor) (task_id mid now : ℕ) (db : Database) {new : Database}
    → attach_if b rid actor task_id mid now db ≡ ok new
    → SameLog db new
unfolding attach_if
attach_if-SameLog true rid actor task_id mid now db h =
    attach_task_message-SameLog rid actor task_id mid now db h
attach_if-SameLog false rid actor task_id mid now db {new} h =
    let shape : db ≡ new = ground arith in
    subst (SameLog db) shape (record {
      rooms = refl;
      messages = refl;
      last_message_id = refl;
      bindings = refl;
      events = refl;
    })

-- The row that `insert_message` appends.
abbrev pub message_row : String → Offer → ℕ → ℕ → ℕ → MessageRow
message_row rid o mid seq now = record {
  id = mid;
  room_id = rid;
  client_message_id = o.client_message_id;
  actor_uid = o.actor.uid;
  kind = o.kind;
  body = o.body;
  payload_hash = o.payload_hash;
  state = o.initial;
  accepted_seq = seq;
  created_at = now;
}

pub inherit_task-SameLog :
    (rid : String) (actor : Actor) (link : Option TaskMessageRow) (mid now : ℕ) (db : Database)
    {new : Database}
    → inherit_task rid actor link mid now db ≡ ok new
    → SameLog db new
unfolding inherit_task
inherit_task-SameLog rid actor none mid now db {new} h =
    let shape : db ≡ new = ground arith in
    subst (SameLog db) shape (record {
      rooms = refl;
      messages = refl;
      last_message_id = refl;
      bindings = refl;
      events = refl;
    })
inherit_task-SameLog rid actor (some tm) mid now db h =
    attach_task_message-SameLog rid actor tm.task_id mid now db h

pub insert_binding-SameLog :
    (b : Bool) (rid : String) (o : Offer) (mid : ℕ) (db new : Database)
    → SameLog db new
    → SameLog (insert_binding b rid o mid db) (insert_binding b rid o mid new)
unfolding insert_binding
insert_binding-SameLog false rid o mid db new t = t
insert_binding-SameLog true rid o mid db new t = record {
  rooms = t.rooms;
  messages = t.messages;
  last_message_id = t.last_message_id;
  bindings = ap (λ bs. bs ++ binding_row rid o mid ∷ []) t.bindings;
  events = t.events;
}

-- A message and its binding, inserted into a database that differs from `db` in its rooms at most.
pub inserted_bindings :
    (b : Bool) (rid : String) (o : Offer) (seq now : ℕ) (db : Database)
    → NewBindings
        (message_row rid o (db.last_message_id + 1) seq now)
        db.bindings
        (insert_binding b rid o (db.last_message_id + 1) (insert_message rid o seq now db)).bindings
unfolding insert_binding insert_message
inserted_bindings false rid o seq now db = unbound
inserted_bindings true rid o seq now db = bound _ refl refl refl

inserted_rest :
    (b : Bool) (rid : String) (o : Offer) (seq now : ℕ) (db : Database)
    → let new = insert_binding b rid o (db.last_message_id + 1) (insert_message rid o seq now db) in
      (new.rooms ≡ db.rooms)
      × (new.messages ≡ db.messages ++ message_row rid o (db.last_message_id + 1) seq now ∷ [])
      × (new.last_message_id ≡ db.last_message_id + 1)
      × (new.events ≡ db.events)
unfolding insert_binding insert_message
inserted_rest false rid o seq now db = (refl, refl, refl, refl)
inserted_rest true rid o seq now db = (refl, refl, refl, refl)

-- The four steps: a number is given, the message and its binding are inserted, the tasks' tables may
-- change, and the event is inserted.
module _ (rid : String) (o : Offer) (b : Bool) (now seq : ℕ) (db db1 db4 new : Database)
    (e : EventRow) (kind : String) (payload : Payload) (a : allocate_seq rid db ≡ ok (seq, db1))
    (t : SameLog
      (insert_binding b rid o (db1.last_message_id + 1) (insert_message rid o seq now db1))
      db4)
    (i : insert_event_at rid seq o.actor.uid kind payload now db4 ≡ ok (e, new)) where
  pub stored_rows :
      let m = message_row rid o (db1.last_message_id + 1) seq now in
      Fits rid db m e × Inserted rid db m e new
  stored_rows =
      let m = message_row rid o (db1.last_message_id + 1) seq now in
      let (r, found, at, shape) = allocate_seq-eq-ok rid db a in
      let (in_rid, at', free, shape') =
        insert_event_at-eq-ok rid seq o.actor.uid kind payload now db4 i in
      let (rooms, messages, last, events) = inserted_rest b rid o seq now db1 in
      let events_same : db4.events ≡ db.events =
        t.events ∙ events ∙ ap (λ (d : Database). d.events) shape in
      let ids : db1.last_message_id ≡ db.last_message_id =
        ap (λ (d : Database). d.last_message_id) shape in
      (
        record {
          room = r;
          found = found;
          message_in = refl;
          message_id = ap (λ n. n + 1) ids;
          message_seq = at;
          event_in = in_rid;
          event_seq = at' ∙ at;
          event_new =
              subst₂ (λ (n : ℕ) (es : List EventRow). any (is_event rid n) es ≡ false) at
                events_same free;
        },
        record {
          rooms =
              ap (λ (d : Database). d.rooms) shape'
              ∙ t.rooms
              ∙ rooms
              ∙ ap (λ (d : Database). d.rooms) shape;
          messages =
              ap (λ (d : Database). d.messages) shape'
              ∙ t.messages
              ∙ messages
              ∙ ap (λ (d : Database). d.messages ++ m ∷ []) shape;
          last_message_id =
              ap (λ (d : Database). d.last_message_id) shape'
              ∙ t.last_message_id
              ∙ last
              ∙ ap (λ n. n + 1) ids;
          events = ap (λ (d : Database). d.events) shape' ∙ ap (λ es. es ++ e ∷ []) events_same;
          bindings =
              subst₂ (NewBindings m) (ap (λ (d : Database). d.bindings) shape)
                (sym (ap (λ (d : Database). d.bindings) shape' ∙ t.bindings))
                (inserted_bindings b rid o seq now db1);
        },
      )

  pub inserted-Follows : {old : Database} → Follows old db → Follows old new
  inserted-Follows {old} fs =
      Inserted-Follows rid old db new (message_row rid o (db1.last_message_id + 1) seq now) e fs
        stored_rows.0 stored_rows.1

  pub inserted-Extends : Extends db.messages new.messages
  inserted-Extends =
      subst (Extends db.messages) (sym stored_rows.1.messages)
        (Extends-snoc db.messages (message_row rid o (db1.last_message_id + 1) seq now))

-- ===== src/Room/Live.antt =====
-- internal/room/projection.go: the live items in the order of their keys, and their removal at the
-- end of a turn or of a connection with the agent.
use Prim.Native.Char.{code}
use agent_room.Prelude.{
  ℕ, ◌-◌, Bool, true, false, not, ◌&&◌, ◌||◌, List, [], ◌∷◌, ◌++◌, String, str_eq, ◌==◌,
  if◌then◌else◌, ltb, select,
}
use agent_room.Room.Types.{TransientEvent}
use agent_room.Room.Projection.{Entry, Projection, entry_cost, next_revision}

-- Go's `<` on texts: the order of UTF-8 is that of the code points.
unfoldable pub text_lt : String → String → Bool
text_lt String.[] String.[] = false
text_lt String.[] (String.◌∷◌ d t) = true
text_lt (String.◌∷◌ c s) String.[] = false
text_lt (String.◌∷◌ c s) (String.◌∷◌ d t) =
    ltb (code c) (code d) || (code c == code d && text_lt s t)

-- `LiveItemSnapshot`.
pub record LiveItem : Type 0 where
  pub thread_id : String
  pub turn_id : String
  pub item_id : String
  pub partial : String

unfoldable pub before : LiveItem → LiveItem → Bool
unfolding text_lt
before a b =
    if not (str_eq a.thread_id b.thread_id)
    then text_lt a.thread_id b.thread_id
    else if not (str_eq a.turn_id b.turn_id)
    then text_lt a.turn_id b.turn_id
    else text_lt a.item_id b.item_id

-- `sort.Slice` on items with different keys: the sorted list is unique.
unfoldable pub place : LiveItem → List LiveItem → List LiveItem
unfolding before
place a [] = a ∷ []
place a (b ∷ bs) = let rest = place a bs in if before b a then b ∷ rest else a ∷ b ∷ bs

unfoldable pub sort : List LiveItem → List LiveItem
unfolding place
sort [] = []
sort (a ∷ bs) = place a (sort bs)

-- The loop over the map: an entry with no text yet, or with a completed item, is passed over.
unfoldable pub with_text : List Entry → List LiveItem
with_text [] = []
with_text (e ∷ es) =
    let rest = with_text es in
    if str_eq e.partial ""
    then rest
    else record { thread_id = e.thread; turn_id = e.turn; item_id = e.item; partial = e.partial }
      ∷ rest

-- The items of `Snapshot`.
unfoldable pub live_items : Projection → List LiveItem
unfolding sort with_text
live_items p = sort (with_text p.items)

-- The loop that tells of each item that goes: it takes a new revision for each.
unfoldable pub removals : List LiveItem → ℕ → List TransientEvent × ℕ
removals [] revision = ([], revision)
removals (i ∷ is) revision =
    let next = next_revision revision in
    let (events, last) = removals is next in
    (
      record {
        revision = next;
        kind = "item-removed";
        thread_id = i.thread_id;
        turn_id = i.turn_id;
        item_id = i.item_id;
        delta = "";
      }
          ∷ events,
      last,
    )

-- A truncated projection is reset, which is told too.
unfoldable pub end_truncation :
    String → String → List TransientEvent → Projection → List TransientEvent × Projection
end_truncation thread turn events p =
    let revision = next_revision p.revision in
    if p.truncated
    then (
      events
          ++ record {
            revision = revision;
            kind = "projection-reset";
            thread_id = thread;
            turn_id = turn;
            item_id = "";
            delta = "";
          }
            ∷ [],
      record p { revision = revision; truncated = false },
    )
    else (events, p)

unfoldable pub reset : Projection → List TransientEvent × Projection
unfolding live_items removals end_truncation
reset p =
    let (events, revision) = removals (live_items p) p.revision in
    end_truncation "" "" events (record p { items = []; used = 0; revision = revision })

abbrev pub of_turn : String → String → Entry → Bool
of_turn thread turn e = str_eq e.thread thread && str_eq e.turn turn

-- The loop that deletes the turn's entries and gives up what they cost.
unfoldable pub drop_turn : String → String → List Entry → ℕ → List Entry × ℕ
drop_turn thread turn [] used = ([], used)
drop_turn thread turn (e ∷ es) used =
    let gone = of_turn thread turn e in
    let (kept, left) = drop_turn thread turn es (if gone then used - entry_cost e else used) in
    (if gone then kept else e ∷ kept, left)

unfoldable pub remove_turn : String → String → Projection → List TransientEvent × Projection
unfolding live_items removals drop_turn end_truncation
remove_turn thread turn p =
    let (events, revision) =
      removals
        (select (λ (i : LiveItem). str_eq i.thread_id thread && str_eq i.turn_id turn)
          (live_items p))
        p.revision in
    let (items, used) = drop_turn thread turn p.items p.used in
    end_truncation thread turn events (record p { items = items; used = used; revision = revision })

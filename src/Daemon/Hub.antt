-- ===== src/Daemon/Hub.antt =====
-- internal/daemon/hub.go: the bounded queues from which the sessions send broadcasts to the clients.
-- Every operation holds the hub's mutex, so a history is a list of operations.
use agent_room.Prelude.{
  ℕ, ◌+◌, ◌-◌, Bool, true, false, ◌||◌, List, [], ◌∷◌, ◌++◌, Option, none, some, ◌==◌,
  if◌then◌else◌, ltb, leb, length, drop, take, map,
}
use agent_room.Prelude.Int.{ℤ, pos, negsuc}
use agent_room.Room.Types.{Actor, TransientEvent}
use agent_room.Store.Tables.{EventRow}

-- One of the two pointers is set in every broadcast that the hub publishes.
pub data Broadcast : Type 0 where
  durable : EventRow → Broadcast
  transient : TransientEvent → Broadcast

-- `events` is the buffer of the channel, in the order of sending. A subscription that is closed stands
-- in the list still, as its session may drain the channel, but is out of the map `subs`.
pub record Subscription : Type 0 where
  pub actor : Actor
  pub events : List Broadcast
  pub closed : Bool
  pub sizes : List ℕ
  pub bytes : ℕ

pub record Hub : Type 0 where
  pub max_events : ℕ
  pub max_bytes : ℕ
  pub subs : List Subscription

-- A bound that is not positive, or beyond the cap, is the cap.
abbrev pub capped : ℕ → ℤ → ℕ
capped cap (pos n) = if n == 0 || ltb cap n then cap else n
capped cap (negsuc n) = cap

unfoldable pub new_hub : ℤ → ℤ → Hub
new_hub max_events max_bytes = record {
  max_events = capped 256 max_events;
  max_bytes = capped 16777216 max_bytes;
  subs = [];
}

abbrev pub new_subscription : Actor → Subscription
new_subscription actor = record {
  actor = actor;
  events = [];
  closed = false;
  sizes = [];
  bytes = 0;
}

unfoldable pub subscribe : Actor → Hub → Hub
subscribe actor h = record h { subs = h.subs ++ new_subscription actor ∷ [] }

unfoldable pub close : Subscription → Subscription
close s = if s.closed then s else record s { closed = true; sizes = []; bytes = 0 }

unfoldable pub take_first : List Broadcast → Subscription → Option Broadcast × Subscription
take_first [] s = (none, s)
take_first (b ∷ bs) s = (some b, record s { events = bs })

-- The session takes the first broadcast from the channel.
unfoldable pub receive : Subscription → Option Broadcast × Subscription
unfolding take_first
receive s = take_first s.events s

-- `s.bytes -= n` for each size; the sizes are part of the bytes, so the subtraction is exact.
abbrev pub subtract : ℕ → List ℕ → ℕ
subtract bytes [] = bytes
subtract bytes (n ∷ ns) = subtract (bytes - n) ns

-- The sizes of what the session has taken are given up.
unfoldable pub settle : Subscription → Subscription
settle s =
    let consumed = length s.sizes - length s.events in
    record s { bytes = subtract s.bytes (take consumed s.sizes); sizes = drop consumed s.sizes }

-- What the loop of `publish` does with one subscription.
unfoldable pub offer : ℕ → ℕ → Broadcast → ℕ → Subscription → Subscription
unfolding settle close
offer max_events max_bytes b size s =
    if s.closed
    then s
    else let s' = settle s in
      if leb max_events (length s'.events) || ltb max_bytes (s'.bytes + size)
      then close s'
      else record s' {
        events = s'.events ++ b ∷ [];
        sizes = s'.sizes ++ size ∷ [];
        bytes = s'.bytes + size;
      }

-- `size` is the length of the broadcast's JSON; one that cannot be marshalled is dropped.
unfoldable pub publish : (Broadcast → Option ℕ) → Broadcast → Hub → Hub
unfolding offer
publish size_of b h = elim (size_of b) [
  | none ↦ h
  | some size ↦ record h { subs = map (offer h.max_events h.max_bytes b size) h.subs }
]

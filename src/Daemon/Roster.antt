-- ===== src/Daemon/Roster.antt =====
-- internal/daemon/hub.go: the members that the hub's subscriptions belong to. The map `subs` is
-- visited in the order of the list, which stands for any one.
pub mod Sorted
mod Tests
use agent_room.Prelude.{List, [], ◌∷◌, if◌then◌else◌, ltb, ◌==◌}
use agent_room.Room.Types.{Actor}
use agent_room.Daemon.Hub.{Subscription, Hub}

-- `unique[s.actor.UID] = s.actor`.
unfoldable pub put : Actor → List Actor → List Actor
put a [] = a ∷ []
put a (b ∷ bs) = let rest = put a bs in if b.uid == a.uid then a ∷ bs else b ∷ rest

unfoldable pub unique : List Subscription → List Actor
unfolding put
unique [] = []
unique (s ∷ subs) = let rest = unique subs in if s.closed then rest else put s.actor rest

-- `sort.Slice` on actors with different ids: the sorted list is unique.
unfoldable pub place : Actor → List Actor → List Actor
place a [] = a ∷ []
place a (b ∷ bs) = let rest = place a bs in if ltb b.uid a.uid then b ∷ rest else a ∷ b ∷ bs

unfoldable pub sort : List Actor → List Actor
unfolding place
sort [] = []
sort (a ∷ bs) = place a (sort bs)

unfoldable pub members : Hub → List Actor
unfolding unique sort
members h = sort (unique h.subs)

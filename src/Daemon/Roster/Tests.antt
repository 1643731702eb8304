-- ===== src/Daemon/Roster/Tests.antt =====
-- Two subscriptions of one member, a closed one, and one of another member.
use agent_room.Prelude.{ℕ, ◌≡◌, true, [], ◌∷◌, any}
use agent_room.Room.Types.{Actor}
use agent_room.Daemon.Hub.{Hub, new_subscription}
use agent_room.Daemon.Roster.{members}
use agent_room.Daemon.Roster.Sorted.{IsAscending, has_uid, is_open_of, members-IsAscending}

abbrev member : ℕ → Actor
member uid = record { uid = uid; name = "member" }

abbrev busy : Hub
busy = record {
  max_events = 4;
  max_bytes = 100;
  subs =
      new_subscription (member 7)
      ∷ new_subscription (member 3)
      ∷ record (new_subscription (member 5)) { closed = true }
      ∷ new_subscription (member 7)
      ∷ [];
}

members-IsAscending_example :
    IsAscending (members busy)
    × ((uid : ℕ) → any (has_uid uid) (members busy) ≡ any (is_open_of uid) busy.subs)
members-IsAscending_example = members-IsAscending busy

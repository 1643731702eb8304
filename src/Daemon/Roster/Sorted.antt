-- ===== src/Daemon/Roster/Sorted.antt =====
-- internal/daemon/hub.go: the members are those of the open subscriptions, once each, in order.
use agent_room.Prelude.{
  ℕ, ◌<◌, ◌≡◌, refl, inl, inr, Bool, false, not, ◌&&◌, ◌||◌, List, [], ◌∷◌, All, any, arith, ltb,
  ◌==◌, ==_iff, Bool-cases,
}
use agent_room.Room.Types.{Actor}
use agent_room.Store.Wellformed.Messages.{All-map}
use agent_room.Daemon.Hub.{Subscription, Hub}
use agent_room.Daemon.Roster.{put, unique, place, sort, members}

abbrev pub has_uid : ℕ → Actor → Bool
has_uid uid a = a.uid == uid

abbrev pub IsAscending : List Actor → Type 0
IsAscending [] = Unit
IsAscending (a ∷ rest) = All (λ b. a.uid < b.uid) rest × IsAscending rest

-- No id twice.
abbrev Apart : Actor → Actor → Type 0
Apart a b = (a.uid == b.uid) ≡ false

abbrev IsDistinct : List Actor → Type 0
IsDistinct [] = Unit
IsDistinct (a ∷ rest) = All (Apart a) rest × IsDistinct rest

place-All : (P : Actor → Type 0) (a : Actor) (bs : List Actor) → P a → All P bs → All P (place a bs)
unfolding place
place-All P a [] h k = (h, tt)
place-All P a (b ∷ bs) h k = elim (Bool-cases (ltb b.uid a.uid)) [
  | inl before ↦ rw before (k.0, place-All P a bs h k.1)
  | inr over ↦ rw over (h, k)
]

put-All : (P : Actor → Type 0) (a : Actor) (bs : List Actor) → P a → All P bs → All P (put a bs)
unfolding put
put-All P a [] h k = (h, tt)
put-All P a (b ∷ bs) h k = elim (Bool-cases (b.uid == a.uid)) [
  | inl same ↦ rw same (h, k.1)
  | inr other ↦ rw other (k.0, put-All P a bs h k.1)
]

sort-All : (P : Actor → Type 0) (bs : List Actor) → All P bs → All P (sort bs)
unfolding sort
sort-All P [] h = tt
sort-All P (b ∷ bs) h = place-All P b (sort bs) h.0 (sort-All P bs h.1)

place-IsAscending :
    (a : Actor) (bs : List Actor) → All (Apart a) bs → IsAscending bs → IsAscending (place a bs)
unfolding place
place-IsAscending a [] h k = (tt, tt)
place-IsAscending a (b ∷ bs) h k = elim (Bool-cases (ltb b.uid a.uid)) [
  | inl before ↦
      rw before
        (place-All (λ c. b.uid < c.uid) a bs (ground arith) k.0, place-IsAscending a bs h.1 k.1)
  | inr over ↦
      let apart : (a.uid == b.uid) ≡ false = h.0 in
      let low : a.uid < b.uid = ground (arith, ==_iff a.uid b.uid) in
      rw over
        ((low, All-map (λ c. b.uid < c.uid) (λ c. a.uid < c.uid) bs (λ c up. omega arith) k.0), k)
]

sort-IsAscending : (bs : List Actor) → IsDistinct bs → IsAscending (sort bs)
unfolding sort
sort-IsAscending [] h = tt
sort-IsAscending (b ∷ bs) h =
    place-IsAscending b (sort bs) (sort-All (Apart b) bs h.0) (sort-IsAscending bs h.1)

put-IsDistinct : (a : Actor) (bs : List Actor) → IsDistinct bs → IsDistinct (put a bs)
unfolding put
put-IsDistinct a [] h = (tt, tt)
put-IsDistinct a (b ∷ bs) h = elim (Bool-cases (b.uid == a.uid)) [
  | inl same ↦
      let one : b.uid ≡ a.uid = (==_iff b.uid a.uid).0 same in
      rw same (All-map (Apart b) (Apart a) bs (λ c apart. rw one at apart) h.0, h.1)
  | inr other ↦ rw other (put-All (Apart b) a bs other h.0, put-IsDistinct a bs h.1)
]

unique-IsDistinct : (subs : List Subscription) → IsDistinct (unique subs)
unfolding unique
unique-IsDistinct [] = tt
unique-IsDistinct (s ∷ subs) = elim (Bool-cases s.closed) [
  | inl closed ↦ rw closed (unique-IsDistinct subs)
  | inr live ↦ rw live (put-IsDistinct s.actor (unique subs) (unique-IsDistinct subs))
]

any-put :
    (uid : ℕ) (a : Actor) (bs : List Actor)
    → any (has_uid uid) (put a bs) ≡ (has_uid uid a || any (has_uid uid) bs)
unfolding put
any-put uid a [] = refl
any-put uid a (b ∷ bs) = ground (arith, any-put uid a bs, ==_iff b.uid a.uid)

any-place :
    (uid : ℕ) (a : Actor) (bs : List Actor)
    → any (has_uid uid) (place a bs) ≡ (has_uid uid a || any (has_uid uid) bs)
unfolding place
any-place uid a [] = refl
any-place uid a (b ∷ bs) = ground (arith, any-place uid a bs)

any-sort : (uid : ℕ) (bs : List Actor) → any (has_uid uid) (sort bs) ≡ any (has_uid uid) bs
unfolding sort
any-sort uid [] = refl
any-sort uid (b ∷ bs) = rw (any-place uid b (sort bs), any-sort uid bs) refl

abbrev pub is_open_of : ℕ → Subscription → Bool
is_open_of uid s = not s.closed && s.actor.uid == uid

any-unique :
    (uid : ℕ) (subs : List Subscription)
    → any (has_uid uid) (unique subs) ≡ any (is_open_of uid) subs
unfolding unique
any-unique uid [] = refl
any-unique uid (s ∷ subs) = ground (arith, any-unique uid subs, any-put uid s.actor (unique subs))

-- The members come in strictly ascending order of their ids, and an id is among them exactly where
-- a subscription of it is open.
pub members-IsAscending :
    (h : Hub)
    → IsAscending (members h)
      × ((uid : ℕ) → any (has_uid uid) (members h) ≡ any (is_open_of uid) h.subs)
unfolding members
members-IsAscending h = (
  sort-IsAscending (unique h.subs) (unique-IsDistinct h.subs),
  λ uid. rw (any-sort uid (unique h.subs)) (any-unique uid h.subs),
)

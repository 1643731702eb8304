-- ===== src/Daemon/Queue.antt =====
-- internal/daemon/hub.go: the queue of a subscription is bounded, and loses no broadcast while it is
-- open.
use agent_room.Prelude.{
  ℕ, zero, suc, ◌+◌, ◌-◌, ◌≤◌, ◌<◌, ◌≡◌, refl, inl, inr, ◌⊎◌, true, false, ◌||◌, List, [], ◌∷◌,
  ◌++◌, ltb, leb, length, length-append, drop, take, arith, Bool-cases,
}
use agent_room.Daemon.Hub.{Broadcast, Subscription, subtract, settle, offer}

abbrev pub total : List ℕ → ℕ
total [] = 0
total (n ∷ ns) = n + total ns

-- The sizes are those of broadcasts taken since the last settlement, and of the queue.
pub record IsAccounted (max_bytes : ℕ) (s : Subscription) : Type 0 where
  pub counted : length s.events ≤ length s.sizes
  pub summed : s.bytes ≡ total s.sizes
  pub light : s.bytes ≤ max_bytes

-- The accounts are kept until the subscription is closed.
pub record IsBounded (max_events max_bytes : ℕ) (s : Subscription) : Type 0 where
  pub few : length s.events ≤ max_events
  pub while_open : s.closed ≡ false → IsAccounted max_bytes s

total-take-drop : (k : ℕ) (ns : List ℕ) → total (take k ns) + total (drop k ns) ≡ total ns
total-take-drop zero ns = omega arith
total-take-drop (suc k) [] = refl
total-take-drop (suc k) (n ∷ ns) = omega (arith, total-take-drop k ns)

subtract-total : (b : ℕ) (ns : List ℕ) → total ns ≤ b → subtract b ns + total ns ≡ b
subtract-total b [] h = omega arith
subtract-total b (n ∷ ns) h = omega (arith, subtract-total (b - n) ns (omega arith))

length-drop : (k : ℕ) (ns : List ℕ) → k ≤ length ns → length (drop k ns) + k ≡ length ns
length-drop zero ns h = omega arith
length-drop (suc k) [] h = absurd (omega arith)
length-drop (suc k) (n ∷ ns) h = omega (arith, length-drop k ns (omega arith))

total-append : (ms ns : List ℕ) → total (ms ++ ns) ≡ total ms + total ns
total-append [] ns = omega arith
total-append (m ∷ ms) ns = omega (arith, total-append ms ns)

-- After a settlement there is one size for each broadcast of the queue.
settle-IsAccounted :
    (max_bytes : ℕ) (s : Subscription)
    → IsAccounted max_bytes s
    → IsAccounted max_bytes (settle s) × (length (settle s).sizes ≡ length s.events)
unfolding settle
settle-IsAccounted max_bytes s v =
    let k = length s.sizes - length s.events in
    let parts = total-take-drop k s.sizes in
    let rest = length-drop k s.sizes (omega arith) in
    let left = subtract-total s.bytes (take k s.sizes) (omega (arith, parts, v.summed)) in
    (
      record {
        counted = omega (arith, rest, v.counted);
        summed = omega (arith, left, parts, v.summed);
        light = omega (arith, left, v.light);
      },
      omega (arith, rest, v.counted),
    )

module _ (max_events max_bytes : ℕ) where
  -- The three ways of an offer: the subscription was closed, is closed now, or takes the broadcast.
  pub offer-cases :
      (b : Broadcast) (size : ℕ) (s : Subscription)
      → let new = offer max_events max_bytes b size s in
        ((new.closed ≡ true) × (new.events ≡ s.events))
        ⊎ ((s.closed ≡ false)
            × (length s.events < max_events)
            × ((settle s).bytes + size ≤ max_bytes)
            × (new.closed ≡ false)
            × (new.events ≡ s.events ++ b ∷ [])
            × (new.sizes ≡ (settle s).sizes ++ size ∷ [])
            × (new.bytes ≡ (settle s).bytes + size))
  unfolding offer
  offer-cases b size s = elim (Bool-cases s.closed) [
    | inl e ↦ inl (rw (offer, e) refl, rw (offer, e) refl)
    | inr e ↦
        elim (Bool-cases
          (leb max_events (length (settle s).events) || ltb max_bytes ((settle s).bytes + size))) [
            | inl full ↦ inl (rw (offer, e, full) refl, rw (offer, e, full) refl)
            | inr fits ↦ inr (
              e,
              ground arith,
              ground arith,
              rw (offer, e, fits) refl,
              rw (offer, e, fits) refl,
              rw (offer, e, fits) refl,
              rw (offer, e, fits) refl,
            )
          ]
  ]

  -- An offer of a broadcast, whatever its size, leaves a bounded queue bounded: it holds at most
  -- `max_events` broadcasts, and while the subscription is open the sizes of these and of those taken
  -- since the last settlement sum up to at most `max_bytes`.
  pub offer-IsBounded :
      (b : Broadcast) (size : ℕ) (s : Subscription)
      → IsBounded max_events max_bytes s
      → IsBounded max_events max_bytes (offer max_events max_bytes b size s)
  offer-IsBounded b size s v = elim (offer-cases b size s) [
    | inl (shut, same) ↦ record { few = rw same v.few; while_open = λ h. absurd (ground arith) }
    | inr (was_open, room, space, stays, queue, sizes, bytes) ↦
        let (v', same) = settle-IsAccounted max_bytes s (v.while_open was_open) in
        record {
          few = rw queue (omega (arith, length-append s.events (b ∷ []), room));
          while_open = λ h. record {
            counted =
                rw (queue, sizes)
                  (omega (
                    arith,
                    same,
                    length-append s.events (b ∷ []),
                    length-append (settle s).sizes (size ∷ []),
                  ));
            summed =
                rw (sizes, bytes)
                  (omega (arith, v'.summed, total-append (settle s).sizes (size ∷ [])));
            light = rw bytes space;
          };
        }
  ]

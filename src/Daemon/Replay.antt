-- ===== src/Daemon/Replay.antt =====
-- internal/daemon/replay.go: the events that a client missed are sent again, in batches, while the log
-- may grow. The welcome before them and the snapshot after them are left out.
use agent_room.Prelude.{
  ℕ, zero, suc, ◌-◌, Bool, true, false, not, ◌||◌, List, [], ◌∷◌, ◌++◌, String, ◌==◌, if◌then◌else◌,
  ltb, leb, length,
}
use agent_room.Result.{ok, err}
use agent_room.Store.Tables.{EventRow, Database}
use agent_room.Store.Queries.{events, latest_seq}

pub data ReplayError : Type 0 where
  invalid_cursor slow_subscriber store_failed incomplete invalid_order send_failed : ReplayError
  -- The steps allowed for the loop are used up.
  unfinished : ReplayError

pub data Outcome : Type 0 where
  reached : ℕ → Outcome
  stopped : ReplayError → Outcome

-- What was sent, and how it ended.
pub record Replayed : Type 0 where
  pub sent : List EventRow
  pub outcome : Outcome

abbrev pub stop : ReplayError → Replayed
stop e = record { sent = []; outcome = stopped e }

abbrev pub after_sent : List EventRow → Replayed → Replayed
after_sent es r = record { sent = es ++ r.sent; outcome = r.outcome }

-- The world of one replay: the database and the subscription as the loop finds them at its n-th
-- turn, and whether the client's connection takes an event.
pub record World : Type 0 where
  pub database : ℕ → Database
  pub closed : ℕ → Bool
  pub takes : EventRow → Bool

module _ (w : World) where
  -- The loop over a batch.
  unfoldable pub send_batch : ℕ → ℕ → List EventRow → Replayed
  send_batch last high [] = record { sent = []; outcome = reached last }
  send_batch last high (e ∷ es) =
      let rest = send_batch e.seq high es in
      if leb e.seq last || ltb high e.seq
      then stop invalid_order
      else if not (w.takes e)
      then stop send_failed
      else after_sent (e ∷ []) rest

  -- What follows a batch: the next turn of the loop, or the batch's error.
  abbrev pub continue_after : Replayed → (ℕ → Replayed) → Replayed
  continue_after batch next = elim batch.outcome [
    | reached last ↦ after_sent batch.sent (next last)
    | stopped e ↦ batch
  ]

  -- The outer loop at its n-th turn; each turn sends one event at least, so `high - last` turns
  -- are enough.
  unfoldable pub replay_from : ℕ → ℕ → String → ℕ → ℕ → Replayed
  unfolding send_batch
  replay_from zero n rid last high =
      if ltb last high then stop unfinished else record { sent = []; outcome = reached last }
  replay_from (suc fuel) n rid last high = elim (ltb last high) [
    | false ↦ record { sent = []; outcome = reached last }
    | true ↦
        if w.closed n
        then stop slow_subscriber
        else elim (events rid last high 128 (w.database n)) [
          | err e ↦ stop store_failed
          | ok es ↦ elim (length es == 0) [
            | true ↦ stop incomplete
            | false ↦
                continue_after (send_batch last high es)
                  λ last'. replay_from fuel (suc n) rid last' high
          ]
        ]
  ]

  unfoldable pub replay : String → ℕ → Database → Replayed
  unfolding replay_from
  replay rid last start = elim (latest_seq rid start) [
    | err e ↦ stop store_failed
    | ok high ↦
        if ltb high last then stop invalid_cursor else replay_from (high - last) 0 rid last high
  ]

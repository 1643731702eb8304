-- ===== src/Daemon/Live.antt =====
-- internal/daemon/replay.go: a replay over the store, while other commands run.
use agent_room.Prelude.{
  ◌<◌, ℕ, zero, suc, ◌-◌, ◌≤◌, ◌≡◌, refl, true, false, List, String, map, arith,
}
use agent_room.Result.{ok}
use agent_room.Store.Tables.{Canonical, Database}
use agent_room.Store.Queries.{latest_seq}
use agent_room.Store.Invariant.{IsWellFormed}
use agent_room.Store.Commands.{Command, run}
use agent_room.Store.History.Steps.{run-IsWellFormed}
use agent_room.Store.History.Growth.{run-latest_seq}
use agent_room.Daemon.Replay.{World, reached, replay, replay_from}
use agent_room.Daemon.Catchup.{span, replay-span}

module _ (hash : Canonical → String) where
  -- A store on which the commands `history n` have run at the loop's n-th turn, with a client whose
  -- subscription stays open and whose connection takes every event.
  abbrev pub live : (ℕ → List (Command × ℕ)) → Database → World
  live history start = record {
    database = λ n. run hash (history n) start;
    closed = λ n. false;
    takes = λ e. true;
  }

  -- Whatever commands run on the store meanwhile: a replay that starts on a well-formed database, for
  -- a client that has seen the events up to `last`, ends well, provided that the hub does not close
  -- its subscription before the replay's last turn (as it does when the bound on the broadcasts that
  -- wait in it is passed), that the connection takes every event, and that the numbers are below
  -- 2^63. It sends the events numbered last + 1, and so on up to the latest number at its start: each
  -- once, in this order, with none left out.
  pub replay-live :
      (history : ℕ → List (Command × ℕ)) (rid : String) (last high : ℕ) (start : Database)
      → IsWellFormed start
      → latest_seq rid start ≡ ok high
      → last ≤ high
      → high < 9223372036854775808
      → ((replay (live history start) rid last start).outcome ≡ reached high)
        × (map (λ e. e.seq) (replay (live history start) rid last start).sent
            ≡ span last (high - last))
  unfolding replay replay_from
  replay-live history rid zero zero start w h le small = (rw (replay, h) refl, rw (replay, h) refl)
  replay-live history rid (suc last) zero start w h le small = absurd (omega arith)
  replay-live history rid last (suc high) start w h le small =
      replay-span (live history start) (λ e. refl) rid (suc high)
        (λ n. run-IsWellFormed hash (history n) start w)
        (λ n. run-latest_seq hash (history n) rid start w h (omega arith)) (λ n. refl) small last
        start h le

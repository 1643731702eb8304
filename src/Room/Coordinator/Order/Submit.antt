-- ===== src/Room/Coordinator/Order/Submit.antt =====
-- internal/room/coordinator.go: an accepted prompt comes last in the order of the prompts.
use mathlib.Core.List.{append-nil}
use agent_room.Prelude.{ℕ, refl, inl, inr, true, false, List, ◌++◌, String, Bool-cases}
use agent_room.Result.{Result, ok, err}
use agent_room.Room.Types.{Actor, SubmitInput}
use agent_room.Store.Tables.{Canonical, Database}
use agent_room.Store.Accept.{Acceptance, accept_message, append_note}
use agent_room.Room.Coordinator.{Coordinator, Agent, settled, publish}
use agent_room.Room.Coordinator.Dispatch.{submitted, handle_submit}
use agent_room.Room.Coordinator.Inputs.{taken}
use agent_room.Room.Coordinator.Order.{Ordered, Ordered-snoc}
use agent_room.Room.Coordinator.Order.Dispatch.{unchanged, dispatch_next-Ordered}

module _ (hash : Canonical → String) (digest : String → String) (agent : Agent) (clock : ℕ → ℕ)
    (rid : String) (accepted : List String) where
  submitted-Ordered :
      (actor : Actor) (input : SubmitInput) (r : Result (Acceptance × Database)) (c : Coordinator)
      → Ordered accepted c
      → Ordered
          (accepted
            ++ taken input (submitted digest agent clock rid false actor input (settled r c)).0)
          (submitted digest agent clock rid false actor input (settled r c)).2
  unfolding submitted
  submitted-Ordered actor input (err e) c h = rw (append-nil accepted) (unchanged refl refl refl h)
  submitted-Ordered actor input (ok (got, db)) c h = elim (Bool-cases got.duplicate) [
    | inl again ↦ rw (again, append-nil accepted) (unchanged refl refl refl h)
    | inr new ↦ rw new (
        dispatch_next-Ordered digest agent clock rid _ _ (
          Ordered-snoc (publish got.event (settled (ok (got, db)) c).1)
            (record { input = input; actor = actor; accepted_seq = got.seq })
            (unchanged refl refl refl h)))
  ]

  noted-Ordered :
      (actor : Actor) (input : SubmitInput) (r : Result (Acceptance × Database)) (c : Coordinator)
      → Ordered accepted c
      → Ordered accepted (submitted digest agent clock rid true actor input (settled r c)).2
  unfolding submitted
  noted-Ordered actor input (err e) c h = unchanged refl refl refl h
  noted-Ordered actor input (ok (got, db)) c h = elim (Bool-cases got.duplicate) [
    | inl again ↦ rw again (unchanged refl refl refl h)
    | inr new ↦ rw new (unchanged refl refl refl h)
  ]

  pub prompt-Ordered :
      (actor : Actor) (input : SubmitInput) (c : Coordinator)
      → Ordered accepted c
      → Ordered
          (accepted
            ++ taken input (handle_submit digest agent clock rid hash actor input false c).0)
          (handle_submit digest agent clock rid hash actor input false c).2
  unfolding handle_submit
  prompt-Ordered actor input c h = elim (Bool-cases (agent.validates input)) [
    | inl fine ↦ rw fine (
        submitted-Ordered actor input
          (accept_message hash rid actor input (clock c.transactions) c.db) c h)
    | inr refused ↦ rw (refused, append-nil accepted) h
  ]

  pub note-Ordered :
      (actor : Actor) (input : SubmitInput) (c : Coordinator)
      → Ordered accepted c
      → Ordered accepted (handle_submit digest agent clock rid hash actor input true c).2
  unfolding handle_submit
  note-Ordered actor input c h =
      noted-Ordered actor input (append_note hash rid actor input (clock c.transactions) c.db) c h

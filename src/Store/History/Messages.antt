-- ===== src/Store/History/Messages.antt =====
-- The life of a message over a history: it moves along the diagram, and rests in its final states.
use agent_room.Prelude.{
  ℕ, ◌≡◌, refl, sym, ap, ◌∙◌, inl, inr, Bool, true, false, ◌||◌, List, [], ◌∷◌, some, String, find,
  All, arith,
}
use mathlib.Core.Path.{subst}
use agent_room.Room.Types.{RequestState, completed, failed, interrupted, same_state}
use agent_room.Store.Tables.{Canonical, MessageRow, Database, is_client_message}
use agent_room.Store.Rows.{set_message_state, load_stored_message}
use agent_room.Store.Moves.{
  ◌⟶◌, MayBecome, IsKey, begin, start, settle, refuse, drop, doubt, finish, crash, stop, lose,
  confirm, close, halt, requeue, resend,
}
use agent_room.Store.Wellformed.Messages.{Agrees}
use agent_room.Store.Invariant.{IsWellFormed}
use agent_room.Store.Commands.{Command, exec, run}
use agent_room.Store.History.Steps.{exec-Follows, run-IsWellFormed}

-- A state that a message comes to by moves of the diagram.
pub data Reaches (s : RequestState) : RequestState → Type 0 where
  stay : Reaches s s
  move : {t u : RequestState} → Reaches s t → t ⟶ u → Reaches s u

Reaches-snoc : {s t u : RequestState} → Reaches s t → MayBecome t u → Reaches s u
Reaches-snoc {s = s} r (inl e) = subst (Reaches s) (sym e) r
Reaches-snoc r (inr m) = move r m

Reaches-trans : {s t u : RequestState} → Reaches s t → Reaches t u → Reaches s u
Reaches-trans r stay = r
Reaches-trans r (move k m) = move (Reaches-trans r k) m

-- The states that the code never leaves.
abbrev pub is_final : RequestState → Bool
is_final s = same_state s completed || same_state s failed || same_state s interrupted

move-is_final : {s t : RequestState} → s ⟶ t → is_final s ≡ false
move-is_final begin = refl
move-is_final start = refl
move-is_final settle = refl
move-is_final refuse = refl
move-is_final drop = refl
move-is_final doubt = refl
move-is_final finish = refl
move-is_final crash = refl
move-is_final stop = refl
move-is_final lose = refl
move-is_final confirm = refl
move-is_final close = refl
move-is_final halt = refl
move-is_final requeue = refl
move-is_final resend = refl

final_stays : {s t : RequestState} → is_final s ≡ true → Reaches s t → t ≡ s
final_stays f stay = refl
final_stays {s = s} f (move {t = t} r m) =
    let same : t ≡ s = final_stays f r in absurd (ground (arith, rw same at (move-is_final m)))

module _ (hash : Canonical → String) where
  run-Reaches :
      (q : MessageRow → Bool) (cs : List (Command × ℕ)) (db : Database) (m : MessageRow)
      → IsKey q
      → IsWellFormed db
      → find q db.messages ≡ some m
      → (t : RequestState) × (find q (run hash cs db).messages ≡ some (set_message_state t m))
        × Reaches m.state t
  unfolding run
  run-Reaches q [] db m key w h = (m.state, h, stay)
  run-Reaches q ((c, now) ∷ cs) db m key w h =
      let fs = exec-Follows hash c now db w in
      let (t, found, one) = fs.evolves q key m h in
      let (u, found', more) =
        run-Reaches q cs (exec hash c now db) (set_message_state t m) key fs.well_formed found in
      (u, found', Reaches-trans (Reaches-snoc stay one) more)

  -- A message that a client sent keeps its id, sender, kind, content and place in the log over any
  -- history of a well-formed database; its state moves along the diagram alone.
  pub run-load_stored_message :
      (cs : List (Command × ℕ)) (db : Database) (rid cid : String) (m : MessageRow)
      → IsWellFormed db
      → load_stored_message rid cid db ≡ some m
      → (t : RequestState) × (load_stored_message rid cid (run hash cs db)
          ≡ some (set_message_state t m))
        × Reaches m.state t
  unfolding load_stored_message
  run-load_stored_message cs db rid cid m w h =
      run-Reaches (is_client_message rid cid) cs db m (λ s x. refl) w h

  -- A message that is completed, failed or interrupted is never changed again.
  pub run-final :
      (cs : List (Command × ℕ)) (db : Database) (rid cid : String) (m : MessageRow)
      → IsWellFormed db
      → is_final m.state ≡ true
      → load_stored_message rid cid db ≡ some m
      → load_stored_message rid cid (run hash cs db) ≡ some m
  run-final cs db rid cid m w f h =
      let (t, found, r) = run-load_stored_message cs db rid cid m w h in
      found ∙ ap (λ s. some (set_message_state s m)) (final_stays f r)

  -- After any history of a well-formed database, each binding belongs to a message of its room and
  -- has that message's state.
  pub run-agree :
      (cs : List (Command × ℕ)) (db : Database)
      → IsWellFormed db
      → All (Agrees (run hash cs db).messages) (run hash cs db).bindings
  run-agree cs db w = (run-IsWellFormed hash cs db w).agree

-- ===== src/Result.antt =====
-- The sentinel errors of the packages room and store, and fallible results. An error that wraps a
-- sentinel (`fmt.Errorf("%w: …")`) is its sentinel: callers tell them apart by `errors.Is`.
use agent_room.Prelude.{◌≡◌, refl, Bool, true, false}

pub data Error : Type 0 where
  -- internal/room/types.go
  blank_message invalid_client_message_id invalid_connection_id : Error
  expected_turn_id invalid_control_kind invalid_recovery invalid_task_id : Error
  -- internal/store/sqlite.go
  already_initialized connection_not_found corrupt_store idempotency_conflict : Error
  invalid_input invalid_state member_not_found message_not_found room_not_found : Error
  -- internal/store/tasks.go
  not_a_task_writer task_missing task_is_completed task_is_busy : Error
  -- internal/store/recovery.go
  stale_recovery no_recovery_events : Error
  -- `sql.ErrNoRows` where the code passes it on
  no_rows : Error
  -- a row that a UNIQUE or PRIMARY KEY constraint of internal/store/schema refuses
  constraint_failed : Error
  -- a number of 2^63 or more, which `database/sql` does not take
  number_refused : Error

pub data Result {ℓ} (A : Type ℓ) : Type ℓ where
  ok : A → Result A
  err : Error → Result A

-- An early return of the error when the test fails.
abbrev pub guard : Bool → Error → Result (Unit {0})
guard passed e = elim passed [ true ↦ ok tt | false ↦ err e ]

infixl 5 ◌>>=◌ ◌>>◌
-- What follows a step that can fail: it is skipped after an error.
abbrev pub ◌>>=◌ {ℓ κ} : {A : Type ℓ} {B : Type κ} → Result A → (A → Result B) → Result B
err failure >>= next = err failure
ok a >>= next = next a

abbrev pub ◌>>◌ {ℓ} : {B : Type ℓ} → Result (Unit {0}) → Result B → Result B
check >> next = check >>= λ done. next

-- A success of two steps is a success of the first, and of the second on its value.
pub >>=-eq-ok {ℓ κ} :
    {A : Type ℓ} {B : Type κ} (first : Result A) (next : A → Result B) {b : B}
    → (first >>= next) ≡ ok b
    → (a : A) × (first ≡ ok a) × (next a ≡ ok b)
>>=-eq-ok (err failure) next h = cc
>>=-eq-ok (ok a) next h = (a, refl, h)

pub guard-eq-ok : (b : Bool) (e : Error) {u : Unit {0}} → guard b e ≡ ok u → b ≡ true
guard-eq-ok true e h = refl
guard-eq-ok false e h = cc

-- A check that was passed, and what follows it.
pub guard_then {ℓ} :
    {A : Type ℓ} (b : Bool) (e : Error) (m : Result A) {a : A}
    → (guard b e >> m) ≡ ok a
    → (b ≡ true) × (m ≡ ok a)
guard_then true e m h = (refl, h)
guard_then false e m h = cc

pub after_guards {ℓ} :
    {A : Type ℓ} (b c : Bool) (e f : Error) {x a : A}
    → (guard b e >> (guard c f >> ok x)) ≡ ok a
    → x ≡ a
after_guards true true e f h = cc
after_guards true false e f h = cc
after_guards false c e f h = cc

pub after_guard {ℓ} :
    {A : Type ℓ} (b : Bool) (e : Error) {x a : A} → (guard b e >> ok x) ≡ ok a → x ≡ a
after_guard true e h = cc
after_guard false e h = cc

-- ===== src/Codex/Supervisor/Cleanup.antt =====
-- internal/codex/supervisor.go: no process is left behind, and none is thought gone that may run.
use agent_room.Prelude.{
  ◌<◌, ◌≡◌, ◌≢◌, refl, ap, inl, inr, ◌⊎◌, Bool, true, false, not, ◌&&◌, [], Option, none, some,
  String, str_eq, any, arith, Bool-cases, branch,
}
use agent_room.Codex.Supervisor.{
  Checkpoint, state_running, state_stopped, Match, process_absent, match_failed, process_matches,
  process_mismatch, match_other, is_no_process, reap_match, reap_previous, Child, Effect,
  start_process, stop_process, save, Answers, Started, validate_cli, valid_child, stop_session,
  initialize, adapt, record_running, check_child, start_child, start_generation, start_version,
  start_output, start,
}

abbrev pub is_start : Effect → Bool
is_start start_process = true
is_start _ = false

abbrev pub is_stop : Effect → Bool
is_stop stop_process = true
is_stop _ = false

-- The store is told that the process has stopped.
abbrev pub says_stopped : Effect → Bool
says_stopped (save c) = str_eq c.state state_stopped
says_stopped _ = false

-- The process was asked to stop, or there is no error.
abbrev IsHandled : Started → Type 0
IsHandled s = (s.0 ≡ []) ⊎ (any is_stop s.1 ≡ true)

initialize-IsHandled : (a : Answers) (c : Checkpoint) → IsHandled (initialize a c)
unfolding initialize stop_session
initialize-IsHandled a c =
    branch IsHandled (a.initialized && a.user_agent) _ _ (inl refl)
      (inr (elim (Bool-cases a.stopped) [ inl e ↦ rw e refl | inr e ↦ rw e refl ]))

adapt-IsHandled : (a : Answers) (c : Checkpoint) → IsHandled (adapt a c)
unfolding adapt
adapt-IsHandled a c =
    branch IsHandled a.adapted _ _ (initialize-IsHandled a c)
      (branch IsHandled a.stopped _ _ (inr refl) (inr refl))

record_running-IsHandled : (a : Answers) (c : Checkpoint) → IsHandled (record_running a c)
unfolding record_running
record_running-IsHandled a c = branch IsHandled a.saved_running _ _ (adapt-IsHandled a c) (inr refl)

check_child-IsHandled :
    (a : Answers) (version generation : String) (child : Option Child)
    → IsHandled (check_child a version generation child)
unfolding check_child
check_child-IsHandled a version generation none = inr refl
check_child-IsHandled a version generation (some c) =
    branch IsHandled (valid_child (some c) generation) _ _ (record_running-IsHandled a _) (inr refl)

-- Where the process was started, it was stopped too, or there is no error.
abbrev IsCleaned : Started → Type 0
IsCleaned s = any is_start s.1 ≡ true → s.0 ≢ [] → any is_stop s.1 ≡ true

start_child-IsCleaned :
    (a : Answers) (version generation : String) (child : Option (Option Child))
    → IsCleaned (start_child a version generation child)
unfolding start_child
start_child-IsCleaned a version generation none h failed = absurd (ground arith)
start_child-IsCleaned a version generation (some c) h failed =
    elim (check_child-IsHandled a version generation c) [
      | inl fine ↦ absurd (failed fine)
      | inr stopped ↦ stopped
    ]

start_generation-IsCleaned :
    (a : Answers) (version : String) (g : Option String) → IsCleaned (start_generation a version g)
unfolding start_generation
start_generation-IsCleaned a version none h failed = absurd (ground arith)
start_generation-IsCleaned a version (some g) h failed =
    start_child-IsCleaned a version g a.child h failed

start_version-IsCleaned : (a : Answers) (v : Option String) → IsCleaned (start_version a v)
unfolding start_version
start_version-IsCleaned a none h failed = absurd (ground arith)
start_version-IsCleaned a (some v) h failed = start_generation-IsCleaned a v a.generation h failed

start_output-IsCleaned : (a : Answers) (o : Option String) → IsCleaned (start_output a o)
unfolding start_output
start_output-IsCleaned a none h failed = absurd (ground arith)
start_output-IsCleaned a (some o) h failed =
    start_version-IsCleaned a (validate_cli a.allowed o) h failed

-- Whatever the process manager and the store answer, a start that fails after the process was started
-- has asked for the process to be stopped.
pub start-IsCleaned :
    (a : Answers)
    → any is_start (start a).1 ≡ true
    → (start a).0 ≢ []
    → any is_stop (start a).1 ≡ true
unfolding start
start-IsCleaned a =
    branch IsCleaned (not a.absolute) _ _ (λ h failed. absurd (ground arith))
      (branch IsCleaned a.cancelled _ _ (λ h failed. absurd (ground arith))
        (start_output-IsCleaned a a.version))

-- A stop that is not proven leaves the store's word that the process runs.
abbrev IsHonest : Started → Type 0
IsHonest s = any says_stopped s.1 ≡ false

module _ (a : Answers) (unproven : a.stopped ≡ false) where
  stop_session-IsHonest : (c : Checkpoint) → IsHonest (stop_session a c)
  unfolding stop_session
  stop_session-IsHonest c = rw unproven refl

  initialize-IsHonest : (c : Checkpoint) → IsHonest (initialize a c)
  unfolding initialize
  initialize-IsHonest c =
      branch IsHonest (a.initialized && a.user_agent) _ _ refl (stop_session-IsHonest c)

  adapt-IsHonest : (c : Checkpoint) → IsHonest (adapt a c)
  unfolding adapt
  adapt-IsHonest c = branch IsHonest a.adapted _ _ (initialize-IsHonest c) (rw unproven refl)

  record_running-IsHonest :
      (c : Checkpoint) → str_eq c.state state_stopped ≡ false → IsHonest (record_running a c)
  unfolding record_running
  record_running-IsHonest c h =
      branch IsHonest a.saved_running _ _ (rw (h, adapt-IsHonest c) refl) (rw h refl)

  check_child-IsHonest :
      (version generation : String) (child : Option Child)
      → IsHonest (check_child a version generation child)
  unfolding check_child
  check_child-IsHonest version generation none = refl
  check_child-IsHonest version generation (some c) =
      branch IsHonest (valid_child (some c) generation) _ _ (record_running-IsHonest _ refl) refl

  start_child-IsHonest :
      (version generation : String) (child : Option (Option Child))
      → IsHonest (start_child a version generation child)
  unfolding start_child
  start_child-IsHonest version generation none = refl
  start_child-IsHonest version generation (some c) = check_child-IsHonest version generation c

  start_generation-IsHonest :
      (version : String) (g : Option String) → IsHonest (start_generation a version g)
  unfolding start_generation
  start_generation-IsHonest version none = refl
  start_generation-IsHonest version (some g) = start_child-IsHonest version g a.child

  start_version-IsHonest : (v : Option String) → IsHonest (start_version a v)
  unfolding start_version
  start_version-IsHonest none = refl
  start_version-IsHonest (some v) = start_generation-IsHonest v a.generation

  start_output-IsHonest : (o : Option String) → IsHonest (start_output a o)
  unfolding start_output
  start_output-IsHonest none = refl
  start_output-IsHonest (some o) = start_version-IsHonest (validate_cli a.allowed o)

-- Where the stop of the process cannot be proven, no checkpoint of a start says that it has stopped.
pub start-IsHonest : (a : Answers) → a.stopped ≡ false → any says_stopped (start a).1 ≡ false
unfolding start
start-IsHonest a unproven =
    branch IsHonest (not a.absolute) _ _ refl
      (branch IsHonest a.cancelled _ _ refl (start_output-IsHonest a unproven a.version))

reap_match-absent : (m : Match) → reap_match m ≡ none → m ≡ process_absent
reap_match-absent match_failed h = absurd (ground arith)
reap_match-absent process_absent h = refl
reap_match-absent process_matches h = absurd (ground arith)
reap_match-absent process_mismatch h = absurd (ground arith)
reap_match-absent match_other h = absurd (ground arith)

-- A checkpoint of a process that was running is passed only if the process table says that the
-- process is gone, and only if its ids can be those of a process.
pub reap_previous-absent :
    (match : Checkpoint → Match) (c : Checkpoint)
    → c.state ≡ state_running
    → reap_previous match (some c) ≡ none
    → (match c ≡ process_absent) × (1 < c.pid) × (1 < c.pgid)
unfolding reap_previous
reap_previous-absent match c runs h =
    let named : str_eq c.state "" ≡ false = ap (λ s. str_eq s "") runs in
    let lives : str_eq c.state state_stopped ≡ false = ap (λ s. str_eq s state_stopped) runs in
    elim (Bool-cases (is_no_process c)) [
      | inl bad ↦ absurd (ground (arith, rw (reap_previous, named, lives, bad) at h))
      | inr good ↦ (
        reap_match-absent (match c) (rw (reap_previous, named, lives, good) at h),
        ground arith,
        ground arith,
      )
    ]

-- ===== src/Codex/Supervisor/Tests.antt =====
-- The theorems on the process, at concrete inputs.
use agent_room.Prelude.{◌≡◌, ◌≢◌, refl, true, false, [], ◌∷◌, some, any}
use agent_room.Prelude.Text.{is_blank}
use agent_room.Codex.Supervisor.{Child, Answers, checkpoint_persistence, process_cleanup, start}
use agent_room.Codex.Supervisor.Cleanup.{
  is_start, is_stop, says_stopped, start-IsCleaned, start-IsHonest,
}

abbrev child : Child
child = record { is_piped = true; generation = "g1"; pid = 40; pgid = 40; start_identity = "boot" }

-- The store does not take the running checkpoint, and the process does not stop.
abbrev unlucky : Answers
unlucky = record {
  absolute = true;
  cancelled = false;
  version = some "codex-cli 1";
  allowed = "codex-cli 1" ∷ [];
  generation = some "g1";
  child = some (some child);
  stopped = false;
  saved_running = false;
  adapted = true;
  saved_stopped = true;
  initialized = true;
  user_agent = true;
  schema = "s";
}

unlucky_started : any is_start (start unlucky).1 ≡ true
unfolding start is_blank
unlucky_started = refl

unlucky_failed : (start unlucky).0 ≡ checkpoint_persistence ∷ process_cleanup ∷ []
unfolding start is_blank
unlucky_failed = refl

unlucky_refused : (start unlucky).0 ≢ []
unlucky_refused h = cc (unlucky_failed, h)

start-IsCleaned_example : any is_stop (start unlucky).1 ≡ true
start-IsCleaned_example = start-IsCleaned unlucky unlucky_started unlucky_refused

start-IsHonest_example : any says_stopped (start unlucky).1 ≡ false
start-IsHonest_example = start-IsHonest unlucky refl

-- ===== src/Workgroup/Config.antt =====
-- internal/workgroup/config.go: the members of the group, and the validation of their configuration.
use agent_room.Prelude.{
  ℕ, Bool, true, false, not, ◌&&◌, ◌||◌, List, [], ◌∷◌, Option, none, some, String, str_eq, ◌==◌,
  if◌then◌else◌, ltb, leb, any, all, length,
}
use agent_room.Prelude.Text.{codes, is_blank, byte_len}
use agent_room.Prelude.Int.{ℤ, pos, negsuc}

pub record Agent : Type 0 where
  pub mode : String
  pub id : String
  pub name : String
  pub provider : String
  pub description : String
  pub instructions : String
  pub command : List String
  pub timeout_seconds : ℤ

pub record Config : Type 0 where
  pub version : ℕ
  pub members : List Agent

abbrev is_lower : ℕ → Bool
is_lower c = leb b'a' c && leb c b'z'

abbrev is_id_char : ℕ → Bool
is_id_char c = is_lower c || (leb b'0' c && leb c b'9') || c == b'_' || c == b'.' || c == b'-'

id_codes : List ℕ → Bool
id_codes [] = false
id_codes (c ∷ cs) = is_lower c && all is_id_char cs && leb (length cs) 31

-- `^[a-z][a-z0-9_.-]{0,31}$`.
unfoldable pub valid_id : String → Bool
unfolding id_codes
valid_id id = id_codes (codes id)

-- `filepath.IsAbs` on Unix.
abbrev is_abs : List ℕ → Bool
is_abs [] = false
is_abs (c ∷ cs) = c == b'/'

abbrev pub first_is_abs : List String → Bool
first_is_abs [] = false
first_is_abs (path ∷ arguments) = is_abs (codes path)

-- `TimeoutSeconds < 0 || TimeoutSeconds > 7200`.
abbrev bad_timeout : ℤ → Bool
bad_timeout (pos n) = ltb 7200 n
bad_timeout (negsuc n) = true

pub data ConfigError : Type 0 where
  wrong_version_or_size missing_codex : ConfigError
  bad_member : String → ConfigError
  codex_with_command bad_mode bad_native_command bad_exec_command : ConfigError
  bad_provider : String → ConfigError

-- The `switch` on the provider; `none` is no error.
unfoldable pub check_provider : Agent → Option ConfigError
unfolding valid_id
check_provider m =
    if str_eq m.provider "codex"
    then (if not (length m.command == 0) then some codex_with_command else none)
    else if str_eq m.provider "cursor" || str_eq m.provider "claude-code"
    then (if not (str_eq m.mode "") && not (str_eq m.mode "review") && not (str_eq m.mode "work")
        then some bad_mode
        else if ltb 1 (length m.command) || (length m.command == 1 && not (first_is_abs m.command))
        then some bad_native_command
        else none)
    else if str_eq m.provider "exec"
    then (if length m.command == 0 || ltb 32 (length m.command) || not (first_is_abs m.command)
        then some bad_exec_command
        else none)
    else if not (valid_id m.provider)
    then some (bad_provider m.provider)
    else none

unfoldable pub bad_agent : List String → Agent → Bool
unfolding valid_id
bad_agent seen m =
    not (valid_id m.id)
    || any (λ id. str_eq id m.id) seen
    || is_blank m.name
    || ltb 120 (byte_len m.name)
    || ltb 500 (byte_len m.description)
    || ltb 8000 (byte_len m.instructions)
    || bad_timeout m.timeout_seconds

-- The loop over the members, with the ids that it has seen and whether `codex` is among them.
unfoldable pub check_agents : List String → Bool → List Agent → Option ConfigError
unfolding bad_agent check_provider
check_agents seen builtin [] = if builtin then none else some missing_codex
check_agents seen builtin (m ∷ ms) =
    let found = if str_eq m.id "codex" then str_eq m.provider "codex" else builtin in
    let rest = check_agents (m.id ∷ seen) found ms in
    if bad_agent seen m
    then some (bad_member m.id)
    else elim (check_provider m) [ some e ↦ some e | none ↦ rest ]

unfoldable pub validate : Config → Option ConfigError
unfolding check_agents
validate c =
    if not (c.version == 1) || ltb (length c.members) 1 || ltb 16 (length c.members)
    then some wrong_version_or_size
    else check_agents [] false c.members

-- ===== src/Store/Checks.antt =====
-- internal/store/repository.go, recovery.go: the checks of the values that a command carries.
use agent_room.Prelude.{
  ℕ, ◌≡◌, refl, Bool, true, false, ◌&&◌, ◌||◌, List, [], ◌∷◌, String, len, str_eq, ◌==◌, leb,
  if◌then◌else◌, all,
}
use agent_room.Prelude.Text.{codes, is_hex}
use agent_room.Result.{Result, ◌>>◌, guard, invalid_input}
use agent_room.Room.Types.{RequestState, completed, failed, interrupted, needs_review, same_state}

abbrev is_lower : ℕ → Bool
is_lower c = leb b'a' c && leb c b'z'

abbrev is_alnum : ℕ → Bool
is_alnum c = is_lower c || (leb b'0' c && leb c b'9')

abbrev is_separator : ℕ → Bool
is_separator c = c == b'.' || c == b'_' || c == b'-'

-- The rest of `[a-z0-9]*(?:[._-][a-z0-9]+)*$`; `inside` says that the text so far may end a word.
pub match_words : Bool → List ℕ → Bool
match_words inside [] = inside
match_words inside (c ∷ cs) = elim (is_alnum c) [
  | true ↦ match_words true cs
  | false ↦ elim (inside && is_separator c) [ true ↦ match_words false cs | false ↦ false ]
]

-- `normalizedCodePattern`.
pub match_code : List ℕ → Bool
unfolding match_words
match_code [] = false
match_code (c ∷ cs) = is_lower c && match_words true cs

unfoldable pub valid_error_code : String → Bool
unfolding match_code
valid_error_code value = leb (len value) 64 && match_code (codes value)

unfoldable pub valid_digest : String → Bool
valid_digest value = len value == 64 && all is_hex (codes value)

unfoldable pub valid_optional_digest : String → Bool
valid_optional_digest value = str_eq value "" || valid_digest value

-- The diagnostic that a terminal state must carry: none on completion.
pub check_diagnostic : RequestState → String → String → Result (Unit {0})
check_diagnostic completed code digest = guard (str_eq code "" && str_eq digest "") invalid_input
check_diagnostic _ code digest =
    guard (valid_error_code code && valid_optional_digest digest) invalid_input

unfoldable pub validate_terminal_outcome : RequestState → String → String → Bool → Result (Unit {0})
unfolding check_diagnostic
validate_terminal_outcome state code digest controls = do
  guard
      (same_state state failed
        || same_state state needs_review
        || (if controls then same_state state completed else same_state state interrupted))
      invalid_input
  check_diagnostic state code digest

unfoldable pub validate_finish_turn : RequestState → String → String → Result (Unit {0})
unfolding check_diagnostic
validate_finish_turn state code digest = do
  guard (same_state state completed || same_state state failed || same_state state interrupted)
      invalid_input
  check_diagnostic state code digest

unfoldable pub validate_reason : String → String → Result (Unit {0})
validate_reason code digest = guard (valid_error_code code && valid_digest digest) invalid_input

test_codes : match_code (codes "delivery-not-sent") ≡ true
unfolding match_code
test_codes = refl

test_bad_code : match_code (codes "stale--turn") ≡ false
unfolding match_code
test_bad_code = refl

-- ===== src/Auth/Identifiers.antt =====
-- server/app/auth/identifiers.py: the policy on usernames.
pub mod Policy
mod Tests
use encrypt_chat_app.Base.{
  Bool, Text, [], codes, false, if◌then◌else◌, leb, length, ltb, not, true, ℕ, ◌&&◌, ◌||◌, ◌∷◌,
}
use encrypt_chat_app.Environ.{is_empty}
use encrypt_chat_app.Websocket.Identifier.{is_lower_alnum, all_identifier_chars}

-- What the code takes from `str` and `unicodedata`: NFKC normalisation, `strip` and `casefold`.
pub record Unicode : Type 0 where
  pub nfkc : Text → Text
  pub strip : Text → Text
  pub casefold : Text → Text

abbrev pub min_username_length : ℕ
min_username_length = 3

abbrev pub max_username_length : ℕ
max_username_length = 32

-- The reasons of `InvalidUsernameError`.
pub data InvalidUsernameError : Type 0 where
  is_blank too_short too_long has_other_characters : InvalidUsernameError

-- The reason that the exception carries.
abbrev pub reason : InvalidUsernameError → Text
reason is_blank = codes "username must not be empty"
reason too_short = codes "username must be at least 3 characters"
reason too_long = codes "username must be at most 32 characters"
reason has_other_characters =
    codes
      "username may contain only lowercase letters, digits, dot, dash and underscore, and must start with a letter or digit"

pub data Username : Type 0 where
  valid : Text → Username
  invalid : InvalidUsernameError → Username

-- `USERNAME_PATTERN.fullmatch(value)`: one `[a-z0-9]`, then 2 to 31 characters.
unfoldable pub username_pattern : Text → Bool
username_pattern [] = false
username_pattern (c ∷ s) =
    is_lower_alnum c && (leb 2 (length s) && (leb (length s) 31 && all_identifier_chars s))

module _ (u : Unicode) where
  abbrev pub normalize_username : Text → Text
  normalize_username raw = u.casefold (u.strip (u.nfkc raw))

  -- The checks on the normalised form.
  abbrev pub check_normalized : Text → Username
  check_normalized normalized =
      if ltb (length normalized) min_username_length
      then invalid too_short
      else if ltb max_username_length (length normalized)
      then invalid too_long
      else if not (username_pattern normalized)
      then invalid has_other_characters
      else valid normalized

  unfoldable pub validate_username : Text → Username
  validate_username raw =
      if is_empty raw || is_empty (u.strip raw)
      then invalid is_blank
      else check_normalized (normalize_username raw)

  abbrev is_valid : Username → Bool
  is_valid (valid normalized) = true
  is_valid (invalid error) = false

  unfoldable pub is_valid_username : Text → Bool
  is_valid_username raw = is_valid (validate_username raw)

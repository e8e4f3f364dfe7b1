-- ===== src/Websocket/Identifier.antt =====
-- schemas.py: `IDENTIFIER_PATTERN` and `is_valid_identifier`.
use encrypt_chat_app.Base.{
  Bool, Text, [], false, if◌then◌else◌, leb, length, true, ℕ, ◌&&◌, ◌==◌, ◌||◌, ◌∷◌,
}

abbrev pub max_identifier_length : ℕ
max_identifier_length = 64

-- `[a-z0-9]` and `[a-z0-9._-]`
abbrev pub is_lower_alnum : ℕ → Bool
is_lower_alnum c = leb b'a' c && leb c b'z' || leb b'0' c && leb c b'9'

abbrev pub is_identifier_char : ℕ → Bool
is_identifier_char c = is_lower_alnum c || (c == b'.' || (c == b'_' || c == b'-'))

unfoldable pub all_identifier_chars : Text → Bool
all_identifier_chars [] = true
all_identifier_chars (c ∷ s) = is_identifier_char c && all_identifier_chars s

-- `IDENTIFIER_PATTERN.fullmatch(value)`: one `[a-z0-9]`, then at most 63 characters.
unfoldable pub is_valid_identifier : Text → Bool
is_valid_identifier [] = false
is_valid_identifier (c ∷ s) = is_lower_alnum c && (leb (length s) 63 && all_identifier_chars s)

-- The text without a final line feed.
unfoldable pub chop : Text → Text
chop [] = []
chop (c ∷ []) = if c == 10 then [] else c ∷ []
chop (c ∷ d ∷ s) = c ∷ chop (d ∷ s)

-- `IDENTIFIER_PATTERN` as a constraint of a field: the `$` of an engine may stand before a final line
-- feed too.
unfoldable pub matches_pattern : Bool → Text → Bool
matches_pattern dollar_before_newline s =
    is_valid_identifier s || (dollar_before_newline && is_valid_identifier (chop s))

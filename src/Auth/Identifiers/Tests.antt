-- ===== src/Auth/Identifiers/Tests.antt =====
-- The policy with normalisations that change nothing, on a short name.
use encrypt_chat_app.Base.{codes, length, refl, true, ◌≡◌, ◌≤◌}
use encrypt_chat_app.Auth.Identifiers.{
  Unicode, valid, username_pattern, normalize_username, validate_username,
}
use encrypt_chat_app.Auth.Identifiers.Policy.{validate_username-is_valid_identifier}
use encrypt_chat_app.Websocket.Identifier.{is_valid_identifier, all_identifier_chars}

abbrev plain : Unicode
plain = record { nfkc = λ s. s; strip = λ s. s; casefold = λ s. s }

valid_sample : validate_username plain (codes "eve_1") ≡ valid (codes "eve_1")
unfolding validate_username username_pattern all_identifier_chars
valid_sample = refl

validate_username-is_valid_identifier_example :
    (normalize_username plain (codes "eve_1") ≡ codes "eve_1")
    × (is_valid_identifier (codes "eve_1") ≡ true)
    × (3 ≤ length (codes "eve_1"))
    × (length (codes "eve_1") ≤ 32)
validate_username-is_valid_identifier_example =
    validate_username-is_valid_identifier plain (codes "eve_1") (codes "eve_1") valid_sample

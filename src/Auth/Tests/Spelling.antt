-- ===== src/Auth/Tests/Spelling.antt =====
-- Two spellings of one name.
use encrypt_chat_app.Base.{
  Text, [], codes, if◌then◌else◌, insert, leb, lookup, none, refl, some, text_eq, ℕ, ◌&&◌, ◌+◌, ◌∷◌,
  ◌≡◌,
}
use encrypt_chat_app.Websocket.Identifier.{all_identifier_chars}
use encrypt_chat_app.Auth.Errors.{registration_rejected, auth_error_with, returned, raised}
use encrypt_chat_app.Auth.Identifiers.{validate_username, username_pattern, valid}
use encrypt_chat_app.Auth.Models.{User}
use encrypt_chat_app.Auth.Passwords.{validate_policy, hash}
use encrypt_chat_app.Auth.Database.Memory.{Memory, any_clash, memory}
use encrypt_chat_app.Auth.Database.Memory.Laws.{memory-IsDatabase}
use encrypt_chat_app.Auth.Service.{Libraries, register}
use encrypt_chat_app.Auth.Service.Registration.{register_unique}
use encrypt_chat_app.Auth.Tests.Sample.{
  plain, settings, no_rows, eve, phrase, registering, logging_in, eve_row,
}

-- The case folding of the ASCII letters.
abbrev small : ℕ → ℕ
small c = if leb 65 c && leb c 90 then c + 32 else c

unfoldable folded : Text → Text
folded [] = []
folded (c ∷ s) = small c ∷ folded s

abbrev folding : Libraries
folding = record plain { unicode = record { nfkc = λ s. s; strip = λ s. s; casefold = folded } }

abbrev capital_eve : User
capital_eve = record eve_row { username = codes "Eve_1" }

abbrev capital_store : Memory
capital_store = record no_rows {
  users = (codes "u", some capital_eve) ∷ [];
  names = (eve, codes "u") ∷ [];
}

capital_registers :
    register folding memory settings no_rows (codes "Eve_1") phrase registering
    ≡ (returned capital_eve, capital_store)
unfolding register validate_username username_pattern all_identifier_chars validate_policy hash
    lookup text_eq insert any_clash folded
capital_registers = refl

shouted : validate_username folding.unicode (codes "EVE_1") ≡ valid capital_eve.username_normalized
unfolding validate_username username_pattern all_identifier_chars folded
shouted = refl

phrase_suits : validate_policy settings phrase ≡ none
unfolding validate_policy
phrase_suits = refl

register_unique_example :
    register folding memory settings capital_store (codes "EVE_1") phrase logging_in ≡ (
      raised (auth_error_with registration_rejected 409 (codes "identifier already registered")),
      capital_store,
    )
register_unique_example =
    register_unique folding memory settings no_rows capital_store (codes "Eve_1") phrase
      (codes "EVE_1") phrase registering logging_in capital_eve memory-IsDatabase capital_registers
      shouted phrase_suits

-- ===== src/Auth/Tests/Codec.antt =====
-- Stand-ins for the libraries, for the tests: a token is its claims, written so that they can be read
-- again, and the hash of a password is the password.
use encrypt_chat_app.Base.{
  Dict, List, Option, Text, [], ap, codes, false, if◌then◌else◌, leb, lookup, map, none, refl, some,
  suc, text_eq, text_eq_refl, zero, ℕ, ◌*◌, ◌++◌, ◌∙◌, ◌∷◌, ◌≡◌,
}
use encrypt_chat_app.Websocket.Limits.{second}
use encrypt_chat_app.Auth.Identifiers.{Unicode}
use encrypt_chat_app.Auth.Passwords.{Argon2, IsArgon2}
use encrypt_chat_app.Auth.Tokens.{
  Claim, text, number, other, Decoded, payload, expired_signature, invalid_token, Jwt, IsJwt,
}

-- Segments that end in zero.
abbrev join : List Text → Text
join [] = []
join (s ∷ ss) = map (λ c. suc c) s ++ 0 ∷ join ss

abbrev add : ℕ → List Text → List Text
add c [] = (c ∷ []) ∷ []
add c (s ∷ ss) = (c ∷ s) ∷ ss

abbrev cut : Text → List Text
cut [] = []
cut (zero ∷ t) = [] ∷ cut t
cut (suc c ∷ t) = add c (cut t)

cut_segment : (s t : Text) → cut (map (λ c. suc c) s ++ 0 ∷ t) ≡ s ∷ cut t
cut_segment [] t = refl
cut_segment (c ∷ s) t = rw (cut_segment s t) refl

cut-join : (ss : List Text) → cut (join ss) ≡ ss
cut-join [] = refl
cut-join (s ∷ ss) = cut_segment s (join ss) ∙ ap (λ r. s ∷ r) (cut-join ss)

abbrev write_claim : Claim → Text
write_claim (text s) = 1 ∷ s
write_claim (number n) = 2 ∷ n ∷ []
write_claim other = []

abbrev read_claim : Text → Claim
read_claim (suc zero ∷ s) = text s
read_claim (suc (suc zero) ∷ n ∷ []) = number n
read_claim _ = other

read_claim-write_claim : (c : Claim) → read_claim (write_claim c) ≡ c
read_claim-write_claim (text s) = refl
read_claim-write_claim (number n) = refl
read_claim-write_claim other = refl

abbrev write_claims : Dict Claim → List Text
write_claims [] = []
write_claims ((k, c) ∷ d) = k ∷ write_claim c ∷ write_claims d

abbrev read_claims : List Text → Dict Claim
read_claims (k ∷ s ∷ ss) = (k, read_claim s) ∷ read_claims ss
read_claims _ = []

read_claims-write_claims : (d : Dict Claim) → read_claims (write_claims d) ≡ d
read_claims-write_claims [] = refl
read_claims-write_claims ((k, c) ∷ d) =
    rw (read_claim-write_claim c, read_claims-write_claims d) refl

abbrev expire_at : Dict Claim → ℕ → Option Claim → Decoded
expire_at claims at (some (number exp)) =
    if leb (exp * second) at then expired_signature else payload claims
expire_at claims at _ = invalid_token (codes "MissingRequiredClaimError")

abbrev pub plain_jwt : Jwt
plain_jwt = record {
  encode = λ claims secret algorithm. join (write_claims claims);
  decode = λ token secret algorithms issuer audience required at.
      expire_at (read_claims (cut token)) at (lookup (codes "exp") (read_claims (cut token)));
  int = λ s. none;
  sha256 = λ s. s;
}

pub plain_jwt-IsJwt : IsJwt plain_jwt
plain_jwt-IsJwt = record {
  decode-encode = λ claims secret algorithm issuer audience required iat exp at standard _ _.
      rw (cut-join (write_claims claims), read_claims-write_claims claims, standard.expires_at)
        refl;
}

abbrev pub plain_unicode : Unicode
plain_unicode = record { nfkc = λ s. s; strip = λ s. s; casefold = λ s. s }

abbrev pub plain_argon2 : Argon2
plain_argon2 = record {
  hash = λ p salt password. password;
  verify = text_eq;
  check_needs_rehash = λ p h. some false;
}

pub plain_argon2-IsArgon2 : IsArgon2 plain_argon2
plain_argon2-IsArgon2 = record { verify-hash = λ p salt password. text_eq_refl password }

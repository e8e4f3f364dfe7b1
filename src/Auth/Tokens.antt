-- ===== src/Auth/Tokens.antt =====
-- server/app/auth/tokens.py: `TokenService` over PyJWT and SHA-256, which are parameters.
pub mod Lifetime
use encrypt_chat_app.Base.{
  All, Bool, Dict, List, Option, Text, [], codes, false, if◌then◌else◌, leb, lookup, none, not,
  some, text_eq, ℕ, ◌*◌, ◌++◌, ◌+◌, ◌/◌, ◌∷◌, ◌≡◌, ◌≤◌,
}
use encrypt_chat_app.Websocket.Limits.{second}
use encrypt_chat_app.Auth.Config.{AuthConfig}
use encrypt_chat_app.Auth.Errors.{
  Outcome, returned, raised, crashed, auth_error, token_expired, token_invalid,
}

-- A value of a claim, as far as the code tells them apart: a number stands for those that `int` takes
-- to it.
pub data Claim : Type 0 where
  text : Text → Claim
  number : ℕ → Claim
  other : Claim

-- What `jwt.decode` ends in: the claims, an `ExpiredSignatureError`, or another `InvalidTokenError`
-- with the name of its class.
pub data Decoded : Type 0 where
  payload : Dict Claim → Decoded
  expired_signature : Decoded
  invalid_token : Text → Decoded

-- `encode(claims, secret, algorithm)`, `decode(token, secret, algorithms, issuer, audience, required)`
-- at a time, `int` of a text, and the SHA-256 of a text in hexadecimal.
pub record Jwt : Type 0 where
  pub encode : Dict Claim → Text → Text → Text
  pub decode : Text → Text → List Text → Text → Text → List Text → ℕ → Decoded
  pub int : Text → Option ℕ
  pub sha256 : Text → Text

-- The claims that PyJWT checks by name, and the times that it reads from them.
pub record IsStandard (claims : Dict Claim) (issuer audience : Text) (iat exp : ℕ) : Type 0 where
  pub issued_by : lookup (codes "iss") claims ≡ some (text issuer)
  pub issued_for : lookup (codes "aud") claims ≡ some (text audience)
  pub issued_at : lookup (codes "iat") claims ≡ some (number iat)
  pub expires_at : lookup (codes "exp") claims ≡ some (number exp)

-- A token that the same secret has signed decodes to its claims from its issue to its expiry, and is
-- reported as expired from then on.
pub record IsJwt (j : Jwt) : Type 0 where
  pub decode-encode :
      (claims : Dict Claim) (secret algorithm issuer audience : Text) (required : List Text)
      (iat exp at : ℕ)
      → IsStandard claims issuer audience iat exp
      → All (λ key. (value : Claim) × (lookup key claims ≡ some value)) required
      → iat * second ≤ at
      → j.decode
          (j.encode claims secret algorithm)
          secret
          (algorithm ∷ [])
          issuer
          audience
          required
          at
        ≡ (if leb (exp * second) at then expired_signature else payload claims)

pub record AccessTokenClaims : Type 0 where
  pub user_id : Text
  pub session_id : Text
  pub token_id : Text
  pub issued_at : ℕ
  pub expires_at : ℕ

-- `timedelta(minutes=n)` and `timedelta(days=n)`
abbrev pub minutes : ℕ → ℕ
minutes n = n * (60 * second)

abbrev pub days : ℕ → ℕ
days n = n * (86400 * second)

-- `int(moment.timestamp())`
abbrev pub timestamp : ℕ → ℕ
timestamp moment = moment / second

abbrev pub access : Text
access = codes "access"

-- `isinstance(payload.get(key), str)`, with the text.
abbrev pub text_claim : Option Claim → Option Text
text_claim (some (text s)) = some s
text_claim _ = none

-- `payload.get("token_type") != TokenType.ACCESS.value`
abbrev pub is_access : Option Claim → Bool
is_access (some (text s)) = text_eq s access
is_access _ = false

abbrev pub required_claims : List Text
required_claims = codes "exp" ∷ codes "iat" ∷ codes "sub" ∷ codes "iss" ∷ codes "aud" ∷ []

-- The claims of a new token; `token_id` is the `uuid4` drawn for it.
abbrev pub access_claims : AuthConfig → Text → Text → Text → ℕ → Dict Claim
access_claims c user_id session_id token_id now =
    (codes "sub", text user_id)
    ∷ (codes "sid", text session_id)
    ∷ (codes "jti", text token_id)
    ∷ (codes "iat", number (timestamp now))
    ∷ (codes "exp", number (timestamp (now + minutes c.access_token_ttl_minutes)))
    ∷ (codes "iss", text c.issuer)
    ∷ (codes "aud", text c.audience)
    ∷ (codes "token_type", text access)
    ∷ []

module _ (j : Jwt) (c : AuthConfig) where
  unfoldable pub issue_access_token : Text → Text → Text → ℕ → Text
  issue_access_token user_id session_id token_id now =
      j.encode (access_claims c user_id session_id token_id now) c.signing_secret c.algorithm

  -- `datetime.fromtimestamp(int(claim))`, none where an exception leaves the function.
  abbrev pub time_claim : Option Claim → Option ℕ
  time_claim (some (number n)) = some (n * second)
  time_claim (some (text s)) = elim (j.int s) [ none ↦ none | some n ↦ some (n * second) ]
  time_claim _ = none

  abbrev with_times : Text → Text → Text → Option ℕ → Option ℕ → Outcome AccessTokenClaims
  with_times user_id session_id token_id (some issued_at) (some expires_at) = returned (record {
    user_id = user_id;
    session_id = session_id;
    token_id = token_id;
    issued_at = issued_at;
    expires_at = expires_at;
  })
  with_times user_id session_id token_id _ _ = crashed

  abbrev with_ids : Dict Claim → Option Text → Option Text → Option Text → Outcome AccessTokenClaims
  with_ids claims (some user_id) (some session_id) (some token_id) =
      with_times user_id session_id token_id (time_claim (lookup (codes "iat") claims))
        (time_claim (lookup (codes "exp") claims))
  with_ids claims _ _ _ = raised (auth_error token_invalid (codes "token claims malformed"))

  -- What follows the `try` block.
  unfoldable pub check_claims : Dict Claim → Outcome AccessTokenClaims
  check_claims claims =
      if not (is_access (lookup (codes "token_type") claims))
      then raised (auth_error token_invalid (codes "wrong token type presented"))
      else with_ids claims (text_claim (lookup (codes "sub") claims))
          (text_claim (lookup (codes "sid") claims)) (text_claim (lookup (codes "jti") claims))

  abbrev on_decoded : Decoded → Outcome AccessTokenClaims
  on_decoded (payload claims) = check_claims claims
  on_decoded expired_signature = raised (auth_error token_expired (codes "access token expired"))
  on_decoded (invalid_token name) =
      raised (auth_error token_invalid (codes "invalid token: " ++ name))

  -- At the time that `jwt.decode` reads.
  unfoldable pub decode_access_token : Text → ℕ → Outcome AccessTokenClaims
  decode_access_token token at =
      on_decoded
        (j.decode token c.signing_secret (c.algorithm ∷ []) c.issuer c.audience required_claims at)

  unfoldable pub hash_refresh_token : Text → Text
  hash_refresh_token token = j.sha256 token

  unfoldable pub refresh_expiry : ℕ → ℕ
  refresh_expiry now = now + days c.refresh_session_ttl_days

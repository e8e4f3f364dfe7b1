-- ===== src/Auth/Tokens/Lifetime.antt =====
-- How long an access token is accepted.
use encrypt_chat_app.Base.{
  Bool-cases, Text, arith, codes, if◌then◌else◌, inl, inr, leb, lookup, refl, text_eq, ℕ, ◌*◌, ◌+◌,
  ◌≡◌, ◌≤◌,
}
use encrypt_chat_app.Websocket.Limits.{second}
use encrypt_chat_app.Auth.Config.{AuthConfig}
use encrypt_chat_app.Auth.Errors.{returned, raised, auth_error, token_expired}
use encrypt_chat_app.Auth.Tokens.{
  Jwt, IsJwt, IsStandard, AccessTokenClaims, minutes, timestamp, access_claims, required_claims,
  issue_access_token, check_claims, decode_access_token,
}

access_claims-IsStandard :
    (c : AuthConfig) (user_id session_id token_id : Text) (now : ℕ)
    → IsStandard
        (access_claims c user_id session_id token_id now)
        c.issuer
        c.audience
        (timestamp now)
        (timestamp (now + minutes c.access_token_ttl_minutes))
unfolding lookup text_eq
access_claims-IsStandard c user_id session_id token_id now = record {
  issued_by = refl;
  issued_for = refl;
  issued_at = refl;
  expires_at = refl;
}

-- The claims that a new token is issued with, as decoding gives them back.
abbrev pub issued_claims : AuthConfig → Text → Text → Text → ℕ → AccessTokenClaims
issued_claims c user_id session_id token_id now = record {
  user_id = user_id;
  session_id = session_id;
  token_id = token_id;
  issued_at = timestamp now * second;
  expires_at = timestamp (now + minutes c.access_token_ttl_minutes) * second;
}

-- With a lawful JWT library, a token decodes to what it was issued for from its issue on, until the
-- second of its expiry begins, and from then on is reported as expired.
pub decode_access_token-issue_access_token :
    (j : Jwt) (c : AuthConfig) (user_id session_id token_id : Text) (now at : ℕ)
    → IsJwt j
    → now ≤ at
    → decode_access_token j c (issue_access_token j c user_id session_id token_id now) at ≡ (
        if leb (timestamp (now + minutes c.access_token_ttl_minutes) * second) at
        then raised (auth_error token_expired (codes "access token expired"))
        else returned (issued_claims c user_id session_id token_id now))
unfolding decode_access_token issue_access_token check_claims lookup text_eq
decode_access_token-issue_access_token j c user_id session_id token_id now at law h =
    rw
      (law.decode-encode (access_claims c user_id session_id token_id now) c.signing_secret
        c.algorithm c.issuer c.audience required_claims (timestamp now)
        (timestamp (now + minutes c.access_token_ttl_minutes)) at
        (access_claims-IsStandard c user_id session_id token_id now)
        ((_, refl), ((_, refl), ((_, refl), ((_, refl), ((_, refl), tt))))) (omega (arith, h)))
      (elim (Bool-cases (leb (timestamp (now + minutes c.access_token_ttl_minutes) * second) at)) [
        | inl expired ↦ rw expired refl
        | inr live ↦ rw live refl
      ])

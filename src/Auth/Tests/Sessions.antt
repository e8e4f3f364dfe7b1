-- ===== src/Auth/Tests/Sessions.antt =====
-- Resolution, revocation and rotation on the sample.
use encrypt_chat_app.Base.{
  Bool-cases, Text, [], arith, codes, inl, inr, insert, lookup, refl, some, subst, text_eq,
  text_neq, ◌*◌, ◌≡◌, ◌≢◌,
}
use encrypt_chat_app.Websocket.Limits.{second}
use encrypt_chat_app.Auth.Service.Refresh.{refresh_rotates, refresh_continues}
use encrypt_chat_app.Auth.Errors.{session_revoked, auth_error, returned, raised}
use encrypt_chat_app.Auth.Models.{AuthSession}
use encrypt_chat_app.Auth.Passwords.{verify}
use encrypt_chat_app.Auth.Database.Memory.{memory, with_hash}
use encrypt_chat_app.Auth.Database.Memory.Table.{change, some_inj, none_distinct}
use encrypt_chat_app.Auth.Database.Memory.Laws.{memory-IsDatabase}
use encrypt_chat_app.Auth.Tokens.{
  issue_access_token, decode_access_token, check_claims, hash_refresh_token, refresh_expiry,
}
use encrypt_chat_app.Auth.Repository.{session_revoke_all_for_user, session_rotate_refresh_token}
use encrypt_chat_app.Auth.Service.{IssuedCredentials, refresh, delete_account, resolve_access_token}
use encrypt_chat_app.Auth.Service.Resolution.{IsBacked, resolve_access_token-IsBacked}
use encrypt_chat_app.Auth.Service.Revocation.{perform_all}
use encrypt_chat_app.Auth.Service.Revocation.Forever.{delete_account_forever}
use encrypt_chat_app.Auth.Tests.Codec.{plain_jwt}
use encrypt_chat_app.Auth.Tests.Sample.{
  plain, settings, moment, phrase, both, bob_token, bob, eve_identity, refreshing, bob_credentials,
  rotated,
}

bob_resolves :
    resolve_access_token plain memory settings both bob_token (3 * second) (3 * second)
    ≡ returned bob
unfolding resolve_access_token decode_access_token issue_access_token check_claims lookup text_eq
    refresh_expiry
bob_resolves = refl

resolve_access_token-IsBacked_example : IsBacked plain memory settings both (3 * second) bob
resolve_access_token-IsBacked_example =
    resolve_access_token-IsBacked plain memory settings both bob_token (3 * second) (3 * second) bob
      memory-IsDatabase bob_resolves

eve_deletes :
    (delete_account plain memory settings both eve_identity phrase (3 * second)).0 ≡ returned tt
unfolding delete_account verify lookup text_eq
eve_deletes = refl

bob_survives :
    resolve_access_token plain memory settings
      (perform_all plain memory settings
        (delete_account plain memory settings both eve_identity phrase (3 * second)).1
        [])
      bob_token
      (4 * second)
      (4 * second)
    ≡ returned bob
unfolding resolve_access_token decode_access_token issue_access_token check_claims lookup text_eq
    refresh_expiry perform_all delete_account verify session_revoke_all_for_user insert change
bob_survives = refl

delete_account_forever_example : bob.user_id ≢ codes "u"
delete_account_forever_example =
    delete_account_forever plain memory settings both eve_identity phrase (codes "a") bob_token
      (3 * second) (4 * second) (4 * second) [] bob memory-IsDatabase eve_deletes tt bob_survives

bob_refreshes :
    refresh plain memory settings both (codes "b") refreshing ≡ (returned bob_credentials, rotated)
unfolding refresh hash_refresh_token with_hash lookup text_eq refresh_expiry
    session_rotate_refresh_token insert
bob_refreshes = refl

refresh_rotates_example :
    refresh plain memory settings rotated (codes "b") (moment (4 * second) (codes "s"))
    ≡ (raised (auth_error session_revoked (codes "refresh token not recognized")), rotated)
refresh_rotates_example =
    refresh_rotates plain memory settings both rotated (codes "b") refreshing
      (moment (4 * second) (codes "s")) bob_credentials memory-IsDatabase bob_refreshes
      (unfold hash_refresh_token in text_neq (codes "r") (codes "b") (unfold text_eq in refl))

r_unused :
    (i : Text) (b : AuthSession)
    → memory.session_by_id both i ≡ some b
    → b.refresh_token_hash ≢ hash_refresh_token plain_jwt settings (codes "r")
unfolding lookup hash_refresh_token text_eq
r_unused i b h = elim (Bool-cases (text_eq (codes "a") i)) [
  | inl e ↦
      subst (λ (x : AuthSession). x.refresh_token_hash ≢ codes "r") (some_inj (rw (e, e) at h))
        (text_neq (codes "a") (codes "r") refl)
  | inr e ↦ elim (Bool-cases (text_eq (codes "b") i)) [
    | inl f ↦
        subst (λ (x : AuthSession). x.refresh_token_hash ≢ codes "r") (some_inj (rw (e, f, f) at h))
          (text_neq (codes "b") (codes "r") refl)
    | inr f ↦ absurd (none_distinct (rw (e, f) at h))
  ]
]

refresh_continues_example :
    (next : IssuedCredentials) × ((refresh plain memory settings rotated
        (codes "r")
        (moment (4 * second) (codes "s"))).0
      ≡ returned next)
    × (next.session_id ≡ codes "b")
    × (next.user_id ≡ codes "v")
unfolding refresh_expiry
refresh_continues_example =
    refresh_continues plain memory settings both rotated (codes "b") refreshing
      (moment (4 * second) (codes "s")) bob_credentials memory-IsDatabase refl bob_refreshes
      r_unused (omega arith)

-- ===== src/Auth/Dependencies/Bearer.antt =====
-- The Authorization header that a client writes is read back.
use encrypt_chat_app.Base.{
  All, Text, [], codes, false, refl, some, text_eq_refl, ℕ, ◌++◌, ◌==◌, ◌∷◌, ◌≡◌, ◌≢◌,
}
use encrypt_chat_app.Auth.Errors.{returned}
use encrypt_chat_app.Auth.Dependencies.{Strings, space, partition_space, extract_bearer_token}

partition_space-append :
    (scheme credential : Text)
    → All (λ c. (c == space) ≡ false) scheme
    → partition_space (scheme ++ space ∷ credential) ≡ (scheme, credential)
unfolding partition_space
partition_space-append [] credential h = refl
partition_space-append (c ∷ scheme) credential h =
    rw (h.0, partition_space-append scheme credential h.1) refl

-- A header that consists of a spelling of the scheme Bearer without spaces, a space and a token that
-- is not empty and that stripping leaves alone, gives that token.
pub extract_bearer_token-append :
    (S : Strings) (k : ℕ) (scheme token : Text)
    → All (λ c. (c == space) ≡ false) (k ∷ scheme)
    → S.lower (k ∷ scheme) ≡ codes "bearer"
    → S.strip token ≡ token
    → token ≢ []
    → extract_bearer_token S (some ((k ∷ scheme) ++ space ∷ token)) ≡ returned token
unfolding extract_bearer_token
extract_bearer_token-append S k scheme [] plain lowered stripped nonempty = absurd (nonempty refl)
extract_bearer_token-append S k scheme (t ∷ token) plain lowered stripped nonempty =
    rw (partition_space-append (k ∷ scheme) (t ∷ token) plain)
      (rw (lowered, stripped, text_eq_refl) refl)

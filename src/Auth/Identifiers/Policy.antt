-- ===== src/Auth/Identifiers/Policy.antt =====
-- What a validated username is.
use encrypt_chat_app.Base.{
  Bool-cases, Text, [], ap, arith, false, inl, inr, length, refl, subst, true, ◌||◌, ◌∙◌, ◌∷◌, ◌≡◌,
  ◌≤◌,
}
use encrypt_chat_app.Auth.Identifiers.{
  Unicode, valid, invalid, InvalidUsernameError, username_pattern, normalize_username,
  check_normalized, validate_username,
}
use encrypt_chat_app.Environ.{is_empty}
use encrypt_chat_app.Websocket.Identifier.{is_valid_identifier}

check_normalized_inv :
    (u : Unicode) (s n : Text)
    → check_normalized u s ≡ valid n
    → (s ≡ n) × (username_pattern s ≡ true)
check_normalized_inv u s n h = ground arith

pub validate_username_inv :
    (u : Unicode) (raw n : Text)
    → validate_username u raw ≡ valid n
    → (normalize_username u raw ≡ n) × (username_pattern n ≡ true)
unfolding validate_username
validate_username_inv u raw n h = elim (Bool-cases (is_empty raw || is_empty (u.strip raw))) [
  | inl blank ↦ absurd (invalid_valid (rw blank at h))
  | inr other ↦
      let (same, matches) = check_normalized_inv u (normalize_username u raw) n (rw other at h) in
      (same, subst (λ s. username_pattern s ≡ true) same matches)
]
  where
    invalid_valid : {reason : InvalidUsernameError} → invalid reason ≡ valid n → ⊥
    invalid_valid h = cc

-- A username that validation returns is the normal form of the input, and a valid identifier of the
-- transport, of at least 3 and at most 32 characters.
pub validate_username-is_valid_identifier :
    (u : Unicode) (raw n : Text)
    → validate_username u raw ≡ valid n
    → (normalize_username u raw ≡ n)
      × (is_valid_identifier n ≡ true)
      × (3 ≤ length n)
      × (length n ≤ 32)
unfolding username_pattern is_valid_identifier
validate_username-is_valid_identifier u raw n h =
    let (same, matches) = validate_username_inv u raw n h in
    let (identifier, low, high) = pattern_valid n matches in (same, identifier, low, high)
  where
    pattern_valid :
        (s : Text)
        → username_pattern s ≡ true
        → (is_valid_identifier s ≡ true) × (3 ≤ length s) × (length s ≤ 32)
    pattern_valid [] k = absurd (ground arith)
    pattern_valid (c ∷ s) k = ground arith

-- When `casefold`, `strip` and NFKC leave every text alone that matches the pattern, validating what
-- validation has returned returns it again.
pub validate_username_idem :
    (u : Unicode)
    → ((s : Text) → username_pattern s ≡ true → u.nfkc s ≡ s)
    → ((s : Text) → username_pattern s ≡ true → u.strip s ≡ s)
    → ((s : Text) → username_pattern s ≡ true → u.casefold s ≡ s)
    → (raw n : Text) → validate_username u raw ≡ valid n
    → validate_username u n ≡ valid n
unfolding validate_username
validate_username_idem u nfkcs strips folds raw n h =
    let matches = (validate_username_inv u raw n h).1 in
    let normal : normalize_username u n ≡ n =
      ap (λ s. u.casefold (u.strip s)) (nfkcs n matches)
      ∙ ap u.casefold (strips n matches)
      ∙ folds n matches in
    rw (strips n matches, normal, nonempty n matches) (checked n matches)
  where
    nonempty : (s : Text) → username_pattern s ≡ true → is_empty s ≡ false
    nonempty [] k = absurd (unfold username_pattern in ground arith)
    nonempty (c ∷ s) k = refl

    checked : (s : Text) → username_pattern s ≡ true → check_normalized u s ≡ valid s
    checked [] k = absurd (unfold username_pattern in ground arith)
    checked (c ∷ s) k = unfold username_pattern in ground arith

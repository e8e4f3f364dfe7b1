-- ===== src/Auth/Database/Memory/Hashes.antt =====
-- The search for the sessions with a hash, when a session is only read under its own key.
use encrypt_chat_app.Base.{
  All, All-mono, Bool-cases, Option, Text, [], ap, false, inl, inr, lookup, none, refl, some, subst,
  sym, text_eq, text_eq_iff, true, ◌∙◌, ◌∷◌, ◌≡◌, ◌≢◌,
}
use encrypt_chat_app.Auth.Models.{AuthSession}
use encrypt_chat_app.Auth.Database.{Rows, no_row, one_row, several_rows}
use encrypt_chat_app.Auth.Database.Memory.{found, found_if, with_hash}
use encrypt_chat_app.Auth.Database.Memory.Table.{Keyed, some_inj, none_distinct}

module _ (read : Text → Option AuthSession)
    (read-key : (i : Text) (a : AuthSession) → read i ≡ some a → a.id ≡ i) (h : Text) where
  abbrev pub Hit : AuthSession → Type 0
  Hit a = (read a.id ≡ some a) × (a.refresh_token_hash ≡ h)

  -- Every row with the hash under the given keys has this property.
  abbrev pub AllHits : Keyed AuthSession → (AuthSession → Type 0) → Type 0
  AllHits t P =
      All
        (λ (e : Text × Option AuthSession).
          (b : AuthSession) → read (e.0) ≡ some b → b.refresh_token_hash ≡ h → P b)
        t

  -- What the search has found out.
  abbrev pub Summary : Keyed AuthSession → Rows AuthSession → Type 0
  Summary t no_row = AllHits t (λ b. ⊥)
  Summary t (one_row a) = Hit a × AllHits t (λ b. b ≡ a)
  Summary t several_rows = (a b : AuthSession) × Hit a × Hit b × (a.id ≢ b.id)

  -- A key without a row with the hash changes nothing.
  Summary-skip :
      (t : Keyed AuthSession) (k : Text) (o : Option AuthSession) (rows : Rows AuthSession)
      → ((b : AuthSession) → read k ≡ some b → b.refresh_token_hash ≢ h)
      → Summary t rows
      → Summary ((k, o) ∷ t) rows
  Summary-skip t k o no_row miss s = (miss, s)
  Summary-skip t k o (one_row a) miss (hit, s) = (hit, ((λ b e same. absurd (miss b e same)), s))
  Summary-skip t k o several_rows miss s = s

  Summary-found :
      (t : Keyed AuthSession) (k : Text) (o : Option AuthSession) (rows : Rows AuthSession)
      (a : AuthSession)
      → read k ≡ some a
      → a.refresh_token_hash ≡ h
      → Summary t rows
      → Summary ((k, o) ∷ t) (found rows a)
  Summary-found t k o no_row a e same s = (
    (ap read (read-key k a e) ∙ e, same),
    ((λ b f _. some_inj (sym f ∙ e)), All-mono _ _ t (λ x f b g i. absurd (f b g i)) s),
  )
  Summary-found t k o several_rows a e same s = s
  Summary-found t k o (one_row c) a e same (hit, s) = elim (Bool-cases (text_eq c.id a.id)) [
    | inl i ↦
        let same_row : a ≡ c =
          some_inj
            (sym e ∙ ap read (sym (read-key k a e) ∙ sym ((text_eq_iff c.id a.id).0 i)) ∙ hit.0) in
        rw i (hit, ((λ b f _. some_inj (sym f ∙ e) ∙ same_row), s))
    | inr i ↦ rw i (
      c,
      a,
      hit,
      (ap read (read-key k a e) ∙ e, same),
      (λ j. true_false (sym ((text_eq_iff c.id a.id).1 j) ∙ i)),
    )
  ]
    where
      true_false : true ≡ false → ⊥
      true_false q = cc

  Summary-step :
      (t : Keyed AuthSession) (k : Text) (o : Option AuthSession) (rows : Rows AuthSession)
      (r : Option AuthSession)
      → read k ≡ r
      → Summary t rows
      → Summary ((k, o) ∷ t) (found_if h rows r)
  Summary-step t k o rows none e s =
      Summary-skip t k o rows (λ b f. absurd (none_distinct (sym e ∙ f))) s
  Summary-step t k o rows (some a) e s = elim (Bool-cases (text_eq a.refresh_token_hash h)) [
    | inl same ↦
        rw same (Summary-found t k o rows a e ((text_eq_iff a.refresh_token_hash h).0 same) s)
    | inr other ↦ rw other (
        Summary-skip t k o rows
          (λ b f same.
            miss other (subst (λ x. x.refresh_token_hash ≡ h) (some_inj (sym f ∙ e)) same))
          s)
  ]
    where
      miss : text_eq a.refresh_token_hash h ≡ false → a.refresh_token_hash ≢ h
      miss other same = cc (sym ((text_eq_iff a.refresh_token_hash h).1 same) ∙ other)

  pub with_hash-Summary : (t : Keyed AuthSession) → Summary t (with_hash read h t)
  unfolding with_hash
  with_hash-Summary [] = tt
  with_hash-Summary ((k, o) ∷ t) =
      Summary-step t k o (with_hash read h t) (read k) refl (with_hash-Summary t)

  -- The keys under which a row is read are those of the table.
  pub AllHits-of :
      (t : Keyed AuthSession) (P : AuthSession → Type 0) (i : Text) (b : AuthSession)
      (o : Option AuthSession)
      → lookup i t ≡ some o
      → AllHits t P
      → read i ≡ some b
      → b.refresh_token_hash ≡ h
      → P b
  unfolding lookup
  AllHits-of [] P i b o e s = cc
  AllHits-of ((k, v) ∷ t) P i b o e (hit, s) = elim (Bool-cases (text_eq k i)) [
    | inl same ↦ λ f g. hit b (ap read ((text_eq_iff k i).0 same) ∙ f) g
    | inr other ↦ AllHits-of t P i b o (rw other at e) s
  ]

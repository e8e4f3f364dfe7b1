-- ===== src/Auth/Database/Memory/Table.antt =====
-- Tables of rows by their keys.
use encrypt_chat_app.Base.{
  Bool-cases, Dict, Option, Text, [], ap, if◌then◌else◌, inl, inr, insert, lookup, lookup-insert,
  none, refl, some, subst, sym, text_eq, text_eq_iff, ◌∙◌, ◌∷◌, ◌≡◌,
}

pub some_inj : {A : Type 0} {a b : A} → some a ≡ some b → a ≡ b
some_inj h = cc

pub none_distinct : {A : Type 0} {a : A} → none ≡ some a → ⊥
none_distinct h = cc

-- A key may stand without a row.
abbrev pub Keyed : Type 0 → Type 0
Keyed A = Dict (Option A)

module _ {A : Type 0} where
  abbrev pub row : Option (Option A) → Option A
  row none = none
  row (some o) = o

  abbrev pub remove : Text → Keyed A → Keyed A
  remove i t = insert i none t

  unfoldable pub change : (Option A → Option A) → Keyed A → Keyed A
  change f [] = []
  change f ((i, o) ∷ t) = (i, f o) ∷ change f t

  pub lookup-change :
      (f : Option A → Option A) (i : Text) (t : Keyed A)
      → f none ≡ none
      → row (lookup i (change f t)) ≡ f (row (lookup i t))
  unfolding lookup change
  lookup-change f i [] h = sym h
  lookup-change f i ((j, o) ∷ t) h = elim (Bool-cases (text_eq j i)) [
    | inl e ↦ rw e refl
    | inr e ↦ rw e (lookup-change f i t h)
  ]

  module _ (key : A → Text) where
    -- A row is only read under its own key.
    abbrev pub checked : Text → Option A → Option A
    checked i none = none
    checked i (some a) = if text_eq (key a) i then some a else none

    abbrev pub find : Keyed A → Text → Option A
    find t i = checked i (row (lookup i t))

    abbrev pub write : A → Keyed A → Keyed A
    write a t = insert (key a) (some a) t

    pub find-key : (t : Keyed A) (i : Text) (a : A) → find t i ≡ some a → key a ≡ i
    find-key t i a h = go (row (lookup i t)) h
      where
        go : (o : Option A) → checked i o ≡ some a → key a ≡ i
        go none k = cc
        go (some b) k = elim (Bool-cases (text_eq (key b) i)) [
          | inl e ↦ subst (λ x. key x ≡ i) (some_inj (rw e at k)) ((text_eq_iff (key b) i).0 e)
          | inr e ↦ absurd (none_distinct (rw e at k))
        ]

    pub find-write :
        (t : Keyed A) (a : A) (i : Text)
        → find (write a t) i ≡ (if text_eq (key a) i then some a else find t i)
    find-write t a i =
        rw (lookup-insert (key a) i (some a) t)
          (elim (Bool-cases (text_eq (key a) i)) [ inl e ↦ rw (e, e) refl | inr e ↦ rw e refl ])

    pub find-remove :
        (t : Keyed A) (k i : Text) → find (remove k t) i ≡ (if text_eq k i then none else find t i)
    find-remove t k i =
        rw (lookup-insert k i none t)
          (elim (Bool-cases (text_eq k i)) [ inl e ↦ rw e refl | inr e ↦ rw e refl ])

    pub find-change :
        (f : Option A → Option A) (t : Keyed A) (i : Text)
        → f none ≡ none
        → ((o : Option A) → checked i (f o) ≡ f (checked i o))
        → find (change f t) i ≡ f (find t i)
    find-change f t i h commutes =
        ap (checked i) (lookup-change f i t h) ∙ commutes (row (lookup i t))

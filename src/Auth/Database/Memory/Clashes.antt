-- ===== src/Auth/Database/Memory/Clashes.antt =====
-- The rows of the database in memory that an insertion clashes with.
use encrypt_chat_app.Base.{
  Bool-cases, Option, Option-cases, Text, [], ap, arith, false, inl, inr, lookup, none, refl, some,
  sym, text_eq, text_eq_iff, text_eq_refl, true, ◌∙◌, ◌∷◌, ◌≡◌,
}
use encrypt_chat_app.Auth.Models.{User, conflicts}
use encrypt_chat_app.Auth.Database.Memory.{Memory, user_id, find_user, any_clash}
use encrypt_chat_app.Auth.Database.Memory.Table.{find-key, Keyed, row, checked}

any_clash-lookup :
    (read : Text → Option User) (u v : User) (i : Text) (t : Keyed User) (o : Option User)
    → lookup i t ≡ some o
    → read i ≡ some v
    → conflicts u v ≡ true
    → any_clash read u t ≡ true
unfolding any_clash lookup
any_clash-lookup read u v i [] o h e k = cc
any_clash-lookup read u v i ((j, p) ∷ t) o h e k = elim (Bool-cases (text_eq j i)) [
  | inl same ↦ rw (ap read ((text_eq_iff j i).0 same) ∙ e, k) refl
  | inr other ↦ ground (arith, any_clash-lookup read u v i t o (rw other at h) e k)
]

-- A row that is found stands under a key of the table.
pub any_clash-find :
    (s : Memory) (i : Text) (u v : User)
    → find_user s i ≡ some v
    → conflicts u v ≡ true
    → any_clash (find_user s) u s.users ≡ true
any_clash-find s i u v h k = go (lookup i s.users) refl h
  where
    go :
        (r : Option (Option User))
        → lookup i s.users ≡ r
        → checked user_id i (row r) ≡ some v
        → any_clash (find_user s) u s.users ≡ true
    go none e g = cc
    go (some o) e g = any_clash-lookup (find_user s) u v i s.users o e h k

pub any_clash-none :
    (read : Text → Option User) (u : User) (t : Keyed User)
    → ((i : Text) (v : User) → read i ≡ some v → conflicts u v ≡ false)
    → any_clash read u t ≡ false
unfolding any_clash
any_clash-none read u [] free = refl
any_clash-none read u ((j, p) ∷ t) free = elim (Option-cases (read j)) [
  | inl e ↦ rw e (any_clash-none read u t free)
  | inr (v, e) ↦ rw (e, free j v e) (any_clash-none read u t free)
]

pub free_id :
    (s : Memory) (u : User) → any_clash (find_user s) u s.users ≡ false → find_user s u.id ≡ none
unfolding conflicts
free_id s u h = elim (Option-cases (find_user s u.id)) [
  | inl e ↦ e
  | inr (v, e) ↦ absurd (
      distinct (
        sym h
        ∙ any_clash-find s u.id u v e
            (rw (sym (find-key user_id s.users u.id v e), text_eq_refl) refl)))
]
  where
    distinct : false ≡ true → ⊥
    distinct k = cc

-- ===== src/Auth/Database/Memory/Laws.antt =====
-- The laws of the database in memory.
use encrypt_chat_app.Base.{
  Bool, Bool-cases, Option, Text, ap, false, if◌then◌else◌, inl, inr, insert, lookup, lookup-insert,
  none, refl, some, subst, sym, text_eq, text_eq_iff, text_eq_refl, true, ◌∙◌, ◌≡◌,
}
use encrypt_chat_app.Auth.Models.{User, AuthSession}
use encrypt_chat_app.Auth.Database.{stored, IsDatabase, map_if, unless_of}
use encrypt_chat_app.Auth.Database.Memory.Clashes.{any_clash-find, any_clash-none, free_id}
use encrypt_chat_app.Auth.Database.Memory.{
  any_clash, Memory, memory, memory_with, user_id, session_id, find_user, find_session, find_name,
  named, user_of, create_user, create_session,
}
use encrypt_chat_app.Auth.Database.Memory.Table.{
  some_inj, none_distinct, checked, find, write, find-key, find-write, find-remove, find-change,
}
use encrypt_chat_app.Auth.Database.Memory.Lookup.{session-key, hash_one, hash_none, hash_row}

user_row :
    (s : Memory) (n : Text) (u : User)
    → find_name s n ≡ some u
    → (find_user s u.id ≡ some u) × (u.username_normalized ≡ n)
user_row s n u h = go (lookup n s.names) h
  where
    at_row :
        (i : Text) (r : Option User)
        → find_user s i ≡ r
        → named n r ≡ some u
        → (find_user s u.id ≡ some u) × (u.username_normalized ≡ n)
    at_row i none e k = cc
    at_row i (some v) e k = elim (Bool-cases (text_eq v.username_normalized n)) [
      | inr other ↦ absurd (none_distinct (rw other at k))
      | inl same ↦
          subst (λ (x : User). (find_user s x.id ≡ some x) × (x.username_normalized ≡ n))
            (some_inj (rw same at k))
            (
              ap (find_user s) (find-key user_id s.users i v e) ∙ e,
              (text_eq_iff v.username_normalized n).0 same,
            )
    ]

    go :
        (o : Option Text)
        → named n (user_of s o) ≡ some u
        → (find_user s u.id ≡ some u) × (u.username_normalized ≡ n)
    go none k = cc
    go (some i) k = at_row i (find_user s i) refl k

-- The store after the account has been added.
abbrev with_user : Memory → User → Memory
with_user s u = record s {
  users = write user_id u s.users;
  names = insert u.username_normalized u.id s.names;
}

create_user_inv :
    (s t : Memory) (u : User) (clash : Bool)
    → create_user s u clash ≡ some t
    → (with_user s u ≡ t) × (clash ≡ false)
create_user_inv s t u true h = cc
create_user_inv s t u false h = (some_inj h, refl)

find_name-with_user :
    (s : Memory) (u : User) (n : Text)
    → find_user s u.id ≡ none
    → find_name (with_user s u) n
      ≡ (if text_eq u.username_normalized n then some u else find_name s n)
find_name-with_user s u n free =
    rw (lookup-insert u.username_normalized n u.id s.names)
      (elim (Bool-cases (text_eq u.username_normalized n)) [
        | inl e ↦ rw e (rw (find-write user_id s.users u u.id, text_eq_refl) (rw e refl))
        | inr e ↦ rw e (other e (lookup n s.names))
      ])
  where
    find_write_at :
        (j : Text)
        → find user_id (write user_id u s.users) j
          ≡ (if text_eq u.id j then some u else find_user s j)
    find_write_at j = find-write user_id s.users u j

    other :
        text_eq u.username_normalized n ≡ false
        → (o : Option Text) → named n (user_of (with_user s u) o) ≡ named n (user_of s o)
    other e none = refl
    other e (some j) = elim (Bool-cases (text_eq u.id j)) [
      | inl same ↦
          let gone : find_user s j ≡ none =
            ap (find_user s) (sym ((text_eq_iff u.id j).0 same)) ∙ free in
          rw (find_write_at j, same, gone) (rw e refl)
      | inr differ ↦ rw (find_write_at j, differ) refl
    ]

inserted_user :
    (s t : Memory) (u : User)
    → create_user s u (any_clash (find_user s) u s.users) ≡ some t
    → ((i : Text) → find_user t i ≡ (if text_eq u.id i then some u else find_user s i))
      × ((n : Text)
          → find_name t n ≡ (if text_eq u.username_normalized n then some u else find_name s n))
      × ((i : Text) → find_session t i ≡ find_session s i)
inserted_user s t u h =
    let (same, unclashed) = create_user_inv s t u (any_clash (find_user s) u s.users) h in
    let free = free_id s u unclashed in
    subst
      (λ (x : Memory).
        ((i : Text) → find_user x i ≡ (if text_eq u.id i then some u else find_user s i))
        × ((n : Text)
            → find_name x n ≡ (if text_eq u.username_normalized n then some u else find_name s n))
        × ((i : Text) → find_session x i ≡ find_session s i))
      same (find-write user_id s.users u, (λ n. find_name-with_user s u n free), (λ i. refl))

abbrev with_session : Bool → Memory → AuthSession → Memory
with_session k s a = record s { sessions = write session_id (stored k a) s.sessions }

create_session_inv :
    (k : Bool) (s t : Memory) (a : AuthSession) (o : Option AuthSession) (r : Option User)
    → create_session k s a o r ≡ some t
    → (o ≡ none) × (with_session k s a ≡ t)
create_session_inv k s t a none (some u) h = (refl, some_inj h)
create_session_inv k s t a none none h = cc
create_session_inv k s t a (some b) r h = cc

inserted_session :
    (k : Bool) (s t : Memory) (a : AuthSession)
    → create_session k s a (find_session s a.id) (find_user s a.user_id) ≡ some t
    → (find_session s a.id ≡ none)
      × ((i : Text)
          → find_session t i ≡ (if text_eq a.id i then some (stored k a) else find_session s i))
      × ((i : Text) → find_user t i ≡ find_user s i)
      × ((n : Text) → find_name t n ≡ find_name s n)
inserted_session k s t a h =
    let (free, same) = create_session_inv k s t a (find_session s a.id) (find_user s a.user_id) h in
    let (sessions, users, names) =
      subst
        (λ (x : Memory).
          ((i : Text)
            → find_session x i ≡ (if text_eq a.id i then some (stored k a) else find_session s i))
          × ((i : Text) → find_user x i ≡ find_user s i)
          × ((n : Text) → find_name x n ≡ find_name s n))
        same (find-write session_id s.sessions (stored k a), (λ i. refl), (λ n. refl)) in
    (free, sessions, users, names)

checked-map_if :
    (p : AuthSession → Bool) (f : AuthSession → AuthSession) (i : Text)
    → ((a : AuthSession) → (f a).id ≡ a.id)
    → (o : Option AuthSession)
    → checked session_id i (map_if p f o) ≡ map_if p f (checked session_id i o)
checked-map_if p f i keeps none = refl
checked-map_if p f i keeps (some a) = elim (Bool-cases (p a)) [
  | inl hit ↦ elim (Bool-cases (text_eq a.id i)) [
    | inl e ↦ rw (hit, e) (rw (keeps a, e, hit) refl)
    | inr e ↦ rw (hit, e) (rw (keeps a, e) refl)
  ]
  | inr miss ↦ elim (Bool-cases (text_eq a.id i)) [
    | inl e ↦ rw (miss, e) (rw miss refl)
    | inr e ↦ rw (miss, e) refl
  ]
]

checked-unless_of :
    (u i : Text) (o : Option AuthSession)
    → checked session_id i (unless_of u o) ≡ unless_of u (checked session_id i o)
checked-unless_of u i none = refl
checked-unless_of u i (some a) = elim (Bool-cases (text_eq a.user_id u)) [
  | inl gone ↦ elim (Bool-cases (text_eq a.id i)) [
    | inl e ↦ rw (gone, e) (rw gone refl)
    | inr e ↦ rw (gone, e) refl
  ]
  | inr kept ↦ elim (Bool-cases (text_eq a.id i)) [
    | inl e ↦ rw (kept, e) (rw kept refl)
    | inr e ↦ rw (kept, e) refl
  ]
]

-- The laws on databases hold of the database in memory.
pub memory_with-IsDatabase : (k : Bool) → IsDatabase (memory_with k)
memory_with-IsDatabase k = record {
  user_key = λ s i u h. find-key user_id s.users i u h;
  user_row = user_row;
  session_key = session-key;
  hash_row = hash_row;
  hash_one = hash_one;
  hash_none = hash_none;
  insert_user_taken = λ s i u v h k. rw (any_clash-find s i u v h k) refl;
  insert_user_free =
      λ s u free. (with_user s u, rw (any_clash-none (find_user s) u s.users free) refl);
  inserted_user = inserted_user;
  insert_session_free = λ s a u h j. (with_session k s a, rw (h, j) refl);
  inserted_session = inserted_session k;
  flushed_user = λ s u v h k. (find-write user_id s.users u, (λ i. refl));
  flushed_session = λ s a b h. (find-write session_id s.sessions (stored k a), (λ i. refl));
  updated_sessions = λ s p f keeps _. (
    (λ i. find-change session_id (map_if p f) s.sessions i refl (checked-map_if p f i keeps)),
    (λ i. refl),
  );
  deleted_user = λ s u. (
    find-remove user_id s.users u.id,
    (λ i. find-change session_id (unless_of u.id) s.sessions i refl (checked-unless_of u.id i)),
  );
}

pub memory-IsDatabase : IsDatabase memory
memory-IsDatabase = memory_with-IsDatabase true

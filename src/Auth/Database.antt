-- ===== src/Auth/Database.antt =====
-- What the repositories take from SQLAlchemy: a database of accounts and sessions with the statements
-- that they run, and what those statements are relied on to do.
pub mod Memory
use encrypt_chat_app.Base.{
  Bool, Option, Text, false, if◌then◌else◌, none, some, text_eq, true, ℕ, ◌≡◌, ◌≢◌,
}
use encrypt_chat_app.Auth.Models.{conflicts, User, DateTime, aware, naive, AuthSession}

-- The rows that `scalar_one_or_none` finds: several make it raise.
pub data Rows (A : Type 0) : Type 0 where
  no_row several_rows : Rows A
  one_row : A → Rows A

-- What a driver that keeps the time zones, or one that drops them, reads back.
abbrev pub read_back : Bool → DateTime → DateTime
read_back true moment = moment
read_back false (aware moment) = naive moment
read_back false (naive moment) = naive moment

abbrev pub stored : Bool → AuthSession → AuthSession
stored keeps_timezone a = record a { expires_at = read_back keeps_timezone a.expires_at }

-- The selects by key, `add` with `flush` (none for an `IntegrityError`), the flush of a changed row, an
-- `update` of the rows where a test holds with the number of them, and `delete` with `flush`.
pub record Database : Type 1 where
  pub State : Type 0
  pub keeps_timezone : Bool
  pub user_by_id : State → Text → Option User
  pub user_by_normalized : State → Text → Option User
  pub session_by_id : State → Text → Option AuthSession
  pub sessions_by_hash : State → Text → Rows AuthSession
  pub insert_user : State → User → Option State
  pub insert_session : State → AuthSession → Option State
  pub flush_user : State → User → State
  pub flush_session : State → AuthSession → State
  pub update_sessions : State → (AuthSession → Bool) → (AuthSession → AuthSession) → State × ℕ
  pub delete_user : State → User → State

abbrev pub map_if :
    (AuthSession → Bool) → (AuthSession → AuthSession) → Option AuthSession → Option AuthSession
map_if p f none = none
map_if p f (some a) = if p a then some (f a) else some a

-- A session whose account is gone goes with it.
abbrev pub unless_of : Text → Option AuthSession → Option AuthSession
unless_of user_id none = none
unless_of user_id (some a) = if text_eq a.user_id user_id then none else some a

pub record IsDatabase (D : Database) : Type 0 where
  -- The keys of a row are those that it is found by.
  pub user_key : (s : D.State) (i : Text) (u : User) → D.user_by_id s i ≡ some u → u.id ≡ i
  pub user_row :
      (s : D.State) (n : Text) (u : User)
      → D.user_by_normalized s n ≡ some u
      → (D.user_by_id s u.id ≡ some u) × (u.username_normalized ≡ n)
  pub session_key :
      (s : D.State) (i : Text) (a : AuthSession) → D.session_by_id s i ≡ some a → a.id ≡ i
  -- One row is found by a hash exactly when it is the only one with that hash.
  pub hash_row :
      (s : D.State) (h : Text) (a : AuthSession)
      → D.sessions_by_hash s h ≡ one_row a
      → (D.session_by_id s a.id ≡ some a)
        × (a.refresh_token_hash ≡ h)
        × ((i : Text) (b : AuthSession)
            → D.session_by_id s i ≡ some b
            → b.refresh_token_hash ≡ h
            → b ≡ a)
  pub hash_one :
      (s : D.State) (h i : Text) (a : AuthSession)
      → D.session_by_id s i ≡ some a
      → a.refresh_token_hash ≡ h
      → ((k : Text) (b : AuthSession)
          → D.session_by_id s k ≡ some b
          → b.refresh_token_hash ≡ h
          → b ≡ a)
      → D.sessions_by_hash s h ≡ one_row a
  pub hash_none :
      (s : D.State) (h : Text)
      → ((i : Text) (a : AuthSession) → D.session_by_id s i ≡ some a → a.refresh_token_hash ≢ h)
      → D.sessions_by_hash s h ≡ no_row
  -- An insertion fails if a row of the table has the same value in a unique column, and otherwise adds
  -- the row.
  pub insert_user_taken :
      (s : D.State) (i : Text) (u v : User)
      → D.user_by_id s i ≡ some v
      → conflicts u v ≡ true
      → D.insert_user s u ≡ none
  pub insert_user_free :
      (s : D.State) (u : User)
      → ((i : Text) (v : User) → D.user_by_id s i ≡ some v → conflicts u v ≡ false)
      → (t : D.State) × (D.insert_user s u ≡ some t)
  pub inserted_user :
      (s t : D.State) (u : User)
      → D.insert_user s u ≡ some t
      → ((i : Text) → D.user_by_id t i ≡ (if text_eq u.id i then some u else D.user_by_id s i))
        × ((n : Text)
            → D.user_by_normalized t n
              ≡ (if text_eq u.username_normalized n then some u else D.user_by_normalized s n))
        × ((i : Text) → D.session_by_id t i ≡ D.session_by_id s i)
  pub insert_session_free :
      (s : D.State) (a : AuthSession) (u : User)
      → D.session_by_id s a.id ≡ none
      → D.user_by_id s a.user_id ≡ some u
      → (t : D.State) × (D.insert_session s a ≡ some t)
  pub inserted_session :
      (s t : D.State) (a : AuthSession)
      → D.insert_session s a ≡ some t
      → (D.session_by_id s a.id ≡ none)
        × ((i : Text)
            → D.session_by_id t i
              ≡ (if text_eq a.id i then some (stored D.keeps_timezone a) else D.session_by_id s i))
        × ((i : Text) → D.user_by_id t i ≡ D.user_by_id s i)
        × ((n : Text) → D.user_by_normalized t n ≡ D.user_by_normalized s n)
  -- The flush of a row whose keys have not changed writes that row, with the time of its expiry as the
  -- driver reads it back.
  pub flushed_user :
      (s : D.State) (u v : User)
      → D.user_by_id s u.id ≡ some v
      → v.username_normalized ≡ u.username_normalized
      → ((i : Text)
          → D.user_by_id (D.flush_user s u) i
            ≡ (if text_eq u.id i then some u else D.user_by_id s i))
        × ((i : Text) → D.session_by_id (D.flush_user s u) i ≡ D.session_by_id s i)
  pub flushed_session :
      (s : D.State) (a b : AuthSession)
      → D.session_by_id s a.id ≡ some b
      → ((i : Text)
          → D.session_by_id (D.flush_session s a) i
            ≡ (if text_eq a.id i then some (stored D.keeps_timezone a) else D.session_by_id s i))
        × ((i : Text) → D.user_by_id (D.flush_session s a) i ≡ D.user_by_id s i)
  -- An update changes the rows where its test holds, if it keeps their keys and times.
  pub updated_sessions :
      (s : D.State) (p : AuthSession → Bool) (f : AuthSession → AuthSession)
      → ((a : AuthSession) → (f a).id ≡ a.id)
      → ((a : AuthSession) → (f a).expires_at ≡ a.expires_at)
      → ((i : Text)
          → D.session_by_id (D.update_sessions s p f).0 i ≡ map_if p f (D.session_by_id s i))
        × ((i : Text) → D.user_by_id (D.update_sessions s p f).0 i ≡ D.user_by_id s i)
  -- The deletion of an account takes its sessions with it.
  pub deleted_user :
      (s : D.State) (u : User)
      → ((i : Text)
          → D.user_by_id (D.delete_user s u) i
            ≡ (if text_eq u.id i then none else D.user_by_id s i))
        × ((i : Text)
            → D.session_by_id (D.delete_user s u) i ≡ unless_of u.id (D.session_by_id s i))

-- ===== src/Auth/Service/Revocation.antt =====
-- Sequences of operations on the account store: what has been revoked or deleted stays so.
pub mod Writes
pub mod Steps
pub mod Forever
use encrypt_chat_app.Base.{List, Option, Text, [], false, none, some, ℕ, ◌∷◌, ◌≡◌, ◌≢◌}
use encrypt_chat_app.Auth.Config.{AuthConfig}
use encrypt_chat_app.Auth.Errors.{Outcome, returned, raised, crashed}
use encrypt_chat_app.Auth.FailedLogins.{FailedLoginTracker}
use encrypt_chat_app.Auth.Models.{AuthSession, is_none}
use encrypt_chat_app.Auth.Database.{Database}
use encrypt_chat_app.Auth.Service.{
  Libraries, Draws, register, login, refresh, logout, delete_account,
}
use encrypt_chat_app.Websocket.Authentication.{AuthenticatedIdentity}

-- A request that changes the store.
pub data Operation : Type 0 where
  registers : Text → Text → Draws → Operation
  logs_in : FailedLoginTracker → Text → Text → Draws → Operation
  refreshes : Text → Draws → Operation
  logs_out : Text → ℕ → Operation
  deletes : AuthenticatedIdentity → Text → ℕ → Operation

-- The ids that an operation draws are neither of these.
abbrev pub Avoids : Text → Text → Operation → Type 0
Avoids session_id user_id (registers username password d) = d.user_id ≢ user_id
Avoids session_id user_id (logs_in t username password d) = d.session_id ≢ session_id
Avoids session_id user_id _ = Unit

abbrev pub IsRevoked : Option AuthSession → Type 0
IsRevoked none = Unit
IsRevoked (some a) = is_none a.revoked_at ≡ false

module _ (L : Libraries) (D : Database) (c : AuthConfig) where
  -- `get_db` commits what a handler that returns has done, and rolls back what any other has.
  abbrev pub committed : {A : Type 0} → D.State → Outcome A → D.State → D.State
  committed db (returned a) db' = db'
  committed db (raised e) db' = db
  committed db crashed db' = db

  unfoldable pub perform : D.State → Operation → D.State
  perform db (registers username password d) =
      let (outcome, db') = register L D c db username password d in committed db outcome db'
  perform db (logs_in t username password d) =
      let run = login L D c t db username password d in committed db run.outcome run.db
  perform db (refreshes token d) =
      let (outcome, db') = refresh L D c db token d in committed db outcome db'
  perform db (logs_out session_id now) = logout L D c db session_id now
  perform db (deletes identity password now) =
      let (outcome, db') = delete_account L D c db identity password now in committed db outcome db'

  unfoldable pub perform_all : D.State → List Operation → D.State
  perform_all db [] = db
  perform_all db (operation ∷ operations) = perform_all (perform db operation) operations

  -- A revoked or missing session stays so, and a missing account.
  pub record Keeps (session_id user_id : Text) (db db' : D.State) : Type 0 where
    pub revoked :
        IsRevoked (D.session_by_id db session_id) → IsRevoked (D.session_by_id db' session_id)
    pub missing : D.user_by_id db user_id ≡ none → D.user_by_id db' user_id ≡ none

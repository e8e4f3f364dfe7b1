-- ===== src/Websocket/Server/Accounts.antt =====
-- The transport beside the service of server/app/auth: one database, which the requests for accounts
-- change while connections resolve their tokens on it.
use encrypt_chat_app.Base.{List, Text, [], false, inl, inr, some, ℕ, ◌∷◌, ◌≡◌, ◌⊎◌}
use encrypt_chat_app.Auth.Config.{AuthConfig}
use encrypt_chat_app.Auth.Errors.{returned}
use encrypt_chat_app.Auth.Database.{Database, IsDatabase}
use encrypt_chat_app.Auth.Service.{Libraries, resolve_access_token}
use encrypt_chat_app.Auth.Service.Resolution.{IsBacked, resolve_access_token-IsBacked}
use encrypt_chat_app.Auth.Service.Revocation.{Operation, perform}
use encrypt_chat_app.Websocket.Authentication.{AuthenticatedIdentity}
use encrypt_chat_app.Websocket.Context.{ConnectionContext}
use encrypt_chat_app.Websocket.Limits.{TransportLimits}
use encrypt_chat_app.Websocket.Schemas.{Parsers}
use encrypt_chat_app.Websocket.Server.{Server, start, Step, Reach, here, next}
use encrypt_chat_app.Websocket.Server.Monotone.{Step-mono, Reach-mono}
use encrypt_chat_app.Websocket.Server.Promises.{reached-IsIdentified}
use encrypt_chat_app.Websocket.Server.Sound.{IsIdentified, anonymous, identified}

module _ (p : Parsers) (L : Libraries) (D : Database) (c : AuthConfig) where
  -- The service resolves the token to the identity in this state of the database, at some time.
  abbrev pub Resolved : D.State → Text → AuthenticatedIdentity → Type 0
  Resolved db token identity =
      (at : ℕ) × (now : ℕ) × (resolve_access_token L D c db token at now ≡ returned identity)

  -- Runs of the transport and of the account requests over one database, each step on its current
  -- state, with the states that it has been in, the current one first.
  pub data Together (limits : TransportLimits) (first : D.State)
      : List D.State → Server → Type 0 where
    begins : Together limits first (first ∷ []) (start limits)
    serves :
        {db : D.State} {before : List D.State} {s t : Server}
        → Together limits first (db ∷ before) s
        → Step p (Resolved db) s t
        → Together limits first (db ∷ before) t
    operates :
        {db : D.State} {before : List D.State} {s : Server}
        → Together limits first (db ∷ before) s
        → (operation : Operation)
        → Together limits first (perform L D c db operation ∷ db ∷ before) s

  -- One of the states.
  pub data Among (db : D.State) : List D.State → Type 0 where
    current : {before : List D.State} → Among db (db ∷ before)
    earlier :
        {later : D.State} {before : List D.State} → Among db before → Among db (later ∷ before)

  abbrev Once : List D.State → Text → AuthenticatedIdentity → Type 0
  Once states token identity = (db : D.State) × Among db states × Resolved db token identity

  together-Reach :
      (limits : TransportLimits) (first : D.State) (states : List D.State) (s : Server)
      → Together limits first states s
      → Reach p (Once states) (start limits) s
  together-Reach limits first states s begins = here
  together-Reach limits first states s (serves {db = db} {before = before} {s = u} run step) =
      next (together-Reach limits first (db ∷ before) u run) (
        Step-mono p (Resolved db) (Once (db ∷ before)) (λ token identity r. (db, current, r)) u s
          step)
  together-Reach limits first states s (operates {db = db} {before = before} run operation) =
      Reach-mono p (Once (db ∷ before)) (Once (perform L D c db operation ∷ db ∷ before))
        (λ token identity (at_db, among, r). (at_db, earlier among, r)) (start limits) s
        (together-Reach limits first (db ∷ before) s run)

  -- The identity of a context is that of a usable session of an active account, in one of the states.
  pub record IsAccount (states : List D.State) (context : ConnectionContext) : Type 0 where
    pub db : D.State
    pub among : Among db states
    pub now : ℕ
    pub identity : AuthenticatedIdentity
    pub backed : IsBacked L D c db now identity
    pub user_id : context.user_id ≡ some identity.user_id
    pub username : context.account_username ≡ some identity.username
    pub session_id : context.session_id ≡ some identity.session_id

  identified-IsAccount :
      (states : List D.State) (context : ConnectionContext)
      → IsDatabase D
      → IsIdentified (Once states) context
      → (context.authenticated ≡ false) ⊎ IsAccount states context
  identified-IsAccount states context law (anonymous unknown unnamed) = inl unknown
  identified-IsAccount states context law
        (identified token identity (db, among, (at, now, resolved)) known u n s) =
      inr (record {
        db = db;
        among = among;
        now = now;
        identity = identity;
        backed = resolve_access_token-IsBacked L D c db token at now identity law resolved;
        user_id = u;
        username = n;
        session_id = s;
      })

  -- With a lawful database, whatever requests on accounts run between the steps of the transport, a
  -- connection is either not authenticated, or carries the user id, the username and the session id
  -- of one account and session that stood together in a state that the database has been in during
  -- the run: the session neither revoked nor expired at some time, the account active.
  pub reached-IsAccount :
      (limits : TransportLimits) (first : D.State) (states : List D.State) (s : Server) (id : ℕ)
      → IsDatabase D
      → Together limits first states s
      → ((s.manager.heap id).authenticated ≡ false) ⊎ IsAccount states (s.manager.heap id)
  reached-IsAccount limits first states s id law run =
      identified-IsAccount states (s.manager.heap id) law (
        reached-IsIdentified p (Once states) limits s id (together-Reach limits first states s run))

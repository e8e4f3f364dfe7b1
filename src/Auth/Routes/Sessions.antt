-- ===== src/Auth/Routes/Sessions.antt =====
-- Sequences of requests, as sequences of operations on the account store.
use encrypt_chat_app.Base.{
  All, All-append, Bool, Bool-cases, List, Option, Text, [], ap, false, inl, inr, none, refl, some,
  subst, sym, true, ◌++◌, ◌∙◌, ◌∷◌, ◌≡◌, ◌≢◌,
}
use encrypt_chat_app.Auth.Errors.{Outcome, returned, raised, crashed, ◌>>=◌, >>=-eq-returned}
use encrypt_chat_app.Auth.FailedLogins.{FailedLoginTracker}
use encrypt_chat_app.Auth.Schemas.{accepts_credentials, accepts_password}
use encrypt_chat_app.Environ.{is_empty}
use encrypt_chat_app.Auth.Responses.{Handled, Response}
use encrypt_chat_app.Auth.Database.{IsDatabase}
use encrypt_chat_app.Auth.Dependencies.{get_current_identity, extract_bearer_token}
use encrypt_chat_app.Auth.Routes.{
  Application, Kept, Request, get_policy, post_register, post_login, post_refresh, post_logout,
  get_session, post_delete, Circumstances, finish, finish_with, guarded, identity, logout_caller,
  delete_identified, show_session, register, login, refresh, logout, current_session,
  delete_account, serve, serve_all,
}
use encrypt_chat_app.Auth.Service.{Draws, resolve_access_token}
use encrypt_chat_app.Auth.Service
use encrypt_chat_app.Auth.Service.Revocation.{
  Operation, registers, logs_in, refreshes, logs_out, deletes, Avoids, committed, perform,
  perform_all,
}
use encrypt_chat_app.Auth.Service.Revocation.Forever.{logout_forever}
use encrypt_chat_app.Websocket.Authentication.{AuthenticatedIdentity}

-- The ids drawn for a request are neither of these.
abbrev pub IsFreshFrom : Text → Text → Request × Circumstances → Type 0
IsFreshFrom session_id user_id (request, at) =
    (at.draws.session_id ≢ session_id) × (at.draws.user_id ≢ user_id)

module _ (A : Application) where
  abbrev after : A.database.State → List Operation → A.database.State
  after db operations = perform_all A.libraries A.database A.config db operations

  -- The operations that lead from one database to another.
  abbrev Change : Text → Text → A.database.State → A.database.State → Type 0
  Change session_id user_id db db' =
      (operations : List Operation) × (db' ≡ after db operations)
      × All (Avoids session_id user_id) operations

  unchanged :
      (session_id user_id : Text) (db db' : A.database.State)
      → db' ≡ db
      → Change session_id user_id db db'
  unfolding perform_all
  unchanged session_id user_id db db' h = ([], h, tt)

  changed :
      (session_id user_id : Text) (db db' : A.database.State) (operation : Operation)
      → db' ≡ perform A.libraries A.database A.config db operation
      → Avoids session_id user_id operation
      → Change session_id user_id db db'
  unfolding perform_all
  changed session_id user_id db db' operation h avoids = (operation ∷ [], h, (avoids, tt))

  perform_all-append :
      (db : A.database.State) (xs ys : List Operation)
      → after db (xs ++ ys) ≡ after (after db xs) ys
  unfolding perform_all
  perform_all-append db [] ys = refl
  perform_all-append db (x ∷ xs) ys =
      perform_all-append (perform A.libraries A.database A.config db x) xs ys

  -- The end of a handler commits what `committed` says.
  finish-committed :
      {X : Type 0} (k : Kept A) (o : Outcome X) (f : X → Handled) (t : FailedLoginTracker)
      (db : A.database.State)
      → (finish A k (o >>= λ x. returned (f x)) t db).1.db
        ≡ committed A.libraries A.database A.config k.db o db
  finish-committed k (returned x) f t db = refl
  finish-committed k (raised e) f t db = refl
  finish-committed k crashed f t db = refl

  guarded_cases :
      (P : Response × Kept A → Type 0) (k : Kept A) (accepted admitted : Bool)
      (handled : Response × Kept A)
      → ((r : Response) → P (r, k))
      → P handled
      → P (guarded A k accepted admitted handled)
  guarded_cases P k false admitted handled same done = same _
  guarded_cases P k true false handled same done = same _
  guarded_cases P k true true handled same done = done

  module _ (session_id user_id : Text) where
    abbrev Changes : Kept A → Response × Kept A → Type 0
    Changes k (r, k') = Change session_id user_id k.db k'.db

    register-Changes :
        (k : Kept A) (username password : Text) (d : Draws)
        → d.user_id ≢ user_id
        → Changes k (register A k username password d)
    unfolding register perform
    register-Changes k username password d fresh =
        changed session_id user_id k.db _ (registers username password d)
          (finish-committed k
            (Service.register A.libraries A.database A.config k.db username password d).0 _
            k.failed_logins _)
          fresh

    login-Changes :
        (k : Kept A) (username password : Text) (d : Draws)
        → d.session_id ≢ session_id
        → Changes k (login A k username password d)
    unfolding login perform
    login-Changes k username password d fresh =
        changed session_id user_id k.db _ (logs_in k.failed_logins username password d)
          (finish-committed k
            (Service.login A.libraries A.database A.config k.failed_logins k.db username password
              d).outcome
            _ _ _)
          fresh

    refresh-Changes :
        (k : Kept A) (cookie : Option Text) (d : Draws) → Changes k (refresh A k cookie d)
    unfolding refresh perform
    refresh-Changes k none d = unchanged session_id user_id k.db _ refl
    refresh-Changes k (some token) d = elim (Bool-cases (is_empty token)) [
      | inl e ↦ rw e (unchanged session_id user_id k.db _ refl)
      | inr e ↦ rw e (
          changed session_id user_id k.db _ (refreshes token d)
            (finish-committed k (Service.refresh A.libraries A.database A.config k.db token d).0 _ _
              _)
            tt)
    ]

    logout-Changes :
        (k : Kept A) (d : Draws) (o : Outcome AuthenticatedIdentity)
        → Changes k (finish_with A k (logout_caller A k d o))
    unfolding perform
    logout-Changes k d (returned caller) =
        changed session_id user_id k.db _ (logs_out caller.session_id d.now) refl tt
    logout-Changes k d (raised e) = unchanged session_id user_id k.db _ refl
    logout-Changes k d crashed = unchanged session_id user_id k.db _ refl

    current_session-Changes :
        (k : Kept A) (o : Outcome Handled) → Changes k (finish_with A k (o, k.db))
    current_session-Changes k (returned h) = unchanged session_id user_id k.db _ refl
    current_session-Changes k (raised e) = unchanged session_id user_id k.db _ refl
    current_session-Changes k crashed = unchanged session_id user_id k.db _ refl

    delete-Changes :
        (k : Kept A) (password : Text) (d : Draws) (o : Outcome AuthenticatedIdentity)
        → Changes k (delete_identified A k password d o)
    unfolding perform
    delete-Changes k password d (raised e) = unchanged session_id user_id k.db _ refl
    delete-Changes k password d crashed = unchanged session_id user_id k.db _ refl
    delete-Changes k password d (returned caller) =
        guarded_cases (Changes k) k (accepts_password password) true _
          (λ r. unchanged session_id user_id k.db k.db refl)
          (changed session_id user_id k.db _ (deletes caller password d.now)
            (finish-committed k
              (Service.delete_account A.libraries A.database A.config k.db caller password d.now).0
              _ _ _)
            tt)

    serve-Changes :
        (k : Kept A) (request : Request) (at : Circumstances)
        → IsFreshFrom session_id user_id (request, at)
        → Changes k (serve A k request at)
    unfolding serve logout current_session delete_account
    serve-Changes k get_policy at fresh = unchanged session_id user_id k.db _ refl
    serve-Changes k (post_register username password) at fresh =
        guarded_cases (Changes k) k (accepts_credentials username password) at.admitted _
          (λ r. unchanged session_id user_id k.db k.db refl)
          (register-Changes k username password at.draws fresh.1)
    serve-Changes k (post_login username password) at fresh =
        guarded_cases (Changes k) k (accepts_credentials username password) at.admitted _
          (λ r. unchanged session_id user_id k.db k.db refl)
          (login-Changes k username password at.draws fresh.0)
    serve-Changes k (post_refresh cookie) at fresh = refresh-Changes k cookie at.draws
    serve-Changes k (post_logout authorization) at fresh =
        logout-Changes k at.draws (identity A k authorization at)
    serve-Changes k (get_session authorization) at fresh =
        current_session-Changes k (identity A k authorization at >>= show_session A k)
    serve-Changes k (post_delete authorization password) at fresh =
        delete-Changes k password at.draws (identity A k authorization at)

    serve_all-Change :
        (k : Kept A) (requests : List (Request × Circumstances))
        → All (IsFreshFrom session_id user_id) requests
        → Change session_id user_id k.db (serve_all A k requests).db
    unfolding serve_all
    serve_all-Change k [] fresh = unchanged session_id user_id k.db k.db refl
    serve_all-Change k ((request, at) ∷ requests) fresh =
        let k' = (serve A k request at).1 in
        let (first, e, avoids) = serve-Changes k request at fresh.0 in
        let (rest, f, avoid) = serve_all-Change k' requests fresh.1 in
        (
          first ++ rest,
          f ∙ ap (λ db. after db rest) e ∙ sym (perform_all-append k.db first rest),
          All-append (Avoids session_id user_id) first rest avoids avoid,
        )

  -- With a lawful database, after a logout whose caller was identified, no request is identified
  -- with that session again, at any time and whatever requests are served in between, if none of
  -- these draws the session's or the account's id anew.
  pub logout-serve_all :
      (k : Kept A) (authorization header : Option Text) (at later : Circumstances)
      (requests : List (Request × Circumstances)) (caller other : AuthenticatedIdentity)
      → IsDatabase A.database
      → identity A k authorization at ≡ returned caller
      → All (IsFreshFrom caller.session_id caller.user_id) requests
      → identity A (serve_all A (serve A k (post_logout authorization) at).1 requests) header later
        ≡ returned other
      → other.session_id ≢ caller.session_id
  unfolding serve logout get_current_identity
  logout-serve_all k authorization header at later requests caller other law identified fresh h =
      let out =
        Service.logout A.libraries A.database A.config k.db caller.session_id at.draws.now in
      let k' = (serve A k (post_logout authorization) at).1 in
      let end = (serve_all A k' requests).db in
      let left : k'.db ≡ out =
        ap (λ o. (finish_with A k (logout_caller A k at.draws o)).1.db) identified in
      let (operations, e, avoids) =
        serve_all-Change caller.session_id caller.user_id k' requests fresh in
      let (token, _, resolved) =
        >>=-eq-returned (extract_bearer_token A.strings header)
          (λ token.
            resolve_access_token A.libraries A.database A.config end token later.decoded_at
              later.draws.now)
          h in
      logout_forever A.libraries A.database A.config k.db caller.session_id caller.user_id token
        at.draws.now later.decoded_at later.draws.now operations other law avoids
        (subst
          (λ db.
            resolve_access_token A.libraries A.database A.config db token later.decoded_at
              later.draws.now
            ≡ returned other)
          (e ∙ ap (λ db. after db operations) left) resolved)

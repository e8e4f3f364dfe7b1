-- ===== src/Auth/Routes/Cookies.antt =====
-- The cookies of the responses.
use encrypt_chat_app.Base.{
  All, Bool, Bool-cases, Option, Text, [], ap, codes, false, inl, inr, none, refl, some, subst, sym,
  true, ◌∙◌, ◌≡◌,
}
use encrypt_chat_app.Environ.{is_empty}
use encrypt_chat_app.Auth.Errors.{Outcome, returned, raised, crashed, ◌>>=◌}
use encrypt_chat_app.Auth.FailedLogins.{FailedLoginTracker}
use encrypt_chat_app.Auth.Models.{User}
use encrypt_chat_app.Auth.Schemas.{accepts_credentials, accepts_password, from_model, from_config}
use encrypt_chat_app.Auth.Dependencies.{refresh_cookie_name}
use encrypt_chat_app.Auth.Responses.{
  Cookie, set_cookie, delete_cookie, Response, Handled, public_user, password_policy, model,
  response, IsFramework, auth_error_handler, rate_limit_handler,
}
use encrypt_chat_app.Auth.Routes.{
  Application, Kept, Request, get_policy, post_register, post_login, post_refresh, post_logout,
  get_session, post_delete, Circumstances, finish, finish_with, guarded, session_of, show_session,
  created, logged_in, authenticated, missing_cookie, no_content, identity, logout_caller,
  delete_caller, delete_identified, refresh_with, register, login, refresh, logout, current_session,
  delete_account, serve,
}
use encrypt_chat_app.Auth.Service.{Draws}
use encrypt_chat_app.Auth.Service
use encrypt_chat_app.Websocket.Authentication.{AuthenticatedIdentity}

module _ (A : Application) where
  -- A cookie that scripts and other sites do not see, and that only the routes under /auth get.
  abbrev pub IsRestricted : Cookie → Type 0
  IsRestricted (set_cookie key value httponly secure samesite path max_age) =
      (key ≡ refresh_cookie_name)
      × (httponly ≡ true)
      × (secure ≡ A.secure)
      × (samesite ≡ codes "strict")
      × (path ≡ codes "/auth")
  IsRestricted (delete_cookie key path secure httponly samesite) =
      (key ≡ refresh_cookie_name)
      × (httponly ≡ true)
      × (secure ≡ false)
      × (samesite ≡ codes "strict")
      × (path ≡ codes "/auth")

  abbrev Restricted : Handled → Type 0
  Restricted (model status_code body injected) = All IsRestricted injected
  Restricted (response own injected) = All IsRestricted own.cookies

  abbrev RestrictedIf : Outcome Handled → Type 0
  RestrictedIf (returned h) = Restricted h
  RestrictedIf _ = Unit

  after_success :
      {X : Type 0} (o : Outcome X) (f : X → Handled)
      → ((x : X) → Restricted (f x))
      → RestrictedIf (o >>= λ x. returned (f x))
  after_success (returned x) f h = h x
  after_success (raised e) f h = tt
  after_success crashed f h = tt

  session_of-RestrictedIf :
      (caller : AuthenticatedIdentity) (o : Option User) → RestrictedIf (session_of A caller o)
  session_of-RestrictedIf caller none = tt
  session_of-RestrictedIf caller (some user) = tt

  show_session-RestrictedIf :
      (k : Kept A) (o : Outcome AuthenticatedIdentity) → RestrictedIf (o >>= show_session A k)
  show_session-RestrictedIf k (returned caller) =
      session_of-RestrictedIf caller (A.database.user_by_id k.db caller.user_id)
  show_session-RestrictedIf k (raised e) = tt
  show_session-RestrictedIf k crashed = tt

  logout_caller-RestrictedIf :
      (k : Kept A) (d : Draws) (o : Outcome AuthenticatedIdentity)
      → RestrictedIf (logout_caller A k d o).0
  logout_caller-RestrictedIf k d (returned caller) = tt
  logout_caller-RestrictedIf k d (raised e) = tt
  logout_caller-RestrictedIf k d crashed = tt

  module _ (law : IsFramework A.framework) where
    abbrev Served : Response × Kept A → Type 0
    Served r = All IsRestricted r.0.cookies

    respond-Restricted :
        (h : Handled) → Restricted h → All IsRestricted (A.framework.respond h).cookies
    respond-Restricted (model status_code body injected) r =
        subst (λ (x : Response). All IsRestricted x.cookies)
          (sym (law.respond_model status_code body injected)) r
    respond-Restricted (response own injected) r =
        subst (λ (x : Response). All IsRestricted x.cookies) (sym (law.respond_own own injected)) r

    finish-Served :
        (k : Kept A) (o : Outcome Handled) (t : FailedLoginTracker) (db : A.database.State)
        → RestrictedIf o
        → Served (finish A k o t db)
    unfolding auth_error_handler
    finish-Served k (returned h) t db r = respond-Restricted h r
    finish-Served k (raised e) t db r = tt
    finish-Served k crashed t db r = subst (All IsRestricted) (sym law.internal_error_cookies) tt

    guarded-Served :
        (k : Kept A) (accepted admitted : Bool) (handled : Response × Kept A)
        → Served handled
        → Served (guarded A k accepted admitted handled)
    unfolding rate_limit_handler
    guarded-Served k false admitted handled done =
        subst (All IsRestricted) (sym law.unprocessable_cookies) tt
    guarded-Served k true false handled done = tt
    guarded-Served k true true handled done = done

    login_cookies : (x : Service.IssuedCredentials) → Restricted (authenticated A x)
    login_cookies x = ((refl, refl, refl, refl, refl), tt)

    refresh-Served : (k : Kept A) (cookie : Option Text) (d : Draws) → Served (refresh A k cookie d)
    unfolding refresh
    refresh-Served k none d = finish-Served k (missing_cookie A) k.failed_logins k.db tt
    refresh-Served k (some token) d = elim (Bool-cases (is_empty token)) [
      | inl e ↦ rw e (finish-Served k (missing_cookie A) k.failed_logins k.db tt)
      | inr e ↦ rw e (
          finish-Served k (refresh_with A k token d).0 k.failed_logins (refresh_with A k token d).1
            (after_success (Service.refresh A.libraries A.database A.config k.db token d).0
              (authenticated A) login_cookies))
    ]

    delete-Served :
        (k : Kept A) (password : Text) (d : Draws) (o : Outcome AuthenticatedIdentity)
        → Served (delete_identified A k password d o)
    delete-Served k password d (raised e) = finish-Served k (raised e) k.failed_logins k.db tt
    delete-Served k password d crashed = finish-Served k crashed k.failed_logins k.db tt
    delete-Served k password d (returned caller) =
        guarded-Served k (accepts_password password) true _ (
          finish-Served k _ k.failed_logins (delete_caller A k caller password d).1 (
            after_success
              (Service.delete_account A.libraries A.database A.config k.db caller password d.now).0
              _ (λ x. ((refl, refl, refl, refl, refl), tt))))

    -- With a lawful framework, every cookie of every response is the refresh cookie, HttpOnly,
    -- SameSite strict, and only for the paths under /auth; one that is set has the Secure attribute as
    -- configured, and one that deletes the cookie has none.
    pub serve-IsRestricted :
        (k : Kept A) (request : Request) (at : Circumstances)
        → All IsRestricted (serve A k request at).0.cookies
    unfolding serve register login logout current_session delete_account
    serve-IsRestricted k get_policy at =
        respond-Restricted (model 200 (password_policy (from_config A.config)) []) tt
    serve-IsRestricted k (post_register username password) at =
        let (outcome, db) =
          Service.register A.libraries A.database A.config k.db username password at.draws in
        guarded-Served k (accepts_credentials username password) at.admitted
          (register A k username password at.draws)
          (finish-Served k (outcome >>= created A) k.failed_logins db (
            after_success outcome (λ user. model 201 (public_user (from_model user)) []) (λ x. tt)))
    serve-IsRestricted k (post_login username password) at =
        let run =
          Service.login A.libraries A.database A.config k.failed_logins k.db username password
            at.draws in
        guarded-Served k (accepts_credentials username password) at.admitted
          (login A k username password at.draws)
          (finish-Served k (run.outcome >>= logged_in A) run.failed_logins run.db
            (after_success run.outcome (authenticated A) login_cookies))
    serve-IsRestricted k (post_refresh cookie) at = refresh-Served k cookie at.draws
    serve-IsRestricted k (post_logout authorization) at =
        let (outcome, db) = logout_caller A k at.draws (identity A k authorization at) in
        finish-Served k outcome k.failed_logins db
          (logout_caller-RestrictedIf k at.draws (identity A k authorization at))
    serve-IsRestricted k (get_session authorization) at =
        finish-Served k (identity A k authorization at >>= show_session A k) k.failed_logins k.db
          (show_session-RestrictedIf k (identity A k authorization at))
    serve-IsRestricted k (post_delete authorization password) at =
        delete-Served k password at.draws (identity A k authorization at)

    -- With a lawful framework, the response to a logout whose caller was identified is 204 without
    -- any cookie: the refresh cookie is not cleared.
    pub logout-cookies :
        (k : Kept A) (authorization : Option Text) (at : Circumstances)
        (caller : AuthenticatedIdentity)
        → identity A k authorization at ≡ returned caller
        → (serve A k (post_logout authorization) at).0 ≡ no_content A []
    unfolding serve logout
    logout-cookies k authorization at caller identified =
        ap (λ o. (finish_with A k (logout_caller A k at.draws o)).0) identified
        ∙ law.respond_own (no_content A []) _

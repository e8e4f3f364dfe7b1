-- ===== src/Websocket/Server/Monotone.antt =====
-- What the transport reaches with one authentication service, it reaches with any that may resolve more.
use encrypt_chat_app.Base.{Option, Text, none, some}
use encrypt_chat_app.Websocket.Authentication.{AuthenticatedIdentity}
use encrypt_chat_app.Websocket.Schemas.{Parsers}
use encrypt_chat_app.Websocket.Server.{
  Server, IsAnswer, Step, connects, accepts, accept_fails, receives, resolves, times_out,
  disconnects, fails, writes, finishes, Reach, here, next,
}

module _ (p : Parsers) (R R' : Text → AuthenticatedIdentity → Type 0)
    (more : (token : Text) (identity : AuthenticatedIdentity)
      → R token identity
      → R' token identity) where
  IsAnswer-mono :
      (token : Text) (answer : Option AuthenticatedIdentity)
      → IsAnswer p R token answer
      → IsAnswer p R' token answer
  IsAnswer-mono token none r = tt
  IsAnswer-mono token (some identity) r = more token identity r

  pub Step-mono : (s t : Server) → Step p R s t → Step p R' s t
  Step-mono s t (connects id hex origin host now at m fresh is_open e) =
      connects id hex origin host now at m fresh is_open e
  Step-mono s t (accepts id stands e) = accepts id stands e
  Step-mono s t (accept_fails id stands e) = accept_fails id stands e
  Step-mono s t (receives id raw_text now server_time stands e) =
      receives id raw_text now server_time stands e
  Step-mono s t (resolves id envelope token answer stands is_answer e) =
      resolves id envelope token answer stands (IsAnswer-mono token answer is_answer) e
  Step-mono s t (times_out id stands e) = times_out id stands e
  Step-mono s t (disconnects id stands e) = disconnects id stands e
  Step-mono s t (fails id envelope token stands e) = fails id envelope token stands e
  Step-mono s t (writes id e) = writes id e
  Step-mono s t (finishes id code stands e) = finishes id code stands e

  pub Reach-mono : (s t : Server) → Reach p R s t → Reach p R' s t
  Reach-mono s t here = here
  Reach-mono s t (next {t = u} r step) = next (Reach-mono s u r) (Step-mono u t step)

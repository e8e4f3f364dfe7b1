-- ===== src/Websocket/Server/Limits.antt =====
-- The limits are those that the server started with.
use encrypt_chat_app.Base.{
  Bool-cases, Text, ap, arith, contains, inl, inr, length, refl, suc, ℕ, ◌∙◌, ◌≡◌, ◌≤◌,
}
use encrypt_chat_app.Websocket.Authentication.{AuthenticatedIdentity}
use encrypt_chat_app.Websocket.Limits.{TransportLimits}
use encrypt_chat_app.Websocket.Lifecycle.{begin_close, end_close}
use encrypt_chat_app.Websocket.Loop.{
  Next, receive, escape, close, resolve, on_frame, on_timeout, resume,
}
use encrypt_chat_app.Websocket.Manager
use encrypt_chat_app.Websocket.Manager.{ConnectionManager, unregister}
use encrypt_chat_app.Websocket.Schemas.{Parsers}
use encrypt_chat_app.Websocket.Server.{
  Server, start, after_round, Step, connects, accepts, accept_fails, receives, resolves, times_out,
  disconnects, fails, writes, finishes, Reach, here, next,
}
use encrypt_chat_app.Websocket.Server.Closing.{open_connection_inv}
use encrypt_chat_app.Websocket.Server.Promises.{reached-IsRegistry}
use encrypt_chat_app.Websocket.Server.Safety.{greet-Stays, write_next-Stays}
use encrypt_chat_app.Websocket.Server.Stays.{
  on_frame-Stays, on_timeout-Stays, begin_close-Stays, resume-Stays,
}

begin_close-limits : (m : ConnectionManager) (id : ℕ) → (begin_close m id).limits ≡ m.limits
begin_close-limits m id = (begin_close-Stays id m id).limits

end_close-limits : (m : ConnectionManager) (id : ℕ) → (end_close m id).limits ≡ m.limits
unfolding end_close unregister
end_close-limits m id = elim (Bool-cases (contains id m.connections)) [
  | inl e ↦ rw (end_close, unregister, e) refl
  | inr e ↦ rw (end_close, unregister, e) refl
]

after_round-limits :
    (s : Server) (id : ℕ) (m : ConnectionManager) (n : Next)
    → (after_round s id m n).manager.limits ≡ m.limits
after_round-limits s id m receive = refl
after_round-limits s id m escape = begin_close-limits m id
after_round-limits s id m (close code) = begin_close-limits m id
after_round-limits s id m (resolve e token) = refl

module _ (p : Parsers) (Resolves : Text → AuthenticatedIdentity → Type 0) where
  Step-limits : (s t : Server) → Step p Resolves s t → t.manager.limits ≡ s.manager.limits
  Step-limits s t (connects id hex origin host now at m fresh is_open e) =
      let (_, _, admitted) = open_connection_inv s.manager m id hex origin host now at is_open in
      rw e (ap (λ a. a.limits) admitted)
  Step-limits s t (accepts id stands e) = rw e (greet-Stays id s.manager id).limits
  Step-limits s t (accept_fails id stands e) = rw e refl
  Step-limits s t (receives id raw_text now server_time stands e) =
      let r = on_frame p s.manager id raw_text now server_time in
      rw e (
        after_round-limits s id r.0 r.1
        ∙ (on_frame-Stays p id s.manager id raw_text now server_time).limits)
  Step-limits s t (resolves id envelope token answer stands is_answer e) =
      let r = resume s.manager id envelope answer in
      rw e (
        after_round-limits s id r.0 r.1
        ∙ (resume-Stays (suc id) s.manager id envelope answer (λ h. omega (arith, h))).limits)
  Step-limits s t (times_out id stands e) = rw e (
      begin_close-limits (on_timeout s.manager id).0 id ∙ (on_timeout-Stays id s.manager id).limits)
  Step-limits s t (disconnects id stands e) = rw e (begin_close-limits s.manager id)
  Step-limits s t (fails id envelope token stands e) = rw e (begin_close-limits s.manager id)
  Step-limits s t (writes id e) = rw e (write_next-Stays id s.manager id).limits
  Step-limits s t (finishes id code stands e) = rw e (end_close-limits s.manager id)

  pub Reach-limits : (s t : Server) → Reach p Resolves s t → t.manager.limits ≡ s.manager.limits
  Reach-limits s t here = refl
  Reach-limits s t (next {t = u} r step) = Step-limits u t step ∙ Reach-limits s u r

  -- In every reachable state, the server holds at most as many connections as the limits allow that it
  -- was started with.
  pub connections-bounded :
      (limits : TransportLimits) (s : Server)
      → Reach p Resolves (start limits) s
      → length s.manager.connections ≤ limits.max_total_connections
  unfolding Manager.init
  connections-bounded limits s r =
      let bounded = (reached-IsRegistry p Resolves limits s r).bounded in
      let same = ap (λ l. l.max_total_connections) (Reach-limits (start limits) s r) in
      omega (arith, bounded, same)

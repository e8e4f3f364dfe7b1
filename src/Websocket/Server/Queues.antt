-- ===== src/Websocket/Server/Queues.antt =====
-- The outbound queues of the registered connections have the bound that the limits set.
use encrypt_chat_app.Base.{
  ==_iff, Bool-cases, Text, ap, arith, contains, inl, inr, length, refl, subst, suc, sym, true, ℕ,
  ◌<◌, ◌==◌, ◌∙◌, ◌≡◌, ◌≤◌,
}
use encrypt_chat_app.Websocket.Authentication.{AuthenticatedIdentity}
use encrypt_chat_app.Websocket.Context.{mark_closing}
use encrypt_chat_app.Websocket.Limits.{TransportLimits}
use encrypt_chat_app.Websocket.Lifecycle.{greet, begin_close, end_close, write_next}
use encrypt_chat_app.Websocket.Loop.{
  Next, receive, escape, close, resolve, on_frame, on_timeout, resume,
}
use encrypt_chat_app.Websocket.Manager
use encrypt_chat_app.Websocket.Manager.{ConnectionManager, new_context, unregister, write}
use encrypt_chat_app.Websocket.Schemas.{Parsers}
use encrypt_chat_app.Websocket.Server.{
  Server, start, after_round, Step, connects, accepts, accept_fails, receives, resolves, times_out,
  disconnects, fails, writes, finishes, Reach, here, next,
}
use encrypt_chat_app.Websocket.Server.Closing.{open_connection_inv}
use encrypt_chat_app.Websocket.Server.Limits.{Reach-limits}
use encrypt_chat_app.Websocket.Server.Promises.{reached-room}
use encrypt_chat_app.Websocket.Server.Safety.{
  greet-Stays, write_next-Stays, opened-contains, end_close-contains,
}
use encrypt_chat_app.Websocket.Server.Stays.{
  Stays, on_frame-Stays, on_timeout-Stays, begin_close-Stays, resume-Stays, write-maxsize,
}

-- Every registered connection has an outbound queue of `n` places.
abbrev Sized : ℕ → ConnectionManager → Type 0
Sized n m = (id : ℕ) → contains id m.connections ≡ true → (m.heap id).outbound.maxsize ≡ n

Stays-Sized : (n i : ℕ) (m m' : ConnectionManager) → Stays i m m' → Sized n m → Sized n m'
Stays-Sized n i m m' s sized id h =
    s.maxsize id ∙ sized id (ap (λ c. contains id c) (sym s.connections) ∙ h)

end_close-maxsize :
    (m : ConnectionManager) (id j : ℕ)
    → ((end_close m id).heap j).outbound.maxsize ≡ (m.heap j).outbound.maxsize
unfolding end_close unregister mark_closing
end_close-maxsize m id j = elim (Bool-cases (contains id m.connections)) [
  | inl e ↦
      rw (end_close, unregister, e) (write-maxsize m.heap id (mark_closing (m.heap id)) j refl)
  | inr e ↦ rw (end_close, unregister, e) refl
]

end_close-Sized : (n : ℕ) (m : ConnectionManager) (id : ℕ) → Sized n m → Sized n (end_close m id)
end_close-Sized n m id sized j h =
    end_close-maxsize m id j ∙ sized j (ground (arith, end_close-contains m id j, h))

after_round-Sized :
    (n : ℕ) (s : Server) (id : ℕ) (m : ConnectionManager) (next : Next)
    → Sized n m
    → Sized n (after_round s id m next).manager
after_round-Sized n s id m receive sized = sized
after_round-Sized n s id m escape sized =
    Stays-Sized n id m (begin_close m id) (begin_close-Stays id m id) sized
after_round-Sized n s id m (close code) sized =
    Stays-Sized n id m (begin_close m id) (begin_close-Stays id m id) sized
after_round-Sized n s id m (resolve e token) sized = sized

module _ (p : Parsers) (Resolves : Text → AuthenticatedIdentity → Type 0) where
  Step-Sized :
      (n : ℕ) (s t : Server)
      → s.manager.limits.max_pending_outbound ≡ n
      → Step p Resolves s t
      → Sized n s.manager
      → Sized n t.manager
  unfolding new_context
  Step-Sized n s t same (connects id hex origin host now at m fresh is_open e) sized =
      let (_, _, admitted) = open_connection_inv s.manager m id hex origin host now at is_open in
      rw e λ j h. elim (Bool-cases (id == j)) [
        | inl own ↦ ap (λ a. (a.heap j).outbound.maxsize) admitted ∙ rw own same
        | inr other ↦
            ap (λ a. (a.heap j).outbound.maxsize) admitted
            ∙ rw other (
                sized j (
                  ground (
                    arith,
                    opened-contains s.manager m id hex origin host now at j is_open,
                    h,
                    ==_iff j id,
                    ==_iff id j,
                    other,
                  )))
      ]
  Step-Sized n s t same (accepts id stands e) sized =
      rw e (Stays-Sized n id s.manager (greet s.manager id) (greet-Stays id s.manager id) sized)
  Step-Sized n s t same (accept_fails id stands e) sized = rw e sized
  Step-Sized n s t same (receives id raw_text now server_time stands e) sized =
      let r = on_frame p s.manager id raw_text now server_time in
      rw e (
        after_round-Sized n s id r.0 r.1 (
          Stays-Sized n id s.manager r.0 (on_frame-Stays p id s.manager id raw_text now server_time)
            sized))
  Step-Sized n s t same (resolves id envelope token answer stands is_answer e) sized =
      let r = resume s.manager id envelope answer in
      rw e (
        after_round-Sized n s id r.0 r.1 (
          Stays-Sized n (suc id) s.manager r.0
            (resume-Stays (suc id) s.manager id envelope answer (λ h. omega (arith, h))) sized))
  Step-Sized n s t same (times_out id stands e) sized =
      let m = (on_timeout s.manager id).0 in
      rw e (
        Stays-Sized n id m (begin_close m id) (begin_close-Stays id m id)
          (Stays-Sized n id s.manager m (on_timeout-Stays id s.manager id) sized))
  Step-Sized n s t same (disconnects id stands e) sized = rw e (
      Stays-Sized n id s.manager (begin_close s.manager id) (begin_close-Stays id s.manager id)
        sized)
  Step-Sized n s t same (fails id envelope token stands e) sized = rw e (
      Stays-Sized n id s.manager (begin_close s.manager id) (begin_close-Stays id s.manager id)
        sized)
  Step-Sized n s t same (writes id e) sized = rw e (
      Stays-Sized n id s.manager (write_next s.manager id).0 (write_next-Stays id s.manager id)
        sized)
  Step-Sized n s t same (finishes id code stands e) sized =
      rw e (end_close-Sized n s.manager id sized)

  reached-Sized :
      (limits : TransportLimits) (s : Server)
      → Reach p Resolves (start limits) s
      → Sized limits.max_pending_outbound s.manager
  unfolding Manager.init contains
  reached-Sized limits s here = λ id h. cc h
  reached-Sized limits s (next {t = u} r step) =
      Step-Sized limits.max_pending_outbound u s
        (ap (λ l. l.max_pending_outbound) (Reach-limits p Resolves (start limits) u r)) step
        (reached-Sized limits u r)

  -- In every reachable state, if the `max_pending_outbound` of the limits that the server was started
  -- with is positive, at most so many messages wait for each registered connection.
  pub outbound-bounded :
      (limits : TransportLimits) (s : Server) (id : ℕ)
      → Reach p Resolves (start limits) s
      → contains id s.manager.connections ≡ true
      → 0 < limits.max_pending_outbound
      → length (s.manager.heap id).outbound.items ≤ limits.max_pending_outbound
  outbound-bounded limits s id r live positive =
      let size = reached-Sized limits s r id live in
      subst (λ n. length (s.manager.heap id).outbound.items ≤ n) size
        (reached-room p Resolves limits s id r (omega (arith, positive, size)))

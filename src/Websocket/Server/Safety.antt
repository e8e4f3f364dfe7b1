-- ===== src/Websocket/Server/Safety.antt =====
-- Every step of the server keeps the invariant, so it holds in every reachable state.
use encrypt_chat_app.Base.{
  ==_iff, Bool-cases, Option, Text, [], ap, arith, contains, contains-add, contains-discard, false,
  inl, inr, none, not, refl, some, suc, true, ℕ, ◌&&◌, ◌==◌, ◌||◌, ◌∙◌, ◌∷◌, ◌≡◌, ◌≢◌,
}
use encrypt_chat_app.Websocket.Authentication.{AuthenticatedIdentity, finish_authentication}
use encrypt_chat_app.Websocket.Context.{mark_closing}
use encrypt_chat_app.Websocket.Errors.{CloseCode, normal}
use encrypt_chat_app.Websocket.Lifecycle.{
  greet, opened, open_connection, begin_close, end_close, write_next,
}
use encrypt_chat_app.Websocket.Loop.{set_context, resume, on_frame, on_timeout}
use encrypt_chat_app.Websocket.Loop.Responses.{write_ne}
use encrypt_chat_app.Websocket.Manager.{ConnectionManager, unregister}
use encrypt_chat_app.Websocket.Messages.{OutboundMessage}
use encrypt_chat_app.Websocket.Schemas.{Parsers, InboundEnvelope}
use encrypt_chat_app.Websocket.Server.{
  accepting, abandoned, accepts, accept_fails, Server, move, IsAnswer, Step, connects, receives,
  resolves, times_out, disconnects, fails, writes, finishes, Reach, here, next, unused, serving,
  awaiting, closing, closed,
}
use encrypt_chat_app.Websocket.Server.Binding.{resume-IsSound}
use encrypt_chat_app.Websocket.Server.Closing.{
  greet-IsSound, open_connection-IsSound, open_connection_inv, end_close-IsSound,
  write_next-IsSound,
}
use encrypt_chat_app.Websocket.Server.Rounds.{on_frame-IsSound, on_timeout-IsSound}
use encrypt_chat_app.Websocket.Server.Stays.{
  Stays, Stays-refl, notify-Stays, set_context-Stays, on_frame-Stays, on_timeout-Stays,
  resume-Stays,
}
use encrypt_chat_app.Websocket.Server.Sound.{IsSound}
use encrypt_chat_app.Websocket.Server.Reachable.{
  IsSafe, Apart, Apart-InPhase, Awaits, Stays-Apart, respond-Awaits, on_frame-Awaits, move-IsSafe,
  closing-IsSafe, after_round-IsSafe, in_phase,
}

-- Opening a connection registers it, and leaves the others alone.
pub opened-contains :
    (m m' : ConnectionManager) (id : ℕ) (hex : Text) (origin host : Option Text) (now at i : ℕ)
    → open_connection m id hex origin host now at ≡ opened m'
    → contains i m'.connections ≡ (i == id || contains i m.connections)
opened-contains m m' id hex origin host now at i h =
    let (_, _, e) = open_connection_inv m m' id hex origin host now at h in
    ap (λ a. contains i a.connections) e ∙ contains-add i id m.connections

opened-Apart :
    (m m' : ConnectionManager) (id : ℕ) (hex : Text) (origin host : Option Text) (now at i : ℕ)
    → open_connection m id hex origin host now at ≡ opened m'
    → i ≢ id
    → Apart i m m'
opened-Apart m m' id hex origin host now at i h other =
    let (_, _, e) = open_connection_inv m m' id hex origin host now at h in
    record {
      registered =
          ground (arith, opened-contains m m' id hex origin host now at i h, ==_iff i id, other);
      authenticated =
          ap (λ b. (b.heap i).authenticated) e
          ∙ ap (λ c. c.authenticated) (write_ne m.heap id i _ other);
    }

pub greet-Stays : (i : ℕ) (m : ConnectionManager) (id : ℕ) → Stays i m (greet m id)
unfolding greet
greet-Stays i m id = notify-Stays i m id _

resume-connections :
    (m : ConnectionManager) (id : ℕ) (e : InboundEnvelope) (answer : Option AuthenticatedIdentity)
    → (resume m id e answer).0.connections ≡ m.connections
resume-connections m id e answer =
    (resume-Stays (suc id) m id e answer (λ h. omega (arith, h))).connections

resume-Awaits :
    (m : ConnectionManager) (id : ℕ) (e : InboundEnvelope) (answer : Option AuthenticatedIdentity)
    → Awaits id (resume m id e answer)
unfolding resume
resume-Awaits m id e answer =
    respond-Awaits id id (finish_authentication m id e answer).0
      (finish_authentication m id e answer).1

-- The end of the `finally` block takes the connection from the registry.
pub end_close-contains :
    (m : ConnectionManager) (id i : ℕ)
    → contains i (end_close m id).connections ≡ (not (i == id) && contains i m.connections)
unfolding end_close unregister
end_close-contains m id i = elim (Bool-cases (contains id m.connections)) [
  | inl e ↦ rw (end_close, unregister, e) (contains-discard i id m.connections)
  | inr e ↦ rw (end_close, unregister, e) (ground (arith, ==_iff i id, e))
]

end_close-authenticated :
    (m : ConnectionManager) (id i : ℕ)
    → ((end_close m id).heap i).authenticated ≡ (m.heap i).authenticated
unfolding end_close unregister mark_closing
end_close-authenticated m id i = elim (Bool-cases (contains id m.connections)) [
  | inl e ↦
      rw (end_close, unregister, e)
        (set_context-Stays i m id (mark_closing (m.heap id)) refl refl).authenticated
  | inr e ↦ rw (end_close, unregister, e) refl
]

end_close-Apart : (m : ConnectionManager) (id i : ℕ) → i ≢ id → Apart i m (end_close m id)
end_close-Apart m id i other = record {
  registered = ground (arith, end_close-contains m id i, ==_iff i id, other);
  authenticated = end_close-authenticated m id i;
}

pub write_next-Stays : (i : ℕ) (m : ConnectionManager) (id : ℕ) → Stays i m (write_next m id).0
unfolding write_next
write_next-Stays i m id =
    elim (m.heap id).outbound.items
      as (λ items.
        let r : ConnectionManager × Option OutboundMessage = elim items [
          | [] ↦ (m, none)
          | message ∷ rest ↦ (
            set_context m id
                (record (m.heap id) { outbound = record (m.heap id).outbound { items = rest } }),
            some message,
          )
        ] in
        Stays i m r.0) [
          | [] ↦ Stays-refl i m
          | message ∷ rest ↦ set_context-Stays i m id _ refl refl
        ]

module _ (p : Parsers) (Resolves : Text → AuthenticatedIdentity → Type 0) where
  closed_at :
      (s : Server) (id : ℕ) (m : ConnectionManager) (code : CloseCode)
      → IsSafe Resolves s
      → contains id s.manager.connections ≡ true
      → IsSound Resolves m
      → ((i : ℕ) → Stays i s.manager m)
      → IsSafe Resolves (move s id (begin_close m id) (closing code))
  closed_at s id m code safe live sound stays =
      closing-IsSafe Resolves s id m code safe sound
        ((Stays-Apart id s.manager m (stays id)).registered ∙ live)
        (λ i other. Stays-Apart i s.manager m (stays i))

  pub Step-IsSafe : (s t : Server) → IsSafe Resolves s → Step p Resolves s t → IsSafe Resolves t
  Step-IsSafe s t safe (connects id hex origin host now at m fresh is_open e) =
      let unregistered = in_phase Resolves s id unused safe fresh in
      rw e (
        move-IsSafe Resolves s id m accepting safe
          (open_connection-IsSound Resolves s.manager m id hex origin host now at is_open
            unregistered safe.sound)
          (ground (arith, opened-contains s.manager m id hex origin host now at id is_open))
          (λ i other. opened-Apart s.manager m id hex origin host now at i is_open other))
  Step-IsSafe s t safe (accepts id stands e) = rw e (
      move-IsSafe Resolves s id (greet s.manager id) serving safe
        (greet-IsSound Resolves s.manager id safe.sound)
        ((Stays-Apart id s.manager (greet s.manager id) (greet-Stays id s.manager id)).registered
          ∙ in_phase Resolves s id accepting safe stands)
        (λ i other. Stays-Apart i s.manager (greet s.manager id) (greet-Stays i s.manager id)))
  Step-IsSafe s t safe (accept_fails id stands e) = rw e (
      move-IsSafe Resolves s id s.manager abandoned safe safe.sound
        (in_phase Resolves s id accepting safe stands)
        (λ i other. Stays-Apart i s.manager s.manager (Stays-refl i s.manager)))
  Step-IsSafe s t safe (receives id raw_text now server_time stands e) =
      let r = on_frame p s.manager id raw_text now server_time in
      let stays : (i : ℕ) → Stays i s.manager r.0 =
        λ i. on_frame-Stays p i s.manager id raw_text now server_time in
      rw e (
        after_round-IsSafe Resolves s id r.0 r.1 safe
          (on_frame-IsSound Resolves p s.manager id raw_text now server_time safe.sound)
          ((Stays-Apart id s.manager r.0 (stays id)).registered
            ∙ in_phase Resolves s id serving safe stands)
          (on_frame-Awaits p s.manager id raw_text now server_time)
          (λ i other. Stays-Apart i s.manager r.0 (stays i)))
  Step-IsSafe s t safe (resolves id envelope token answer stands is_answer e) =
      let r = resume s.manager id envelope answer in
      let (live, unknown) = in_phase Resolves s id (awaiting envelope token) safe stands in
      rw e (
        after_round-IsSafe Resolves s id r.0 r.1 safe (answered answer is_answer live unknown)
          (ap (contains id) (resume-connections s.manager id envelope answer) ∙ live)
          (resume-Awaits s.manager id envelope answer)
          (λ i other.
            Stays-Apart i s.manager r.0 (resume-Stays i s.manager id envelope answer other)))
    where
      answered :
          (a : Option AuthenticatedIdentity)
          → IsAnswer p Resolves token a
          → contains id s.manager.connections ≡ true
          → (s.manager.heap id).authenticated ≡ false
          → IsSound Resolves (resume s.manager id envelope a).0
      answered none h live unknown =
          resume-IsSound Resolves s.manager id envelope token none tt live unknown safe.sound
      answered (some identity) h live unknown =
          resume-IsSound Resolves s.manager id envelope token (some identity) h live unknown
            safe.sound
  Step-IsSafe s t safe (times_out id stands e) = rw e (
      closed_at s id (on_timeout s.manager id).0 (on_timeout s.manager id).1 safe
        (in_phase Resolves s id serving safe stands)
        (on_timeout-IsSound Resolves s.manager id safe.sound)
        (λ i. on_timeout-Stays i s.manager id))
  Step-IsSafe s t safe (disconnects id stands e) = rw e (
      closed_at s id s.manager normal safe (in_phase Resolves s id serving safe stands) safe.sound
        (λ i. Stays-refl i s.manager))
  Step-IsSafe s t safe (fails id envelope token stands e) = rw e (
      closed_at s id s.manager normal safe
        (in_phase Resolves s id (awaiting envelope token) safe stands).0 safe.sound
        (λ i. Stays-refl i s.manager))
  Step-IsSafe s t safe (writes id e) = rw e (record {
    sound = write_next-IsSound Resolves s.manager id safe.sound;
    phases = λ i.
        Apart-InPhase s.manager (write_next s.manager id).0 i (s.phase i)
          (Stays-Apart i _ _ (write_next-Stays i s.manager id)) (safe.phases i);
  })
  Step-IsSafe s t safe (finishes id code stands e) = rw e (
      move-IsSafe Resolves s id (end_close s.manager id) (closed code) safe
        (end_close-IsSound Resolves s.manager id safe.sound)
        (ground (arith, end_close-contains s.manager id id))
        (λ i other. end_close-Apart s.manager id i other))

  pub Reach-IsSafe : (s t : Server) → IsSafe Resolves s → Reach p Resolves s t → IsSafe Resolves t
  Reach-IsSafe s t safe here = safe
  Reach-IsSafe s t safe (next {t = u} r step) = Step-IsSafe u t (Reach-IsSafe s u safe r) step

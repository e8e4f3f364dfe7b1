-- ===== src/Websocket/Server/Forwarding.antt =====
-- Store and forward: what was queued reaches the connection that authenticates.
use encrypt_chat_app.Base.{
  List, Text, [], ap, length, refl, some, subst, suc, text_eq_refl, ℕ, ◌++◌, ◌∙◌, ◌∷◌, ◌≡◌,
}
use encrypt_chat_app.Websocket.Authentication.{AuthenticatedIdentity}
use encrypt_chat_app.Websocket.Loop.{receive, respond, resume}
use encrypt_chat_app.Websocket.Loop.Forwarding.{Takes, ready, resume-forwards}
use encrypt_chat_app.Websocket.Manager.{ConnectionManager}
use encrypt_chat_app.Websocket.Manager.Registry.{IsRegistry}
use encrypt_chat_app.Websocket.Messages.{OutboundMessage}
use encrypt_chat_app.Websocket.Protocol.{queued}
use encrypt_chat_app.Websocket.Queue.Contents.{contents}
use encrypt_chat_app.Websocket.Routing.{route_message, receipt_of}
use encrypt_chat_app.Websocket.Routing.Statuses.{Meaning, route_message-Meaning}
use encrypt_chat_app.Websocket.Schemas.{Parsers, InboundEnvelope}
use encrypt_chat_app.Websocket.Server.{Server, after_round, Reach}
use encrypt_chat_app.Websocket.Server.Waiting.{
  ResolvesOther, Reach-Grows, respond-offline, after_round-offline,
}

module _ (p : Parsers) (Resolves : Text → AuthenticatedIdentity → Type 0) where
  -- The server after the round in which `sender` sends the message and gets the answers.
  abbrev pub sent_by : Server → ℕ → InboundEnvelope → Text → List OutboundMessage → Server
  sent_by s sender sent name answers =
      let r = respond (route_message s.manager sender sent name).0 sender answers in
      after_round s sender r.0 r.1

  -- A message that was queued for an account whose connections were away, with a well-formed registry,
  -- reaches the next connection that authenticates as that account: whatever steps the server takes
  -- after that round in which no connection is authenticated as the account, if the context that then
  -- authenticates is not closing and its outbound queue is unbounded or takes the confirmation and what
  -- waits, then it goes on receiving, and behind what it had stand the confirmation, what had waited
  -- before the message, the message, and what came later.
  pub store_and_forward :
      (s t : Server) (sender id : ℕ) (sent e : InboundEnvelope) (identity : AuthenticatedIdentity)
      (answers : List OutboundMessage)
      → IsRegistry s.manager
      → (route_message s.manager sender sent identity.username).1 ≡ queued
      → Reach p
          (ResolvesOther identity.username p Resolves)
          (sent_by s sender sent identity.username answers)
          t
      → Takes
          (t.manager.heap id)
          (suc (length (contents t.manager.offline_queue identity.username)))
      → (later : List OutboundMessage) × ((resume t.manager id e (some identity)).1 ≡ receive)
        × (((resume t.manager id e (some identity)).0.heap id).outbound.items
            ≡ (t.manager.heap id).outbound.items
              ++ ready e identity
                ∷ ((contents s.manager.offline_queue identity.username
                      ++ receipt_of s.manager sender sent identity.username ∷ [])
                    ++ later))
  store_and_forward s t sender id sent e identity answers v is_queued run room =
      let (later, grown) = Reach-Grows name p Resolves (sent_by s sender sent name answers) t run in
      let (goes_on, items, _) = resume-forwards t.manager id e identity room in
      (
        later,
        goes_on,
        items
            ∙ ap (λ l. (t.manager.heap id).outbound.items ++ ready e identity ∷ l)
                (grown ∙ ap (λ l. l ++ later) stored),
      )
    where
      name : Text
      name = identity.username

      m' : ConnectionManager
      m' = (route_message s.manager sender sent name).0

      meaning : Meaning s.manager sender sent name m' queued
      meaning =
          subst (Meaning s.manager sender sent name m') is_queued
            (route_message-Meaning s.manager sender sent name v)

      stored :
          contents (sent_by s sender sent name answers).manager.offline_queue name
          ≡ contents s.manager.offline_queue name ++ receipt_of s.manager sender sent name ∷ []
      stored =
          let r = respond m' sender answers in
          ap (λ q. contents q name)
            (after_round-offline name s sender r.0 r.1 ∙ respond-offline name m' sender answers)
          ∙ meaning.2 name
          ∙ rw text_eq_refl refl

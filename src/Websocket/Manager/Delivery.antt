-- ===== src/Websocket/Manager/Delivery.antt =====
-- `deliver_to_client`: who gets the message, and what it reports.
use encrypt_chat_app.Base.{
  Bool, Distinct, List, Text, [], any, any-of_contains, arith, contains, contains-filter,
  contains_head, contains_of_any, false, filter-Distinct, if◌then◌else◌, refl, sym, text_eq, true,
  ℕ, ◌&&◌, ◌↔◌, ◌∙◌, ◌∷◌, ◌≡◌,
}
use encrypt_chat_app.Websocket.Context.{ConnectionContext, routing_identity, enqueue_outbound}
use encrypt_chat_app.Websocket.Messages.{OutboundMessage}
use encrypt_chat_app.Websocket.Manager.{
  ConnectionManager, Heap, write, ids_of, connections_for, enqueue_each, deliver_to_client,
  is_connected, is_nonempty,
}
use encrypt_chat_app.Websocket.Manager.Registry.{IsRegistry}

abbrev accepts : Heap → OutboundMessage → ℕ → Bool
accepts heap message id = (enqueue_outbound (heap id) message).1

enqueue_each-heap :
    (heap : Heap) (targets : List ℕ) (message : OutboundMessage) (i : ℕ)
    → Distinct targets
    → (enqueue_each heap targets message).0 i
      ≡ (if contains i targets then (enqueue_outbound (heap i) message).0 else heap i)
unfolding enqueue_each contains
enqueue_each-heap heap [] message i d = refl
enqueue_each-heap heap (id ∷ targets) message i d =
    let heap' = write heap id (enqueue_outbound (heap id) message).0 in
    ground (arith, enqueue_each-heap heap' targets message i d.1)

any_written :
    (heap : Heap) (id : ℕ) (c : ConnectionContext) (message : OutboundMessage) (targets : List ℕ)
    → contains id targets ≡ false
    → any (accepts (write heap id c) message) targets ≡ any (accepts heap message) targets
unfolding contains
any_written heap id c message [] h = refl
any_written heap id c message (i ∷ targets) h =
    ground (arith, any_written heap id c message targets)

-- The writes to other contexts do not change what a target accepts.
enqueue_each-any :
    (heap : Heap) (targets : List ℕ) (message : OutboundMessage)
    → Distinct targets
    → (enqueue_each heap targets message).1 ≡ any (accepts heap message) targets
unfolding enqueue_each
enqueue_each-any heap [] message d = refl
enqueue_each-any heap (id ∷ targets) message d =
    let c = (enqueue_outbound (heap id) message).0 in
    rw (enqueue_each-any (write heap id c) targets message d.1)
      (rw (any_written heap id c message targets d.0) refl)

-- The registered connections of an identity.
abbrev pub serves : ConnectionManager → Text → ℕ → Bool
serves m client i = contains i m.connections && text_eq (routing_identity (m.heap i)) client

pub connections_for-serves :
    (m : ConnectionManager) (client : Text) (i : ℕ)
    → IsRegistry m
    → contains i (connections_for m client) ≡ serves m client i
unfolding connections_for
connections_for-serves m client i v = ground (
  arith,
  v.indexed client i,
  contains-filter (λ id. contains id m.connections) i (ids_of client m.by_client),
)

connections_for-Distinct :
    (m : ConnectionManager) (client : Text) → IsRegistry m → Distinct (connections_for m client)
unfolding connections_for
connections_for-Distinct m client v = filter-Distinct _ _ (v.tidy.distinct client)

-- On a well-formed registry, delivery to an identity offers the message to each of its registered
-- connections once, and leaves every other context as it was.
pub deliver_to_client-heap :
    (m : ConnectionManager) (client : Text) (message : OutboundMessage) (i : ℕ)
    → IsRegistry m
    → (deliver_to_client m client message).0.heap i
      ≡ (if serves m client i then (enqueue_outbound (m.heap i) message).0 else m.heap i)
unfolding deliver_to_client
deliver_to_client-heap m client message i v =
    rw
      (enqueue_each-heap m.heap (connections_for m client) message i
        (connections_for-Distinct m client v))
      (rw (connections_for-serves m client i v) refl)

deliver_to_client-any :
    (m : ConnectionManager) (client : Text) (message : OutboundMessage)
    → IsRegistry m
    → (deliver_to_client m client message).1
      ≡ any (accepts m.heap message) (connections_for m client)
unfolding deliver_to_client
deliver_to_client-any m client message v =
    enqueue_each-any m.heap (connections_for m client) message (connections_for-Distinct m client v)

-- On a well-formed registry, delivery to an identity reports success exactly when some registered
-- connection of that identity accepts the message into its outbound queue.
pub deliver_to_client-accepted :
    (m : ConnectionManager) (client : Text) (message : OutboundMessage)
    → IsRegistry m
    → ((deliver_to_client m client message).1 ≡ true)
      ↔ ((i : ℕ) × (serves m client i ≡ true) × ((enqueue_outbound (m.heap i) message).1 ≡ true))
deliver_to_client-accepted m client message v = (there, back)
  where
    targets : List ℕ
    targets = connections_for m client

    there :
        (deliver_to_client m client message).1 ≡ true
        → (i : ℕ) × (serves m client i ≡ true) × (accepts m.heap message i ≡ true)
    there h =
        let (i, found, ok) =
          contains_of_any (accepts m.heap message) targets
            (sym (deliver_to_client-any m client message v) ∙ h) in
        (i, sym (connections_for-serves m client i v) ∙ found, ok)

    back :
        (i : ℕ) × (serves m client i ≡ true) × (accepts m.heap message i ≡ true)
        → (deliver_to_client m client message).1 ≡ true
    back (i, found, ok) =
        deliver_to_client-any m client message v
        ∙ any-of_contains (accepts m.heap message) i targets
            (connections_for-serves m client i v ∙ found) ok

nonempty-contains : (ids : List ℕ) → (is_nonempty ids ≡ true) ↔ ((i : ℕ) × (contains i ids ≡ true))
unfolding contains
nonempty-contains [] = (λ h. absurd (ground arith), λ (i, h). ground arith)
nonempty-contains (id ∷ ids) = (λ h. (id, contains_head id ids), λ h. refl)

-- On a well-formed registry, an identity counts as connected exactly when some registered
-- connection has it as its routing identity.
pub is_connected-serves :
    (m : ConnectionManager) (client : Text)
    → IsRegistry m
    → (is_connected m client ≡ true) ↔ ((i : ℕ) × (serves m client i ≡ true))
unfolding is_connected
is_connected-serves m client v =
    let e = nonempty-contains (ids_of client m.by_client) in
    (
      λ h. let (i, found) = e.0 h in (i, sym (v.indexed client i) ∙ found),
      λ (i, found). e.1 (i, v.indexed client i ∙ found),
    )

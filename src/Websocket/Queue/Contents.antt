-- ===== src/Websocket/Queue/Contents.antt =====
-- The queue as a map from each recipient to what waits for it, oldest first.
use encrypt_chat_app.Base.{
  List, Option, Option-cases, Text, [], arith, if◌then◌else◌, inl, inr, insert, length, lookup,
  lookup-erase, lookup-insert, none, some, text_eq, text_eq_iff, true, ◌++◌, ◌<◌, ◌↔◌, ◌∷◌, ◌≡◌,
}
use encrypt_chat_app.Websocket.Queue.{OfflineQueue, enqueue, drain, count, discard}

abbrev pub or_empty : {A : Type 0} → Option (List A) → List A
or_empty none = []
or_empty (some l) = l

module _ {A : Type 0} where
  unfoldable pub contents : OfflineQueue A → Text → List A
  contents q recipient = or_empty (lookup recipient q.queues)

  -- As a map from names to what waits for them, an accepted envelope stands last under its
  -- recipient and a refused one nowhere; every other name keeps what it had.
  pub enqueue-contents :
      (q : OfflineQueue A) (recipient other : Text) (envelope : A)
      → contents (enqueue q recipient envelope).0 other ≡ (
          if (enqueue q recipient envelope).1
          then (if text_eq recipient other
              then contents q other ++ envelope ∷ []
              else contents q other)
          else contents q other)
  unfolding contents enqueue
  enqueue-contents q r other e = ground (
    arith,
    text_eq_iff r other,
    lookup-insert r other [] q.queues,
    lookup-insert r other (or_empty (lookup r q.queues) ++ e ∷ []) q.queues,
    lookup-insert r other (e ∷ []) (insert r [] q.queues),
  )

  -- When there is room: the recipient's own queue is not full, and a new recipient fits.
  pub HasRoom : OfflineQueue A → Text → Type 0
  HasRoom q recipient = elim (lookup recipient q.queues) [
    | none ↦ (length q.queues < q.max_recipients) × (0 < q.max_per_recipient)
    | some queued ↦ length queued < q.max_per_recipient
  ]

  -- An envelope is accepted exactly when there is room: below the bound per recipient where the
  -- recipient has a queue already, and otherwise below the bound on recipients, with a positive
  -- bound per recipient.
  pub enqueue-HasRoom :
      (q : OfflineQueue A) (recipient : Text) (envelope : A)
      → ((enqueue q recipient envelope).1 ≡ true) ↔ HasRoom q recipient
  unfolding enqueue HasRoom
  enqueue-HasRoom q recipient envelope = elim (Option-cases (lookup recipient q.queues)) [
    | inl e ↦ rw (e, HasRoom, enqueue) (ground arith)
    | inr (queued, e) ↦ rw (e, HasRoom, enqueue) (ground arith)
  ]

  -- Draining returns what waits for the recipient, leaves it nothing, and every other name what
  -- it had.
  pub drain-contents :
      (q : OfflineQueue A) (recipient other : Text)
      → ((drain q recipient).1 ≡ contents q recipient)
        × (contents (drain q recipient).0 other
            ≡ (if text_eq recipient other then [] else contents q other))
  unfolding contents drain
  drain-contents q recipient other =
      ground (arith, text_eq_iff recipient other, lookup-erase recipient other q.queues)

  pub count-contents : (q : OfflineQueue A) (r : Text) → count q r ≡ length (contents q r)
  unfolding count contents
  count-contents q r = ground arith

  pub discard-contents :
      (q : OfflineQueue A) (recipient other : Text)
      → contents (discard q recipient) other
        ≡ (if text_eq recipient other then [] else contents q other)
  unfolding contents discard
  discard-contents q recipient other =
      ground (arith, text_eq_iff recipient other, lookup-erase recipient other q.queues)

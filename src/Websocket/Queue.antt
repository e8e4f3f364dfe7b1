-- ===== src/Websocket/Queue.antt =====
-- server/app/websocket/queue.py: `OfflineQueue`. It never looks into an envelope, so the type of
-- envelopes is a parameter.
pub mod Contents
pub mod Bounds
use encrypt_chat_app.Base.{
  Bool, Dict, List, Text, [], erase, false, if◌then◌else◌, insert, leb, length, lookup, none, some,
  true, ℕ, ◌++◌, ◌+◌, ◌∷◌,
}

pub record OfflineQueue (A : Type 0) : Type 0 where
  pub max_per_recipient : ℕ
  pub max_recipients : ℕ
  pub queues : Dict (List A)

-- `sum(len(queued) for queued in queues.values())`
abbrev pub sum_lengths : {A : Type 0} → Dict (List A) → ℕ
sum_lengths [] = 0
sum_lengths ((k, queued) ∷ d) = length queued + sum_lengths d

module _ {A : Type 0} where
  unfoldable pub init : ℕ → ℕ → OfflineQueue A
  init max_per_recipient max_recipients = record {
    max_per_recipient = max_per_recipient;
    max_recipients = max_recipients;
    queues = [];
  }

  -- The end of `enqueue`, with the recipient's deque at hand.
  abbrev pub append : OfflineQueue A → Text → List A → A → OfflineQueue A × Bool
  append q recipient queued envelope =
      if leb q.max_per_recipient (length queued)
      then (q, false)
      else (record q { queues = insert recipient (queued ++ envelope ∷ []) q.queues }, true)

  unfoldable pub enqueue : OfflineQueue A → Text → A → OfflineQueue A × Bool
  enqueue q recipient envelope = elim (lookup recipient q.queues) [
    | none ↦
        if leb q.max_recipients (length q.queues)
        then (q, false)
        else append (record q { queues = insert recipient [] q.queues }) recipient [] envelope
    | some queued ↦ append q recipient queued envelope
  ]

  unfoldable pub drain : OfflineQueue A → Text → OfflineQueue A × List A
  drain q recipient = elim (lookup recipient q.queues) [
    | none ↦ (q, [])
    | some queued ↦ (record q { queues = erase recipient q.queues }, queued)
  ]

  unfoldable pub count : OfflineQueue A → Text → ℕ
  count q recipient = elim (lookup recipient q.queues) [ none ↦ 0 | some queued ↦ length queued ]

  unfoldable pub discard : OfflineQueue A → Text → OfflineQueue A
  discard q recipient = record q { queues = erase recipient q.queues }

  unfoldable pub recipient_count : OfflineQueue A → ℕ
  recipient_count q = length q.queues

  unfoldable pub total_queued : OfflineQueue A → ℕ
  total_queued q = sum_lengths q.queues

  unfoldable pub clear : OfflineQueue A → OfflineQueue A
  clear q = record q { queues = [] }

-- ===== src/Websocket/Queue/Bounds.antt =====
-- The bounds of the offline queue.
use encrypt_chat_app.Base.{
  All, Bool-cases, Dict, List, Option-cases, Text, [], arith, erase, inl, inr, insert, leb,
  leb_false→lt, length, length-append, length-erase-le, length-insert_new, length-insert_old,
  lookup, lookup-insert, none, some, text_eq_refl, ℕ, ◌*◌, ◌++◌, ◌<◌, ◌∷◌, ◌≡◌, ◌≤◌,
}
use encrypt_chat_app.Websocket.Queue.{
  OfflineQueue, init, enqueue, drain, discard, total_queued, sum_lengths, append,
}

module _ {A : Type 0} where
  abbrev AtMost : ℕ → Dict (List A) → Type 0
  AtMost n = All (λ e. length e.1 ≤ n)

  AtMost-insert :
      (n : ℕ) (k : Text) (l : List A) (d : Dict (List A))
      → length l ≤ n
      → AtMost n d
      → AtMost n (insert k l d)
  unfolding insert
  AtMost-insert n k l [] h b = (h, tt)
  AtMost-insert n k l ((j, w) ∷ d) h b = ground (arith, AtMost-insert n k l d h b.1)

  AtMost-erase : (n : ℕ) (k : Text) (d : Dict (List A)) → AtMost n d → AtMost n (erase k d)
  unfolding erase
  AtMost-erase n k [] b = tt
  AtMost-erase n k ((j, w) ∷ d) b = ground (arith, AtMost-erase n k d b.1)

  sum_lengths-le : (n : ℕ) (d : Dict (List A)) → AtMost n d → sum_lengths d ≤ n * length d
  sum_lengths-le n [] b = omega arith
  sum_lengths-le n ((k, l) ∷ d) b = grind (arith, sum_lengths-le n d b.1)

-- No recipient has more than its share, and no more recipients have a queue than allowed.
pub record IsBounded {A : Type 0} (q : OfflineQueue A) : Type 0 where
  pub per_recipient : AtMost q.max_per_recipient q.queues
  pub recipients : length q.queues ≤ q.max_recipients

module _ {A : Type 0} where
  pub init-IsBounded : (n m : ℕ) → IsBounded (init {A = A} n m)
  unfolding init
  init-IsBounded n m = record { per_recipient = tt; recipients = omega arith }

  pub append-IsBounded :
      (q : OfflineQueue A) (r : Text) (queued : List A) (e : A)
      → lookup r q.queues ≡ some queued
      → IsBounded q
      → IsBounded (append q r queued e).0
  append-IsBounded q r queued e h b = ground (
    arith,
    length-append queued (e ∷ []),
    length-insert_old r (queued ++ e ∷ []) queued q.queues h,
    AtMost-insert q.max_per_recipient r (queued ++ e ∷ []) q.queues,
  )

  pub opened-IsBounded :
      (q : OfflineQueue A) (r : Text)
      → lookup r q.queues ≡ none
      → length q.queues < q.max_recipients
      → IsBounded q
      → IsBounded (record q { queues = insert r [] q.queues })
  opened-IsBounded q r h lt b = record {
    per_recipient = AtMost-insert _ r [] q.queues (omega arith) b.per_recipient;
    recipients = omega (arith, length-insert_new r [] q.queues h);
  }

  found_inserted : (q : OfflineQueue A) (r : Text) → lookup r (insert r [] q.queues) ≡ some []
  found_inserted q r = rw (lookup-insert, text_eq_refl)

  -- Queueing keeps both bounds, also when it opens a queue for a new recipient.
  pub enqueue-IsBounded :
      (q : OfflineQueue A) (r : Text) (e : A) → IsBounded q → IsBounded (enqueue q r e).0
  unfolding enqueue
  enqueue-IsBounded q r e b = elim (Option-cases (lookup r q.queues)) [
    | inr (queued, found) ↦ rw (found, enqueue) (append-IsBounded q r queued e found b)
    | inl missing ↦
        rw (missing, enqueue)
          (elim (Bool-cases (leb q.max_recipients (length q.queues))) [
            | inl full ↦ rw full b
            | inr fits ↦ rw fits (
                append-IsBounded (record q { queues = insert r [] q.queues }) r [] e
                  (found_inserted q r) (opened-IsBounded q r missing (leb_false→lt _ _ fits) b))
          ])
  ]

  pub drain-IsBounded : (q : OfflineQueue A) (r : Text) → IsBounded q → IsBounded (drain q r).0
  unfolding drain
  drain-IsBounded q r b =
      ground (arith, AtMost-erase q.max_per_recipient r q.queues, length-erase-le r q.queues)

  pub discard-IsBounded : (q : OfflineQueue A) (r : Text) → IsBounded q → IsBounded (discard q r)
  unfolding discard
  discard-IsBounded q r b =
      ground (arith, AtMost-erase q.max_per_recipient r q.queues, length-erase-le r q.queues)

  -- So the memory of the queue is bounded by the two limits.
  pub total_queued-le :
      (q : OfflineQueue A) → IsBounded q → total_queued q ≤ q.max_per_recipient * q.max_recipients
  unfolding total_queued
  total_queued-le q b = grind (arith, sum_lengths-le q.max_per_recipient q.queues b.per_recipient)

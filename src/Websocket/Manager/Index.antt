-- ===== src/Websocket/Manager/Index.antt =====
-- The index by routing identity: which ids stand under a key after an add or a discard.
use encrypt_chat_app.Base.{
  Dict, Distinct, List, Option-cases, Text, [], add, add-Distinct, arith, contains, contains-add,
  contains-discard, discard, discard-Distinct, false, if◌then◌else◌, inl, inr, lookup, lookup-erase,
  lookup-insert, not, some, text_eq, text_eq_iff, true, ℕ, ◌&&◌, ◌==◌, ◌||◌, ◌∷◌, ◌≡◌, ◌≢◌,
}
use encrypt_chat_app.Websocket.Manager.{ids_of, index_add, index_discard, put_back}

-- No key has an empty set, and no set has an id twice.
pub record IsTidy (by_client : Dict (List ℕ)) : Type 0 where
  pub nonempty : (key : Text) → lookup key by_client ≢ some []
  pub distinct : (key : Text) → Distinct (ids_of key by_client)

pub ids_of-index_add :
    (key other : Text) (id : ℕ) (d : Dict (List ℕ))
    → ids_of other (index_add key id d)
      ≡ (if text_eq key other then add id (ids_of key d) else ids_of other d)
unfolding ids_of index_add
ids_of-index_add key other id d = ground (arith, lookup-insert key other (add id (ids_of key d)) d)

pub ids_of-put_back :
    (key other : Text) (ids : List ℕ) (d : Dict (List ℕ))
    → ids_of other (put_back key ids d) ≡ (if text_eq key other then ids else ids_of other d)
unfolding ids_of
ids_of-put_back key other [] d = ground (arith, lookup-erase key other d)
ids_of-put_back key other (id ∷ ids) d = ground (arith, lookup-insert key other (id ∷ ids) d)

pub ids_of-index_discard :
    (key other : Text) (id : ℕ) (d : Dict (List ℕ))
    → ids_of other (index_discard key id d)
      ≡ (if text_eq key other then discard id (ids_of key d) else ids_of other d)
unfolding index_discard ids_of discard
ids_of-index_discard key other id d = elim (Option-cases (lookup key d)) [
  | inl e ↦ rw (e, index_discard) (ground (arith, text_eq_iff key other))
  | inr (ids, e) ↦
      rw (e, index_discard) (ground (arith, ids_of-put_back key other (discard id ids) d))
]

pub contains-index_add :
    (key other : Text) (id i : ℕ) (d : Dict (List ℕ))
    → contains i (ids_of other (index_add key id d))
      ≡ ((text_eq key other && i == id) || contains i (ids_of other d))
contains-index_add key other id i d = ground (
  arith,
  ids_of-index_add key other id d,
  contains-add i id (ids_of key d),
  text_eq_iff key other,
)

pub contains-index_discard :
    (key other : Text) (id i : ℕ) (d : Dict (List ℕ))
    → contains i (ids_of other (index_discard key id d))
      ≡ (not (text_eq key other && i == id) && contains i (ids_of other d))
contains-index_discard key other id i d = ground (
  arith,
  ids_of-index_discard key other id d,
  contains-discard i id (ids_of key d),
  text_eq_iff key other,
)

add-nonempty : (id : ℕ) (ids : List ℕ) → add id ids ≢ []
unfolding add
add-nonempty id [] e = ground arith
add-nonempty id (i ∷ ids) e = ground arith

pub index_add-IsTidy :
    (key : Text) (id : ℕ) (d : Dict (List ℕ)) → IsTidy d → IsTidy (index_add key id d)
index_add-IsTidy key id d t = record {
  nonempty = λ other e.
      unfold index_add in
      ground (
        arith,
        t.nonempty other,
        lookup-insert key other (add id (ids_of key d)) d,
        add-nonempty id (ids_of key d),
      );
  distinct = λ other.
      rw ids_of-index_add
        (elim (text_eq key other)
          as (λ b. Distinct (if b then add id (ids_of key d) else ids_of other d)) [
            | true ↦ add-Distinct id _ (t.distinct key)
            | false ↦ t.distinct other
          ]);
}

lookup-put_back_ne :
    (key other : Text) (ids : List ℕ) (d : Dict (List ℕ))
    → lookup other d ≢ some []
    → lookup other (put_back key ids d) ≢ some []
lookup-put_back_ne key other [] d h = ground (arith, lookup-erase key other d)
lookup-put_back_ne key other (i ∷ ids) d h = ground (arith, lookup-insert key other (i ∷ ids) d)

pub index_discard-IsTidy :
    (key : Text) (id : ℕ) (d : Dict (List ℕ)) → IsTidy d → IsTidy (index_discard key id d)
index_discard-IsTidy key id d t = record {
  nonempty = λ other.
      unfold index_discard in
      elim (Option-cases (lookup key d)) [
        | inl e ↦ rw (e, index_discard) (t.nonempty other)
        | inr (ids, e) ↦
            rw (e, index_discard)
              (lookup-put_back_ne key other (discard id ids) d (t.nonempty other))
      ];
  distinct = λ other.
      rw ids_of-index_discard
        (elim (text_eq key other)
          as (λ b. Distinct (if b then discard id (ids_of key d) else ids_of other d)) [
            | true ↦ discard-Distinct id _ (t.distinct key)
            | false ↦ t.distinct other
          ]);
}

-- ===== src/Websocket/Manager/Registry.antt =====
-- The registry's invariant, and that every operation of `ConnectionManager` keeps it.
use encrypt_chat_app.Base.{
  Bool-cases, Distinct, Option, Text, add-Distinct, arith, contains, contains-add, contains-discard,
  discard-Distinct, false, if◌then◌else◌, inl, inr, leb, leb_false→lt, length, length-add-le,
  length-discard-le, lookup, refl, text_eq, true, ℕ, ◌&&◌, ◌<◌, ◌≡◌, ◌≤◌,
}
use encrypt_chat_app.Websocket.Context.{routing_identity, authenticate, mark_closing}
use encrypt_chat_app.Websocket.Limits.{TransportLimits}
use encrypt_chat_app.Websocket.Manager.{
  ConnectionManager, Heap, Registration, registered, refused, per_client_limit, admit, init, ids_of,
  index_discard, new_context, register, bind_identity, unregister, reset,
}
use encrypt_chat_app.Websocket.Manager.Index.{
  IsTidy, contains-index_add, contains-index_discard, index_add-IsTidy, index_discard-IsTidy,
}

-- An id stands under a key of the index exactly when it is registered and its context's routing
-- identity is that key; there are no empty sets, no duplicates, and no more connections than allowed.
pub record IsRegistry (m : ConnectionManager) : Type 0 where
  pub tidy : IsTidy m.by_client
  pub distinct : Distinct m.connections
  pub bounded : length m.connections ≤ m.limits.max_total_connections
  pub indexed :
      (key : Text) (id : ℕ)
      → contains id (ids_of key m.by_client)
        ≡ (contains id m.connections && text_eq (routing_identity (m.heap id)) key)

pub init-IsRegistry : (limits : TransportLimits) → IsRegistry (init limits)
unfolding init ids_of lookup contains
init-IsRegistry limits = record {
  tidy = record { nonempty = λ key e. cc; distinct = λ key. tt };
  distinct = tt;
  bounded = omega arith;
  indexed = λ key id. refl;
}

abbrev pub Holds : (ConnectionManager → Type 0) → Registration → Type 0
Holds P (registered m) = P m
Holds P (refused reason) = Unit

pub admit-IsRegistry :
    (m : ConnectionManager) (id : ℕ) (client : Text) (host : Option Text) (now at : ℕ)
    → contains id m.connections ≡ false
    → length m.connections < m.limits.max_total_connections
    → IsRegistry m
    → IsRegistry (admit m id client host now at)
unfolding new_context
admit-IsRegistry m id client host now at fresh room v = record {
  tidy = index_add-IsTidy client id m.by_client v.tidy;
  distinct = add-Distinct id m.connections v.distinct;
  bounded = omega (arith, length-add-le id m.connections);
  indexed = λ key i. ground (
    arith,
    contains-index_add client key id i m.by_client,
    contains-add i id m.connections,
    v.indexed key i,
  );
}

-- Registering a connection under a fresh id keeps the registry well-formed, when it succeeds.
pub register-IsRegistry :
    (m : ConnectionManager) (id : ℕ) (client : Text) (host : Option Text) (now at : ℕ)
    → contains id m.connections ≡ false
    → IsRegistry m
    → Holds IsRegistry (register m id client host now at)
unfolding register
register-IsRegistry m id client host now at fresh v =
    elim (Bool-cases (leb m.limits.max_total_connections (length m.connections))) [
      | inl full ↦ rw full tt
      | inr room ↦
          rw room
            (elim (leb m.limits.max_connections_per_client (length (ids_of client m.by_client)))
              as (λ b. Holds IsRegistry (
                if b
                then refused per_client_limit
                else registered (admit m id client host now at))) [
                  | true ↦ tt
                  | false ↦ admit-IsRegistry m id client host now at fresh (leb_false→lt _ _ room) v
                ])
    ]

-- Binding a registered connection to an account keeps the registry well-formed: the connection
-- leaves its former key of the index and stands under its new one.
pub bind_identity-IsRegistry :
    (m : ConnectionManager) (id : ℕ) (user username session : Text)
    → contains id m.connections ≡ true
    → IsRegistry m
    → IsRegistry (bind_identity m id user username session)
unfolding bind_identity authenticate
bind_identity-IsRegistry m id user username session live v = record {
  tidy = index_add-IsTidy username id _ (index_discard-IsTidy _ id m.by_client v.tidy);
  distinct = v.distinct;
  bounded = v.bounded;
  indexed = λ key i. ground (
    arith,
    contains-index_add username key id i
        (index_discard (routing_identity (m.heap id)) id m.by_client),
    contains-index_discard (routing_identity (m.heap id)) key id i m.by_client,
    v.indexed key i,
  );
}

-- Unregistering keeps the registry well-formed, whether the connection was registered or not.
pub unregister-IsRegistry :
    (m : ConnectionManager) (id : ℕ) → IsRegistry m → IsRegistry (unregister m id).0
unfolding unregister mark_closing
unregister-IsRegistry m id v = elim (Bool-cases (contains id m.connections)) [
  | inr gone ↦ rw gone v
  | inl live ↦ rw live (record {
    tidy = index_discard-IsTidy _ id m.by_client v.tidy;
    distinct = discard-Distinct id m.connections v.distinct;
    bounded = omega (arith, length-discard-le id m.connections, v.bounded);
    indexed = λ key i. ground (
      arith,
      contains-index_discard (routing_identity (m.heap id)) key id i m.by_client,
      contains-discard i id m.connections,
      v.indexed key i,
    );
  })
]

pub reset-IsRegistry : (m : ConnectionManager) → IsRegistry (reset m)
unfolding reset ids_of lookup contains
reset-IsRegistry m = record {
  tidy = record { nonempty = λ key e. cc; distinct = λ key. tt };
  distinct = tt;
  bounded = omega arith;
  indexed = λ key id. refl;
}

-- A step that keeps the registered ids, the index and every routing identity.
pub keep-IsRegistry :
    (m : ConnectionManager) (heap : Heap)
    → ((i : ℕ) → routing_identity (heap i) ≡ routing_identity (m.heap i))
    → IsRegistry m
    → IsRegistry (record m { heap = heap })
keep-IsRegistry m heap same v = record {
  tidy = v.tidy;
  distinct = v.distinct;
  bounded = v.bounded;
  indexed = λ key i. rw same (v.indexed key i);
}

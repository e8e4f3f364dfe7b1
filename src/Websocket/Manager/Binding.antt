-- ===== src/Websocket/Manager/Binding.antt =====
-- `bind_identity` against the limit of connections per client.
use encrypt_chat_app.Base.{
  Text, arith, contains, false, length, length-add_new, text_eq_iff, text_eq_refl, ℕ, ◌+◌, ◌≡◌, ◌≢◌,
}
use encrypt_chat_app.Websocket.Manager.{ids_of, bind_identity, ConnectionManager, index_discard}
use encrypt_chat_app.Websocket.Context.{routing_identity}
use encrypt_chat_app.Websocket.Manager.Index.{ids_of-index_add, ids_of-index_discard}

-- For a connection that moves to another name than its own, under which it does not stand yet,
-- `bind_identity` gives that name exactly one connection more, whatever
-- `max_connections_per_client` is.
pub bind_identity-unlimited :
    (m : ConnectionManager) (id : ℕ) (user username session : Text)
    → routing_identity (m.heap id) ≢ username
    → contains id (ids_of username m.by_client) ≡ false
    → length (ids_of username (bind_identity m id user username session).by_client)
      ≡ length (ids_of username m.by_client) + 1
unfolding bind_identity
bind_identity-unlimited m id user username session other new = ground (
  arith,
  ids_of-index_add username username id
      (index_discard (routing_identity (m.heap id)) id m.by_client),
  ids_of-index_discard (routing_identity (m.heap id)) username id m.by_client,
  text_eq_refl username,
  text_eq_iff (routing_identity (m.heap id)) username,
  length-add_new id (ids_of username m.by_client) new,
)

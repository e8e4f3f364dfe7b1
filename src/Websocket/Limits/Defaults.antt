-- ===== src/Websocket/Limits/Defaults.antt =====
-- What the limits read from the environment guarantee, whatever the environment holds.
use encrypt_chat_app.Base.{
  Bool, Bool-cases, List, Option-cases, Text, [], any, arith, codes, false, filter, inl, inr, map,
  refl, some, text_eq, ℕ, ◌<◌, ◌∷◌, ◌≡◌,
}
use encrypt_chat_app.Environ.{Environ, is_empty}
use encrypt_chat_app.Websocket.Limits.{
  TransportLimits, is_origin_allowed, is_usable_origin, default_origins, or_default, int_env,
  float_env, origins_env, default_limits, split_comma,
}

-- Every bound is positive.
pub record IsPositive (limits : TransportLimits) : Type 0 where
  pub message_bytes : 0 < limits.max_message_bytes
  pub total_connections : 0 < limits.max_total_connections
  pub connections_per_client : 0 < limits.max_connections_per_client
  pub messages_per_window : 0 < limits.max_messages_per_window
  pub rate_limit_window : 0 < limits.rate_limit_window_seconds
  pub pending_outbound : 0 < limits.max_pending_outbound
  pub queued_per_recipient : 0 < limits.max_queued_per_recipient
  pub queued_recipients : 0 < limits.max_queued_recipients
  pub idle_timeout : 0 < limits.idle_timeout_seconds
  pub heartbeat_interval : 0 < limits.heartbeat_interval_seconds
  pub unauthenticated_timeout : 0 < limits.unauthenticated_timeout_seconds

int_env-pos :
    (env : Environ) (name : Text) (default : ℕ) → 0 < default → 0 < int_env env name default
unfolding int_env
int_env-pos env name default h = ground arith

float_env-pos :
    (env : Environ) (name : Text) (default : ℕ) → 0 < default → 0 < float_env env name default
unfolding float_env
float_env-pos env name default h = ground arith

-- Every numeric limit read from the environment is positive, whatever the environment holds.
pub default_limits-IsPositive : (env : Environ) → IsPositive (default_limits env)
unfolding default_limits
default_limits-IsPositive env = record {
  message_bytes = int_env-pos env _ _ (omega arith);
  total_connections = int_env-pos env _ _ (omega arith);
  connections_per_client = int_env-pos env _ _ (omega arith);
  messages_per_window = int_env-pos env _ _ (omega arith);
  rate_limit_window = float_env-pos env _ _ (omega arith);
  pending_outbound = int_env-pos env _ _ (omega arith);
  queued_per_recipient = int_env-pos env _ _ (omega arith);
  queued_recipients = int_env-pos env _ _ (omega arith);
  idle_timeout = float_env-pos env _ _ (omega arith);
  heartbeat_interval = float_env-pos env _ _ (omega arith);
  unauthenticated_timeout = float_env-pos env _ _ (omega arith);
}

abbrev wildcard : Text
wildcard = codes "*"

abbrev has_wildcard : List Text → Bool
has_wildcard = any (λ origin. text_eq origin wildcard)

filter-wildcard :
    (env : Environ) (l : List Text) → has_wildcard (filter (is_usable_origin env) l) ≡ false
filter-wildcard env [] = refl
filter-wildcard env (item ∷ l) = ground (arith, filter-wildcard env l)

abbrev usable_items : Environ → Text → List Text
usable_items env raw = filter (is_usable_origin env) (map env.strip (split_comma raw))

or_default-wildcard :
    (l : List Text) → has_wildcard l ≡ false → has_wildcard (or_default default_origins l) ≡ false
unfolding text_eq
or_default-wildcard [] h = refl
or_default-wildcard (item ∷ l) h = h

origins_env-wildcard :
    (env : Environ) (name : Text) → has_wildcard (origins_env env name default_origins) ≡ false
unfolding origins_env text_eq
origins_env-wildcard env name = elim (Option-cases (env.get name)) [
  | inl e ↦ rw (e, origins_env)
  | inr (raw, e) ↦
      rw (e, origins_env)
        (elim (Bool-cases (is_empty (env.strip raw))) [
          | inl blank ↦ rw blank
          | inr set ↦ rw set (
              or_default-wildcard (usable_items env raw)
                (filter-wildcard env (map env.strip (split_comma raw))))
        ])
]

-- Whatever the environment holds, the origin `*` is not allowed.
pub wildcard-refused :
    (env : Environ) → is_origin_allowed (default_limits env) (some wildcard) ≡ false
unfolding is_origin_allowed default_limits
wildcard-refused env = origins_env-wildcard env _

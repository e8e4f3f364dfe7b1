-- ===== src/Websocket/Limits.antt =====
-- server/app/websocket/limits.py: `TransportLimits`, the Origin policy, and the bounds read from the
-- environment. Durations are numbers of ticks, `second` to the second.
pub mod Defaults
use encrypt_chat_app.Base.{
  Bool, List, Option, Text, [], any, codes, filter, if◌then◌else◌, ltb, map, none, not, some,
  text_eq, true, ℕ, ◌&&◌, ◌*◌, ◌==◌, ◌∷◌,
}
use encrypt_chat_app.Environ.{Environ, ℤ, pos, negsuc, is_empty}

-- Ticks of the clock in a second: a parameter of every duration below.
abbrev pub second : ℕ
second = 1000

abbrev pub default_origins : List Text
default_origins = codes "http://localhost:5173" ∷ codes "http://127.0.0.1:5173" ∷ []

pub record TransportLimits : Type 0 where
  pub max_message_bytes : ℕ
  pub max_identifier_length : ℕ
  pub max_total_connections : ℕ
  pub max_connections_per_client : ℕ
  pub max_messages_per_window : ℕ
  pub rate_limit_window_seconds : ℕ
  pub max_pending_outbound : ℕ
  pub max_queued_per_recipient : ℕ
  pub max_queued_recipients : ℕ
  pub idle_timeout_seconds : ℕ
  pub heartbeat_interval_seconds : ℕ
  pub unauthenticated_timeout_seconds : ℕ
  pub allowed_origins : List Text
  pub allow_missing_origin : Bool

-- `TransportLimits()`
abbrev pub class_defaults : TransportLimits
class_defaults = record {
  max_message_bytes = 64 * 1024;
  max_identifier_length = 64;
  max_total_connections = 500;
  max_connections_per_client = 3;
  max_messages_per_window = 30;
  rate_limit_window_seconds = 1 * second;
  max_pending_outbound = 100;
  max_queued_per_recipient = 50;
  max_queued_recipients = 500;
  idle_timeout_seconds = 60 * second;
  heartbeat_interval_seconds = 20 * second;
  unauthenticated_timeout_seconds = 15 * second;
  allowed_origins = default_origins;
  allow_missing_origin = true;
}

unfoldable pub is_origin_allowed : TransportLimits → Option Text → Bool
is_origin_allowed limits none = limits.allow_missing_origin
is_origin_allowed limits (some origin) =
    any (λ allowed. text_eq allowed origin) limits.allowed_origins

-- `value if value > 0 else default`, and the default for a `ValueError`.
abbrev pub positive_or : ℕ → Option ℤ → ℕ
positive_or default none = default
positive_or default (some (pos n)) = if ltb 0 n then n else default
positive_or default (some (negsuc n)) = default

-- `raw.split(",")`
pub split_comma : Text → List Text
split_comma [] = [] ∷ []
split_comma (c ∷ s) = elim (split_comma s) [
  | [] ↦ (c ∷ []) ∷ []
  | item ∷ items ↦ if c == b',' then [] ∷ item ∷ items else (c ∷ item) ∷ items
]

abbrev or_default : List Text → List Text → List Text
or_default default [] = default
or_default default (item ∷ items) = item ∷ items

module _ (env : Environ) where
  unfoldable pub int_env : Text → ℕ → ℕ
  int_env name default = elim (env.get name) [
    | none ↦ default
    | some raw ↦ if is_empty (env.strip raw) then default else positive_or default (env.int raw)
  ]

  unfoldable pub float_env : Text → ℕ → ℕ
  float_env name default = elim (env.get name) [
    | none ↦ default
    | some raw ↦ if is_empty (env.strip raw) then default else positive_or default (env.float raw)
  ]

  -- The `if` of the comprehension, on the stripped item.
  abbrev is_usable_origin : Text → Bool
  is_usable_origin item = not (is_empty item) && not (text_eq item (codes "*"))

  unfoldable pub origins_env : Text → List Text → List Text
  unfolding split_comma
  origins_env name default = elim (env.get name) [
    | none ↦ default
    | some raw ↦
        if is_empty (env.strip raw)
        then default
        else or_default default (filter is_usable_origin (map env.strip (split_comma raw)))
  ]

  unfoldable pub default_limits : TransportLimits
  unfolding int_env float_env
  default_limits = record {
    max_message_bytes = int_env (codes "WS_MAX_MESSAGE_BYTES") (64 * 1024);
    max_identifier_length = int_env (codes "WS_MAX_IDENTIFIER_LENGTH") 64;
    max_total_connections = int_env (codes "WS_MAX_TOTAL_CONNECTIONS") 500;
    max_connections_per_client = int_env (codes "WS_MAX_CONNECTIONS_PER_CLIENT") 3;
    max_messages_per_window = int_env (codes "WS_MAX_MESSAGES_PER_WINDOW") 30;
    rate_limit_window_seconds = float_env (codes "WS_RATE_LIMIT_WINDOW_SECONDS") (1 * second);
    max_pending_outbound = int_env (codes "WS_MAX_PENDING_OUTBOUND") 100;
    max_queued_per_recipient = int_env (codes "WS_MAX_QUEUED_PER_RECIPIENT") 50;
    max_queued_recipients = int_env (codes "WS_MAX_QUEUED_RECIPIENTS") 500;
    idle_timeout_seconds = float_env (codes "WS_IDLE_TIMEOUT_SECONDS") (60 * second);
    unauthenticated_timeout_seconds =
        float_env (codes "WS_UNAUTHENTICATED_TIMEOUT_SECONDS") (15 * second);
    heartbeat_interval_seconds = float_env (codes "WS_HEARTBEAT_INTERVAL_SECONDS") (20 * second);
    allowed_origins = origins_env (codes "WS_ALLOWED_ORIGINS") default_origins;
    allow_missing_origin = true;
  }

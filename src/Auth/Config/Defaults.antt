-- ===== src/Auth/Config/Defaults.antt =====
-- What the configuration guarantees, whatever the environment holds.
use encrypt_chat_app.Base.{Text, arith, codes, ℕ, ◌≤◌}
use encrypt_chat_app.Environ.{Environ}
use encrypt_chat_app.Auth.Config.{AuthConfig, bounded_int_env, default_auth_config}

-- Lifetimes, windows and costs are positive, at least one failed login is allowed, and no password
-- under 8 bytes is.
pub record IsSane (c : AuthConfig) : Type 0 where
  pub access_ttl : 1 ≤ c.access_token_ttl_minutes
  pub refresh_ttl : 1 ≤ c.refresh_session_ttl_days
  pub password : 8 ≤ c.min_password_length
  pub failures : 1 ≤ c.max_failed_logins_per_account
  pub window : 1 ≤ c.failed_login_window_seconds
  pub time_cost : 1 ≤ c.argon2_time_cost
  pub memory_cost : 1 ≤ c.argon2_memory_cost_kib
  pub parallelism : 1 ≤ c.argon2_parallelism

bounded_int_env-le :
    (env : Environ) (name : Text) (default minimum : ℕ)
    → minimum ≤ default
    → minimum ≤ bounded_int_env env name default minimum
unfolding bounded_int_env
bounded_int_env-le env name default minimum h = ground arith

-- Whatever the environment holds, the configuration has positive lifetimes, windows and Argon2 costs,
-- allows at least one failed login, and asks passwords of at least 8 bytes.
pub default_auth_config-IsSane :
    (env : Environ) (ephemeral : Text) → IsSane (default_auth_config env ephemeral)
unfolding default_auth_config
default_auth_config-IsSane env ephemeral = record {
  access_ttl = bounded_int_env-le env _ _ _ (omega arith);
  refresh_ttl = bounded_int_env-le env _ _ _ (omega arith);
  password = bounded_int_env-le env _ _ _ (omega arith);
  failures = bounded_int_env-le env _ _ _ (omega arith);
  window = omega (
    arith,
    bounded_int_env-le env (codes "AUTH_FAILED_LOGIN_WINDOW_SECONDS") 300 1 (omega arith),
  );
  time_cost = bounded_int_env-le env _ _ _ (omega arith);
  memory_cost = bounded_int_env-le env _ _ _ (omega arith);
  parallelism = bounded_int_env-le env _ _ _ (omega arith);
}

-- ===== src/Auth/Config.antt =====
-- server/app/auth/config.py: `AuthConfig` and how it is read from the environment.
pub mod Defaults
use encrypt_chat_app.Base.{Option, Text, codes, if◌then◌else◌, leb, none, some, ℕ, ◌*◌}
use encrypt_chat_app.Websocket.Limits.{second}
use encrypt_chat_app.Environ.{Environ, ℤ, pos, negsuc, is_empty}

pub record AuthConfig : Type 0 where
  pub signing_secret : Text
  pub algorithm : Text
  pub issuer : Text
  pub audience : Text
  pub access_token_ttl_minutes : ℕ
  pub refresh_session_ttl_days : ℕ
  pub min_password_length : ℕ
  pub max_password_length : ℕ
  pub min_username_length : ℕ
  pub max_username_length : ℕ
  pub max_failed_logins_per_account : ℕ
  pub failed_login_window_seconds : ℕ
  pub argon2_time_cost : ℕ
  pub argon2_memory_cost_kib : ℕ
  pub argon2_parallelism : ℕ

-- `AuthConfig(signing_secret=secret)`
abbrev pub class_defaults : Text → AuthConfig
class_defaults secret = record {
  signing_secret = secret;
  algorithm = codes "HS256";
  issuer = codes "encrypted-chat-app";
  audience = codes "encrypted-chat-app-client";
  access_token_ttl_minutes = 15;
  refresh_session_ttl_days = 14;
  min_password_length = 12;
  max_password_length = 1024;
  min_username_length = 3;
  max_username_length = 32;
  max_failed_logins_per_account = 10;
  failed_login_window_seconds = 300 * second;
  argon2_time_cost = 3;
  argon2_memory_cost_kib = 65536;
  argon2_parallelism = 4;
}

-- `value if value >= minimum else default`, and the default for a `ValueError`.
abbrev pub at_least : ℕ → ℕ → Option ℤ → ℕ
at_least minimum default none = default
at_least minimum default (some (pos n)) = if leb minimum n then n else default
at_least minimum default (some (negsuc n)) = default

module _ (env : Environ) where
  unfoldable pub bounded_int_env : Text → ℕ → ℕ → ℕ
  bounded_int_env name default minimum = elim (env.get name) [
    | none ↦ default
    | some raw ↦
        if is_empty (env.strip raw) then default else at_least minimum default (env.int raw)
  ]

  abbrev or_blank : Option Text → Text
  or_blank none = codes ""
  or_blank (some raw) = raw

  -- The `ephemeral` secret is what `secrets.token_urlsafe(64)` draws.
  unfoldable pub load_signing_secret : Text → Text
  load_signing_secret ephemeral =
      let configured = env.strip (or_blank (env.get (codes "AUTH_SIGNING_SECRET"))) in
      if is_empty configured then ephemeral else configured

  unfoldable pub default_auth_config : Text → AuthConfig
  unfolding bounded_int_env load_signing_secret
  default_auth_config ephemeral = record (class_defaults (load_signing_secret ephemeral)) {
    access_token_ttl_minutes = bounded_int_env (codes "ACCESS_TOKEN_TTL_MINUTES") 15 1;
    refresh_session_ttl_days = bounded_int_env (codes "REFRESH_SESSION_TTL_DAYS") 14 1;
    min_password_length = bounded_int_env (codes "AUTH_MIN_PASSWORD_LENGTH") 12 8;
    max_failed_logins_per_account = bounded_int_env (codes "AUTH_MAX_FAILED_LOGINS") 10 1;
    failed_login_window_seconds =
        bounded_int_env (codes "AUTH_FAILED_LOGIN_WINDOW_SECONDS") 300 1 * second;
    argon2_time_cost = bounded_int_env (codes "ARGON2_TIME_COST") 3 1;
    argon2_memory_cost_kib = bounded_int_env (codes "ARGON2_MEMORY_COST_KIB") 65536 1;
    argon2_parallelism = bounded_int_env (codes "ARGON2_PARALLELISM") 4 1;
  }

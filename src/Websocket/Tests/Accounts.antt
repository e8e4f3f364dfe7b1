-- ===== src/Websocket/Tests/Accounts.antt =====
-- The session of the examples over accounts in memory.
use encrypt_chat_app.Base.{[], codes, false, lookup, none, refl, some, text_eq, ◌*◌, ◌∷◌, ◌≡◌, ◌⊎◌}
use encrypt_chat_app.Websocket.Limits.{class_defaults, second}
use encrypt_chat_app.Websocket.Server.Accounts.{
  Together, begins, serves, operates, IsAccount, reached-IsAccount,
}
use encrypt_chat_app.Websocket.Tests.{
  alice, sample_token, sample_parsers, known, arriving, connected, asked, sample_envelope,
  registered_manager,
}
use encrypt_chat_app.Websocket.Tests.Session.{opened_sample, asked_sample}
use encrypt_chat_app.Websocket.Server.{connects, accepts, receives, resolves}
use encrypt_chat_app.Websocket.Lifecycle.{greet}
use encrypt_chat_app.Websocket.Manager
use encrypt_chat_app.Auth.Service.Revocation.{perform, logs_out}
use encrypt_chat_app.Auth.Config.{AuthConfig}
use encrypt_chat_app.Auth.Config
use encrypt_chat_app.Auth.Errors.{returned}
use encrypt_chat_app.Auth.Models.{aware}
use encrypt_chat_app.Auth.Tokens.{Jwt, payload, access_claims, decode_access_token, check_claims}
use encrypt_chat_app.Auth.Database.Memory.{Memory, memory}
use encrypt_chat_app.Auth.Database.Memory.Laws.{memory-IsDatabase}
use encrypt_chat_app.Auth.Service.{Libraries, resolve_access_token}

abbrev settings : AuthConfig
settings = Config.class_defaults (codes "secret")

-- The one token decodes to the claims of Alice's session.
abbrev one_token : Jwt
one_token = record {
  encode = λ claims secret algorithm. sample_token;
  decode = λ token secret algorithms issuer audience required at.
      payload (access_claims settings (codes "u1") (codes "s1") (codes "t1") second);
  int = λ s. none;
  sha256 = λ s. s;
}

abbrev one_account : Libraries
one_account = record {
  unicode = record { nfkc = λ s. s; strip = λ s. s; casefold = λ s. s };
  argon2 = record {
    hash = λ p salt password. password;
    verify = text_eq;
    check_needs_rehash = λ p h. some false;
  };
  jwt = one_token;
  print = λ n. n ∷ [];
}

abbrev alices : Memory
alices = record {
  users =
      (
        codes "u1",
        some (record {
          id = codes "u1";
          username = codes "alice";
          username_normalized = codes "alice";
          password_hash = codes "";
          status = codes "active";
          created_at = 0;
          updated_at = 0;
        }),
      )
      ∷ [];
  names = (codes "alice", codes "u1") ∷ [];
  sessions =
      (
        codes "s1",
        some (record {
          id = codes "s1";
          user_id = codes "u1";
          refresh_token_hash = codes "r";
          created_at = 0;
          expires_at = aware (9 * second);
          revoked_at = none;
        }),
      )
      ∷ [];
}

alice_resolves :
    resolve_access_token one_account memory settings alices sample_token second second
    ≡ returned alice
unfolding resolve_access_token decode_access_token check_claims lookup text_eq
alice_resolves = refl

-- Alice authenticates, and then logs out.
abbrev alice_out : Memory
alice_out = perform one_account memory settings alices (logs_out (codes "s1") (2 * second))

known_together :
    Together sample_parsers one_account memory settings class_defaults alices
      (alice_out ∷ alices ∷ [])
      known
unfolding greet Manager.init
known_together =
    let arrived : Together sample_parsers one_account memory settings class_defaults alices
        (alices ∷ []) arriving =
      serves begins
        (connects 1 (codes "f00") none none 0 0 registered_manager refl opened_sample refl) in
    let served : Together sample_parsers one_account memory settings class_defaults alices
        (alices ∷ []) connected =
      serves arrived (accepts 1 refl refl) in
    let asking : Together sample_parsers one_account memory settings class_defaults alices
        (alices ∷ []) asked =
      serves served (receives 1 (codes "auth.authenticate") 5 5 refl refl) in
    operates
      (serves asking (
        resolves 1 sample_envelope sample_token (some alice) asked_sample
          (second, second, alice_resolves) refl))
      (logs_out (codes "s1") (2 * second))

reached-IsAccount_example :
    ((known.manager.heap 1).authenticated ≡ false)
    ⊎ IsAccount sample_parsers one_account memory settings
        (alice_out ∷ alices ∷ [])
        (known.manager.heap 1)
reached-IsAccount_example =
    reached-IsAccount sample_parsers one_account memory settings class_defaults alices
      (alice_out ∷ alices ∷ []) known 1 memory-IsDatabase known_together

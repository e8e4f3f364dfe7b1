-- ===== src/Environ.antt =====
-- What the server takes from the process: the environment variables, `str.strip`, and the number
-- parsers `int` and `float` (none for a `ValueError`). A float is read in ticks.
use encrypt_chat_app.Base.{Bool, Option, Text, [], false, true, ℕ, ◌∷◌}

-- `negsuc n` is -(n + 1).
pub data ℤ : Type 0 where
  pos : ℕ → ℤ
  negsuc : ℕ → ℤ

pub record Environ : Type 0 where
  pub get : Text → Option Text
  pub strip : Text → Text
  pub int : Text → Option ℤ
  pub float : Text → Option ℤ

-- `not s`
abbrev pub is_empty : Text → Bool
is_empty [] = true
is_empty (c ∷ s) = false

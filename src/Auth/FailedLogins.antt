-- ===== src/Auth/FailedLogins.antt =====
-- server/app/auth/rate_limit.py: `FailedLoginTracker`. Times are ticks, and a difference of times is
-- compared with the subtraction moved across.
pub mod Windows
pub mod Expiry
pub mod History
mod Tests
use encrypt_chat_app.Base.{
  Bool, Dict, List, Text, [], erase, if◌then◌else◌, insert, leb, length, lookup, none, some, ℕ,
  ◌++◌, ◌+◌, ◌∷◌,
}

pub record FailedLoginTracker : Type 0 where
  pub max_failures : ℕ
  pub window_seconds : ℕ
  pub failures : Dict (List ℕ)

unfoldable pub init : ℕ → ℕ → FailedLoginTracker
init max_failures window_seconds = record {
  max_failures = max_failures;
  window_seconds = window_seconds;
  failures = [];
}

-- `window[0] <= now - self.window_seconds`
abbrev pub is_expired : ℕ → ℕ → ℕ → Bool
is_expired window_seconds now attempt = leb (attempt + window_seconds) now

-- The `while` loop of `_prune`.
unfoldable pub expire : ℕ → ℕ → List ℕ → List ℕ
expire window_seconds now [] = []
expire window_seconds now (attempt ∷ window) =
    let rest = expire window_seconds now window in
    if is_expired window_seconds now attempt then rest else attempt ∷ window

-- The end of `_prune`: the mutated deque stays in the dictionary unless it is empty.
abbrev pub keep : FailedLoginTracker → Text → Dict (List ℕ) → List ℕ → FailedLoginTracker × List ℕ
keep t identifier held [] = (record t { failures = erase identifier held }, [])
keep t identifier held (attempt ∷ window) =
    (record t { failures = insert identifier (attempt ∷ window) held }, attempt ∷ window)

unfoldable pub prune : FailedLoginTracker → Text → ℕ → FailedLoginTracker × List ℕ
prune t identifier now = elim (lookup identifier t.failures) [
  | none ↦ keep t identifier (insert identifier [] t.failures) (expire t.window_seconds now [])
  | some window ↦ keep t identifier t.failures (expire t.window_seconds now window)
]

unfoldable pub is_blocked : FailedLoginTracker → Text → ℕ → FailedLoginTracker × Bool
is_blocked t identifier now =
    let (t', window) = prune t identifier now in (t', leb t.max_failures (length window))

unfoldable pub record_failure : FailedLoginTracker → Text → ℕ → FailedLoginTracker × ℕ
record_failure t identifier now =
    let (t', window) = prune t identifier now in
    let attempts = window ++ now ∷ [] in
    (record t' { failures = insert identifier attempts t'.failures }, length attempts)

unfoldable pub reset : FailedLoginTracker → Text → FailedLoginTracker
reset t identifier = record t { failures = erase identifier t.failures }

unfoldable pub failure_count : FailedLoginTracker → Text → ℕ → FailedLoginTracker × ℕ
failure_count t identifier now = let (t', window) = prune t identifier now in (t', length window)

unfoldable pub tracked_identifiers : FailedLoginTracker → ℕ
tracked_identifiers t = length t.failures

unfoldable pub clear : FailedLoginTracker → FailedLoginTracker
clear t = record t { failures = [] }

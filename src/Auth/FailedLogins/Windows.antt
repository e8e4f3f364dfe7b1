-- ===== src/Auth/FailedLogins/Windows.antt =====
-- The windows that the tracker holds, and what each operation does to them.
use encrypt_chat_app.Base.{
  Bool, Dict, List, Option-cases, Text, [], arith, false, if◌then◌else◌, inl, inr, insert, lookup,
  lookup-erase, lookup-insert, none, refl, some, text_eq, true, ℕ, ◌++◌, ◌∙◌, ◌∷◌, ◌≡◌,
}
use encrypt_chat_app.Auth.FailedLogins.{
  FailedLoginTracker, expire, keep, prune, record_failure, reset,
}

unfoldable pub window_of : FailedLoginTracker → Text → List ℕ
window_of t identifier = elim (lookup identifier t.failures) [ none ↦ [] | some window ↦ window ]

keep-window_of :
    (t : FailedLoginTracker) (identifier other : Text) (held : Dict (List ℕ)) (window : List ℕ)
    → ((keep t identifier held window).1 ≡ window)
      × (window_of (keep t identifier held window).0 other ≡ (
          if text_eq identifier other
          then window
          else window_of (record t { failures = held }) other))
unfolding window_of
keep-window_of t identifier other held [] =
    (refl, ground (arith, lookup-erase identifier other held))
keep-window_of t identifier other held (attempt ∷ window) =
    (refl, ground (arith, lookup-insert identifier other (attempt ∷ window) held))

window_of_lem :
    (t : FailedLoginTracker) (identifier : Text) (window : List ℕ)
    → lookup identifier t.failures ≡ some window
    → window_of t identifier ≡ window
unfolding window_of
window_of_lem t identifier window found = ground arith

window_of_missing :
    (t : FailedLoginTracker) (identifier : Text)
    → lookup identifier t.failures ≡ none
    → window_of t identifier ≡ []
unfolding window_of
window_of_missing t identifier missing = ground arith

pub insert-window_of :
    (t : FailedLoginTracker) (identifier other : Text) (window : List ℕ)
    → window_of (record t { failures = insert identifier window t.failures }) other
      ≡ (if text_eq identifier other then window else window_of t other)
unfolding window_of
insert-window_of t identifier other window =
    ground (arith, lookup-insert identifier other window t.failures)

if-else-if {ℓ} :
    {A : Type ℓ} (b : Bool) (x y z : A)
    → (if b then x else if b then y else z) ≡ (if b then x else z)
if-else-if true x y z = refl
if-else-if false x y z = refl

pub prune-window_of :
    (t : FailedLoginTracker) (identifier other : Text) (now : ℕ)
    → ((prune t identifier now).1 ≡ expire t.window_seconds now (window_of t identifier))
      × (window_of (prune t identifier now).0 other ≡ (
          if text_eq identifier other
          then expire t.window_seconds now (window_of t identifier)
          else window_of t other))
unfolding prune
prune-window_of t identifier other now = elim (Option-cases (lookup identifier t.failures)) [
  | inl missing ↦
      let (kept, held) =
        keep-window_of t identifier other (insert identifier [] t.failures)
          (expire t.window_seconds now []) in
      rw (missing, prune, window_of_missing t identifier missing)
        (
          kept,
          held
              ∙ rw (insert-window_of t identifier other [])
                  (if-else-if (text_eq identifier other) _ [] (window_of t other)),
        )
  | inr (window, found) ↦
      rw (found, prune, window_of_lem t identifier window found)
        (keep-window_of t identifier other t.failures (expire t.window_seconds now window))
]

keep-window_seconds :
    (t : FailedLoginTracker) (identifier : Text) (held : Dict (List ℕ)) (window : List ℕ)
    → (keep t identifier held window).0.window_seconds ≡ t.window_seconds
keep-window_seconds t identifier held [] = refl
keep-window_seconds t identifier held (attempt ∷ window) = refl

pub prune-window_seconds :
    (t : FailedLoginTracker) (identifier : Text) (now : ℕ)
    → (prune t identifier now).0.window_seconds ≡ t.window_seconds
unfolding prune
prune-window_seconds t identifier now = elim (Option-cases (lookup identifier t.failures)) [
  | inl missing ↦ rw (missing, prune) (keep-window_seconds t identifier _ _)
  | inr (window, found) ↦ rw (found, prune) (keep-window_seconds t identifier _ _)
]

keep-max_failures :
    (t : FailedLoginTracker) (identifier : Text) (held : Dict (List ℕ)) (window : List ℕ)
    → (keep t identifier held window).0.max_failures ≡ t.max_failures
keep-max_failures t identifier held [] = refl
keep-max_failures t identifier held (attempt ∷ window) = refl

pub prune-max_failures :
    (t : FailedLoginTracker) (identifier : Text) (now : ℕ)
    → (prune t identifier now).0.max_failures ≡ t.max_failures
unfolding prune
prune-max_failures t identifier now = elim (Option-cases (lookup identifier t.failures)) [
  | inl missing ↦ rw (missing, prune) (keep-max_failures t identifier _ _)
  | inr (window, found) ↦ rw (found, prune) (keep-max_failures t identifier _ _)
]

pub record_failure-window_of :
    (t : FailedLoginTracker) (identifier other : Text) (now : ℕ)
    → window_of (record_failure t identifier now).0 other ≡ (
        if text_eq identifier other
        then expire t.window_seconds now (window_of t identifier) ++ now ∷ []
        else window_of t other)
unfolding record_failure
record_failure-window_of t identifier other now =
    let (window, rest) = prune-window_of t identifier other now in
    insert-window_of (prune t identifier now).0 identifier other _
    ∙ rw (window, rest)
        (if-else-if (text_eq identifier other) _
          (expire t.window_seconds now (window_of t identifier)) (window_of t other))

pub reset-window_of :
    (t : FailedLoginTracker) (identifier other : Text)
    → window_of (reset t identifier) other
      ≡ (if text_eq identifier other then [] else window_of t other)
unfolding window_of reset
reset-window_of t identifier other = ground (arith, lookup-erase identifier other t.failures)

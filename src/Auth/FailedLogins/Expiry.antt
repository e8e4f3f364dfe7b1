-- ===== src/Auth/FailedLogins/Expiry.antt =====
-- Windows against the failures that they stand for: what the loop of `_prune` drops is what has expired.
use encrypt_chat_app.Base.{
  All, All-append, All-mono, Bool, List, Text, [], ap, arith, false, filter, if◌then◌else◌, not,
  refl, sym, true, ℕ, ◌++◌, ◌∙◌, ◌∷◌, ◌≡◌, ◌≤◌,
}
use encrypt_chat_app.Auth.FailedLogins.{is_expired, expire}

abbrev pub is_recent : ℕ → ℕ → ℕ → Bool
is_recent window_seconds now attempt = not (is_expired window_seconds now attempt)

abbrev pub Sorted : List ℕ → Type 0
Sorted [] = Unit
Sorted (t ∷ window) = All (λ u. t ≤ u) window × Sorted window

abbrev pub Until : ℕ → List ℕ → Type 0
Until clock = All (λ u. u ≤ clock)

filter-fresh :
    (w now t : ℕ) (window : List ℕ)
    → is_expired w now t ≡ false
    → All (λ u. t ≤ u) window
    → filter (is_recent w now) window ≡ window
filter-fresh w now t [] fresh h = refl
filter-fresh w now t (u ∷ window) fresh h = ground (arith, filter-fresh w now t window fresh h.1)

expire-fresh :
    (w now t : ℕ) (window : List ℕ)
    → is_expired w now t ≡ false
    → All (λ u. t ≤ u) window
    → expire w now window ≡ window
unfolding expire
expire-fresh w now t [] fresh h = refl
expire-fresh w now t (u ∷ window) fresh h = ground arith

pub expire-filter :
    (w now : ℕ) (window : List ℕ)
    → Sorted window
    → expire w now window ≡ filter (is_recent w now) window
unfolding expire
expire-filter w now [] s = refl
expire-filter w now (t ∷ window) s =
    ground (arith, expire-filter w now window s.1, filter-fresh w now t window)

-- What has expired stays expired.
filter-expire :
    (w now later : ℕ) (window : List ℕ)
    → now ≤ later
    → filter (is_recent w later) (expire w now window) ≡ filter (is_recent w later) window
unfolding expire
filter-expire w now later [] h = refl
filter-expire w now later (t ∷ window) h = ground (arith, filter-expire w now later window h)

expire-All {ℓ} :
    (P : ℕ → Type ℓ) (w now : ℕ) (window : List ℕ) → All P window → All P (expire w now window)
unfolding expire
expire-All P w now [] h = tt
expire-All P w now (t ∷ window) h =
    elim (is_expired w now t) as (λ b. All P (if b then expire w now window else t ∷ window)) [
      | true ↦ expire-All P w now window h.1
      | false ↦ h
    ]

expire-Sorted : (w now : ℕ) (window : List ℕ) → Sorted window → Sorted (expire w now window)
unfolding expire
expire-Sorted w now [] s = tt
expire-Sorted w now (t ∷ window) s =
    elim (is_expired w now t) as (λ b. Sorted (if b then expire w now window else t ∷ window)) [
      | true ↦ expire-Sorted w now window s.1
      | false ↦ s
    ]

append-Sorted :
    (window : List ℕ) (now : ℕ) → Sorted window → Until now window → Sorted (window ++ now ∷ [])
append-Sorted [] now s h = (tt, tt)
append-Sorted (t ∷ window) now s h =
    (All-append _ window (now ∷ []) s.0 (h.0, tt), append-Sorted window now s.1 h.1)

filter-append : (p : ℕ → Bool) (xs ys : List ℕ) → filter p (xs ++ ys) ≡ filter p xs ++ filter p ys
filter-append p [] ys = refl
filter-append p (x ∷ xs) ys = ground (arith, filter-append p xs ys)

-- The window of an identifier, as of the clock, holds its recent failures.
pub record Tracks (identifier : Text) (clock w : ℕ) (window failures : List ℕ) : Type 0 where
  pub sorted : Sorted window
  pub until : Until clock window
  pub same :
      (later : ℕ)
      → clock ≤ later
      → filter (is_recent w later) window ≡ filter (is_recent w later) failures

pub Tracks-expire :
    (identifier : Text) (clock now w : ℕ) (window failures : List ℕ)
    → clock ≤ now
    → Tracks identifier clock w window failures
    → Tracks identifier now w (expire w now window) failures
Tracks-expire identifier clock now w window failures h t = record {
  sorted = expire-Sorted w now window t.sorted;
  until = expire-All _ w now window (All-mono _ _ window (λ u k. omega (arith, k, h)) t.until);
  same = λ later k. filter-expire w now later window k ∙ t.same later (omega (arith, h, k));
}

pub Tracks-later :
    (identifier : Text) (clock now w : ℕ) (window failures : List ℕ)
    → clock ≤ now
    → Tracks identifier clock w window failures
    → Tracks identifier now w window failures
Tracks-later identifier clock now w window failures h t = record {
  sorted = t.sorted;
  until = All-mono _ _ window (λ u k. omega (arith, k, h)) t.until;
  same = λ later k. t.same later (omega (arith, h, k));
}

pub Tracks-append :
    (identifier : Text) (now w : ℕ) (window failures : List ℕ)
    → Tracks identifier now w window failures
    → Tracks identifier now w (window ++ now ∷ []) (failures ++ now ∷ [])
Tracks-append identifier now w window failures t = record {
  sorted = append-Sorted window now t.sorted t.until;
  until = All-append _ window (now ∷ []) t.until (omega arith, tt);
  same = λ later k.
      filter-append _ window (now ∷ [])
      ∙ ap (λ l. l ++ filter (is_recent w later) (now ∷ [])) (t.same later k)
      ∙ sym (filter-append _ failures (now ∷ []));
}

-- ===== src/Base/IdSets.antt =====
-- Python's sets of identifiers, as lists in insertion order with no identifier twice.
use Prim.Native.Nat.{ℕ, ◌+◌, ◌≤◌}
use mathlib.Core.Path.{◌≡◌, refl}
use mathlib.Core.Logic.{inl, inr}
use mathlib.Core.Bool.{Bool, true, false, not, ◌&&◌, ◌||◌}
use mathlib.Core.List.{List, [], ◌∷◌, ◌++◌}
use native.Mathlib.Omega.{arith}
use encrypt_chat_app.Base.Tests.{◌==◌, if◌then◌else◌, Bool-cases}
use encrypt_chat_app.Base.Lists.{length, filter, any}

-- `i in ids`
unfoldable pub contains : ℕ → List ℕ → Bool
contains i [] = false
contains i (j ∷ ids) = i == j || contains i ids

-- `ids.add(i)`
unfoldable pub add : ℕ → List ℕ → List ℕ
unfolding contains
add i ids = if contains i ids then ids else ids ++ i ∷ []

-- `ids.discard(i)`
unfoldable pub discard : ℕ → List ℕ → List ℕ
discard i [] = []
discard i (j ∷ ids) = let rest = discard i ids in if i == j then rest else j ∷ rest

-- No identifier stands twice.
abbrev pub Distinct : List ℕ → Type 0
Distinct [] = Unit
Distinct (i ∷ ids) = (contains i ids ≡ false) × Distinct ids

contains-append :
    (i : ℕ) (xs ys : List ℕ) → contains i (xs ++ ys) ≡ (contains i xs || contains i ys)
unfolding contains
contains-append i [] ys = refl
contains-append i (x ∷ xs) ys = ground (arith, contains-append i xs ys)

pub contains-add : (i j : ℕ) (ids : List ℕ) → contains i (add j ids) ≡ (i == j || contains i ids)
unfolding add contains
contains-add i j ids = ground (arith, contains-append i ids (j ∷ []), contains_cong i j ids)
  where
    contains_cong : (i j : ℕ) (ids : List ℕ) → i ≡ j → contains j ids ≡ contains i ids
    contains_cong i j ids e = cc

pub contains-discard :
    (i j : ℕ) (ids : List ℕ) → contains i (discard j ids) ≡ (not (i == j) && contains i ids)
unfolding discard contains
contains-discard i j [] = ground arith
contains-discard i j (x ∷ ids) = ground (arith, contains-discard i j ids)

append-Distinct :
    (i : ℕ) (ids : List ℕ) → contains i ids ≡ false → Distinct ids → Distinct (ids ++ i ∷ [])
unfolding contains
append-Distinct i [] h d = (refl, tt)
append-Distinct i (x ∷ ids) h d =
    ground (arith, append-Distinct i ids, contains-append x ids (i ∷ []))

pub add-Distinct : (i : ℕ) (ids : List ℕ) → Distinct ids → Distinct (add i ids)
unfolding add
add-Distinct i ids d = ground (arith, append-Distinct i ids)

pub discard-Distinct : (i : ℕ) (ids : List ℕ) → Distinct ids → Distinct (discard i ids)
unfolding discard
discard-Distinct i [] d = tt
discard-Distinct i (x ∷ ids) d =
    ground (arith, discard-Distinct i ids d.1, contains-discard x i ids)

-- A new identifier adds one, and a discard never adds any.
length-append_one : (i : ℕ) (ids : List ℕ) → length (ids ++ i ∷ []) ≡ length ids + 1
length-append_one i [] = omega arith
length-append_one i (x ∷ ids) = omega (arith, length-append_one i ids)

pub length-add-le : (i : ℕ) (ids : List ℕ) → length (add i ids) ≤ length ids + 1
unfolding add
length-add-le i ids = ground (arith, length-append_one i ids)

pub length-add_new :
    (i : ℕ) (ids : List ℕ) → contains i ids ≡ false → length (add i ids) ≡ length ids + 1
unfolding add
length-add_new i ids h = ground (arith, length-append_one i ids)

pub length-discard-le : (i : ℕ) (ids : List ℕ) → length (discard i ids) ≤ length ids
unfolding discard
length-discard-le i [] = omega arith
length-discard-le i (x ∷ ids) = ground (arith, length-discard-le i ids)

-- A set that is not empty holds something.
pub contains_head : (i : ℕ) (ids : List ℕ) → contains i (i ∷ ids) ≡ true
unfolding contains
contains_head i ids = ground arith

pub contains-filter :
    (p : ℕ → Bool) (i : ℕ) (ids : List ℕ) → contains i (filter p ids) ≡ (contains i ids && p i)
unfolding contains
contains-filter p i [] = refl
contains-filter p i (x ∷ ids) = ground (arith, contains-filter p i ids)

pub filter-Distinct : (p : ℕ → Bool) (ids : List ℕ) → Distinct ids → Distinct (filter p ids)
filter-Distinct p [] d = tt
filter-Distinct p (x ∷ ids) d = ground (arith, filter-Distinct p ids d.1, contains-filter p x ids)

-- `any` over a set, by its members.
pub any-of_contains :
    (p : ℕ → Bool) (i : ℕ) (ids : List ℕ) → contains i ids ≡ true → p i ≡ true → any p ids ≡ true
unfolding contains
any-of_contains p i [] h e = ground arith
any-of_contains p i (x ∷ ids) h e = ground (arith, any-of_contains p i ids)

pub contains_of_any :
    (p : ℕ → Bool) (ids : List ℕ)
    → any p ids ≡ true
    → (i : ℕ) × (contains i ids ≡ true) × (p i ≡ true)
unfolding contains
contains_of_any p [] h = absurd (ground arith)
contains_of_any p (x ∷ ids) h = elim (Bool-cases (p x)) [
  | inl e ↦ (x, ground arith, e)
  | inr e ↦ let (i, found, e') = contains_of_any p ids (ground arith) in (i, ground arith, e')
]

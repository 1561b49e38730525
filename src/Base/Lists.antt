-- ===== src/Base/Lists.antt =====
-- Lists measured by native numbers, predicates by recursion, and the Python built-ins on lists.
use Prim.Native.Nat.{ℕ, zero, suc, ◌+◌}
use mathlib.Core.Path.{◌≡◌, refl, sym, subst}
use mathlib.Core.Logic.{◌⊎◌, inl, inr}
use mathlib.Core.Bool.{Bool, true, false, ◌&&◌, ◌||◌}
use mathlib.Core.Option.{Option, none, some}
use mathlib.Core.List.{List, [], ◌∷◌, ◌++◌}
use native.Mathlib.Omega.{arith}
use obrasignal.Base.Tests.{Bool-cases}

module _ {ℓ} {A : Type ℓ} where
  abbrev pub length : List A → ℕ
  length [] = 0
  length (x ∷ xs) = suc (length xs)

  abbrev pub take : ℕ → List A → List A
  take zero xs = []
  take (suc n) [] = []
  take (suc n) (x ∷ xs) = x ∷ take n xs

  abbrev pub any : (A → Bool) → List A → Bool
  any p [] = false
  any p (x ∷ xs) = p x || any p xs

  abbrev pub all : (A → Bool) → List A → Bool
  all p [] = true
  all p (x ∷ xs) = p x && all p xs

  -- The rows that a test lets through, in order.
  abbrev pub select : (A → Bool) → List A → List A
  select p [] = []
  select p (x ∷ xs) = elim (p x) [ true ↦ x ∷ select p xs | false ↦ select p xs ]

  -- The first row that passes a test: `fetchone` of a query without an order.
  abbrev pub find? : (A → Bool) → List A → Option A
  find? p [] = none
  find? p (x ∷ xs) = elim (p x) [ true ↦ some x | false ↦ find? p xs ]

  -- Every row that passes a test is rewritten: an SQL `UPDATE`.
  abbrev pub update : (A → Bool) → (A → A) → List A → List A
  update p f [] = []
  update p f (x ∷ xs) = elim (p x) [ true ↦ f x | false ↦ x ] ∷ update p f xs

  -- How many rows pass a test: the `rowcount` of an `UPDATE` or a `DELETE`.
  abbrev pub count_if : (A → Bool) → List A → ℕ
  count_if p [] = 0
  count_if p (x ∷ xs) = elim (p x) [ true ↦ 1 | false ↦ 0 ] + count_if p xs

  -- Insertion sort, stable: `ORDER BY` and `sorted`, with the test of its key.
  unfoldable pub insert_by : (A → A → Bool) → A → List A → List A
  insert_by before x [] = x ∷ []
  insert_by before x (y ∷ ys) = elim (before x y) [
    | true ↦ x ∷ y ∷ ys
    | false ↦ y ∷ insert_by before x ys
  ]

  unfoldable pub sort_by : (A → A → Bool) → List A → List A
  unfolding insert_by
  sort_by before [] = []
  sort_by before (x ∷ xs) = insert_by before x (sort_by before xs)

  pub insert_by-nil : (before : A → A → Bool) (x : A) → insert_by before x [] ≡ x ∷ []
  unfolding insert_by
  insert_by-nil before x = refl

  pub insert_by-here :
      (before : A → A → Bool) (x y : A) (ys : List A)
      → before x y ≡ true
      → insert_by before x (y ∷ ys) ≡ x ∷ y ∷ ys
  unfolding insert_by
  insert_by-here before x y ys e = rw (e, insert_by) refl

  pub insert_by-later :
      (before : A → A → Bool) (x y : A) (ys : List A)
      → before x y ≡ false
      → insert_by before x (y ∷ ys) ≡ y ∷ insert_by before x ys
  unfolding insert_by
  insert_by-later before x y ys e = rw (e, insert_by) refl

  pub length-take-le : (n : ℕ) (xs : List A) → Prim.Native.Nat.◌≤◌ (length (take n xs)) n
  length-take-le zero xs = omega arith
  length-take-le (suc n) [] = omega arith
  length-take-le (suc n) (x ∷ xs) = omega (arith, length-take-le n xs)

module _ {A : Type 0} where
  pub select-append_one :
      (p : A → Bool) (xs : List A) (y : A)
      → p y ≡ true
      → select p (xs ++ y ∷ []) ≡ select p xs ++ y ∷ []
  select-append_one p [] y h = ground (arith, h)
  select-append_one p (x ∷ xs) y h = ground (arith, h, select-append_one p xs y h)

  pub select-append_other :
      (p : A → Bool) (xs : List A) (y : A) → p y ≡ false → select p (xs ++ y ∷ []) ≡ select p xs
  select-append_other p [] y h = ground (arith, h)
  select-append_other p (x ∷ xs) y h = ground (arith, h, select-append_other p xs y h)

  pub find?-append_miss :
      (p : A → Bool) (xs : List A) (y : A)
      → find? p xs ≡ none
      → p y ≡ true
      → find? p (xs ++ y ∷ []) ≡ some y
  find?-append_miss p [] y e h = ground (arith, h)
  find?-append_miss p (x ∷ xs) y e h = ground (arith, e, h, find?-append_miss p xs y)

module _ {ℓ κ} {A : Type ℓ} where
  abbrev pub All : (A → Type κ) → List A → Type κ
  All P [] = Unit
  All P (x ∷ xs) = P x × All P xs

-- Membership by recursion, for the types of rows.
abbrev pub IsIn : {A : Type 0} → A → List A → Type 0
IsIn x [] = ⊥
IsIn x (y ∷ ys) = (x ≡ y) ⊎ IsIn x ys

pub All-IsIn {κ} : {A : Type 0} (P : A → Type κ) (xs : List A) (x : A) → All P xs → IsIn x xs → P x
All-IsIn P [] x h i = absurd i
All-IsIn P (y ∷ ys) x (h, hs) (inl e) = subst P (sym e) h
All-IsIn P (y ∷ ys) x (h, hs) (inr i) = All-IsIn P ys x hs i

pub All-map {ℓ κ μ} :
    {A : Type ℓ} {P : A → Type κ} {Q : A → Type μ}
    → ((x : A) → P x → Q x)
    → (xs : List A) → All P xs
    → All Q xs
All-map k [] h = tt
All-map k (x ∷ xs) (h, hs) = (k x h, All-map k xs hs)

-- A predicate that each element fulfils.
pub All-of_IsIn {κ} :
    {A : Type 0} (P : A → Type κ) (xs : List A) → ((x : A) → IsIn x xs → P x) → All P xs
All-of_IsIn P [] h = tt
All-of_IsIn P (x ∷ xs) h = (h x (inl refl), All-of_IsIn P xs (λ y i. h y (inr i)))

-- What a sort keeps, in both directions.
module _ {A : Type 0} (P : A → Type 0) (before : A → A → Bool) where
  All-insert_by : (x : A) (ys : List A) → P x → All P ys → All P (insert_by before x ys)
  unfolding insert_by
  All-insert_by x [] h hs = (h, tt)
  All-insert_by x (y ∷ ys) h (g, gs) = elim (Bool-cases (before x y)) [
    | inl e ↦ rw (e, All) (h, (g, gs))
    | inr e ↦ rw (e, All) (g, All-insert_by x ys h gs)
  ]

  pub All-sort_by : (xs : List A) → All P xs → All P (sort_by before xs)
  unfolding sort_by
  All-sort_by [] h = tt
  All-sort_by (x ∷ xs) (h, hs) = All-insert_by x (sort_by before xs) h (All-sort_by xs hs)

  insert_by-All : (x : A) (ys : List A) → All P (insert_by before x ys) → P x × All P ys
  unfolding insert_by
  insert_by-All x [] (h, hs) = (h, tt)
  insert_by-All x (y ∷ ys) all = elim (Bool-cases (before x y)) [
    | inl e ↦ let (h, hs) = rw (e, All) at all in (h, hs)
    | inr e ↦
        let (h, hs) = rw (e, All) at all in let (g, gs) = insert_by-All x ys hs in (g, (h, gs))
  ]

  pub sort_by-All : (xs : List A) → All P (sort_by before xs) → All P xs
  unfolding sort_by
  sort_by-All [] all = tt
  sort_by-All (x ∷ xs) all =
      let (h, hs) = insert_by-All x (sort_by before xs) all in (h, sort_by-All xs hs)

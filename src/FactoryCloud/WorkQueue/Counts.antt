-- ===== src/FactoryCloud/WorkQueue/Counts.antt =====
-- Lists of rows: what an update, a selection and a sort keep.
use obrasignal.Base.{
  ◌≡◌, refl, ◌+◌, ◌≤◌, Bool, true, false, some, List, [], ◌∷◌, ◌++◌, find?, select, update,
  count_if, arith, All, leb, if◌then◌else◌, Bool-cases, inl, inr, ◌⊎◌,
}
use mathlib.Core.Path.{subst}
use obrasignal.FactoryCloud.WorkQueue.{Job, Queue, by_created, insert_by_created, newest}

module _ {ℓ} {A : Type ℓ} where
  pub count_if-update_le :
      (p q : A → Bool) (f : A → A) (xs : List A)
      → ((x : A) → p (f x) ≡ true → p x ≡ true)
      → count_if p (update q f xs) ≤ count_if p xs
  count_if-update_le p q f [] h = omega arith
  count_if-update_le p q f (x ∷ xs) h = ground (arith, h x, count_if-update_le p q f xs h)

  pub count_if-append_one :
      (p : A → Bool) (xs : List A) (y : A)
      → count_if p (xs ++ y ∷ []) ≡ count_if p xs + (if p y then 1 else 0)
  count_if-append_one p [] y = ground arith
  count_if-append_one p (x ∷ xs) y = ground (arith, count_if-append_one p xs y)

  -- After an update of the rows that pass a test, no row passes another that the change rules out.
  pub count_if-update_zero :
      (p q : A → Bool) (f : A → A) (xs : List A)
      → ((x : A) → p x ≡ true → q x ≡ true)
      → ((x : A) → p (f x) ≡ false)
      → count_if p (update q f xs) ≡ 0
  count_if-update_zero p q f [] h k = refl
  count_if-update_zero p q f (x ∷ xs) h k =
      ground (arith, h x, k x, count_if-update_zero p q f xs h k)

  pub select-nil : (p : A → Bool) (xs : List A) → select p xs ≡ [] → count_if p xs ≡ 0
  select-nil p [] h = refl
  select-nil p (x ∷ xs) h = ground (arith, select-nil p xs)

  module _ {κ} (P : A → Type κ) where
    pub All-select : (p : A → Bool) (xs : List A) → All P xs → All P (select p xs)
    All-select p [] h = tt
    All-select p (x ∷ xs) (h, hs) = elim (Bool-cases (p x)) [
      | inl e ↦ rw (e, All) (h, All-select p xs hs)
      | inr e ↦ rw (e, All) (All-select p xs hs)
    ]

    pub All-find? :
        (p : A → Bool) (xs : List A) (y : A) → All P xs → find? p xs ≡ some y → P y × (p y ≡ true)
    All-find? p [] y h e = absurd (ground arith)
    All-find? p (x ∷ xs) y (h, hs) e = elim (Bool-cases (p x)) [
      | inl hit ↦ let same : x ≡ y = ground arith in (rw same at h, rw same at hit)
      | inr miss ↦ All-find? p xs y hs (ground arith)
    ]

    pub All-append_one : (xs : List A) (y : A) → All P xs → P y → All P (xs ++ y ∷ [])
    All-append_one [] y h k = (k, tt)
    All-append_one (x ∷ xs) y (h, hs) k = (h, All-append_one xs y hs k)

    pub All-update :
        (q : A → Bool) (f : A → A) (xs : List A)
        → ((x : A) → P x → q x ≡ true → P (f x))
        → All P xs
        → All P (update q f xs)
    All-update q f [] k h = tt
    All-update q f (x ∷ xs) k (h, hs) = elim (Bool-cases (q x)) [
      | inl e ↦ rw e (k x h e, All-update q f xs k hs)
      | inr e ↦ rw e (h, All-update q f xs k hs)
    ]

  pub count_if-zero : (p : A → Bool) (xs : List A) → count_if p xs ≡ 0 → All (λ x. p x ≡ false) xs
  count_if-zero p [] h = tt
  count_if-zero p (x ∷ xs) h = (ground arith, count_if-zero p xs (ground arith))

  All-of_forall {κ} : (P : A → Type κ) (xs : List A) → ((x : A) → P x) → All P xs
  All-of_forall P [] h = tt
  All-of_forall P (x ∷ xs) h = (h x, All-of_forall P xs h)

  pub All-update_self {κ} :
      (P : A → Type κ) (q : A → Bool) (f : A → A) (xs : List A)
      → ((x : A) → q x ≡ true → P (f x))
      → ((x : A) → q x ≡ false → P x)
      → All P (update q f xs)
  All-update_self P q f [] h k = tt
  All-update_self P q f (x ∷ xs) h k = elim (Bool-cases (q x)) [
    | inl e ↦ rw e (h x e, All-update_self P q f xs h k)
    | inr e ↦ rw e (k x e, All-update_self P q f xs h k)
  ]

module _ (P : Job → Type 0) where
  pub All-insert_by_created :
      (j : Job) (js : Queue) → P j → All P js → All P (insert_by_created j js)
  unfolding insert_by_created
  All-insert_by_created j [] h hs = (h, tt)
  All-insert_by_created j (k ∷ ks) h (hk, hs) = elim (Bool-cases (leb j.created_at k.created_at)) [
    | inl e ↦ rw (e, All) (h, (hk, hs))
    | inr e ↦ rw (e, All) (hk, All-insert_by_created j ks h hs)
  ]

  pub All-by_created : (js : Queue) → All P js → All P (by_created js)
  unfolding by_created
  All-by_created [] h = tt
  All-by_created (j ∷ js) (h, hs) = All-insert_by_created j (by_created js) h (All-by_created js hs)

  newest_cases :
      (k j : Job) (ks : Queue) → newest (k ∷ ks) ≡ some j → (k ≡ j) ⊎ (newest ks ≡ some j)
  unfolding newest
  newest_cases k j ks e = ground arith

  All-newest : (js : Queue) (j : Job) → All P js → newest js ≡ some j → P j
  unfolding newest
  All-newest [] j h e = absurd (ground arith)
  All-newest (k ∷ ks) j (h, hs) e = elim (newest_cases k j ks e) [
    | inl same ↦ subst P same h
    | inr later ↦ All-newest ks j hs later
  ]

-- ===== src/FactoryCloud/WorkQueue/Oldest.antt =====
-- The order of `ORDER BY created_at`: what the first row that passes a test is among all rows.
use obrasignal.Base.{
  All-map, ◌≡◌, ◌≤◌, ℕ, String, Bool, true, some, [], ◌∷◌, find?, select, arith, All, leb,
  Bool-cases, inl, inr, IsIn, All-of_IsIn,
}
use obrasignal.FactoryCloud.WorkQueue.{Job, Queue, by_created, insert_by_created, choose}
use obrasignal.FactoryCloud.WorkQueue.{is_candidate, is_claimable}
use obrasignal.FactoryCloud.WorkQueue.Counts.{
  All-by_created, All-select, All-find?, All-insert_by_created,
}

-- No row is before one of an earlier time.
abbrev IsOldestFirst : Queue → Type 0
IsOldestFirst [] = Unit
IsOldestFirst (j ∷ js) = All (λ k. j.created_at ≤ k.created_at) js × IsOldestFirst js

module _ (P : Job → Type 0) where
  insert_by_created-All : (j : Job) (js : Queue) → All P (insert_by_created j js) → P j × All P js
  unfolding insert_by_created
  insert_by_created-All j [] (h, hs) = (h, tt)
  insert_by_created-All j (k ∷ ks) all = elim (Bool-cases (leb j.created_at k.created_at)) [
    | inl e ↦ let (h, hs) = rw (e, All) at all in (h, hs)
    | inr e ↦
        let (h, hs) = rw (e, All) at all in
        let (g, gs) = insert_by_created-All j ks hs in (g, (h, gs))
  ]

  by_created-All : (js : Queue) → All P (by_created js) → All P js
  unfolding by_created
  by_created-All [] all = tt
  by_created-All (j ∷ js) all =
      let (h, hs) = insert_by_created-All j (by_created js) all in (h, by_created-All js hs)

  select-All : (p : Job → Bool) (js : Queue) → All P (select p js) → All (λ j. p j ≡ true → P j) js
  select-All p [] all = tt
  select-All p (j ∷ js) all = elim (Bool-cases (p j)) [
    | inl e ↦ let (h, hs) = rw (e, All) at all in ((λ f. h), select-All p js hs)
    | inr e ↦ ((λ f. absurd (ground arith)), select-All p js (rw (e, All) at all))
  ]

insert_by_created-IsOldestFirst :
    (j : Job) (js : Queue) → IsOldestFirst js → IsOldestFirst (insert_by_created j js)
unfolding insert_by_created
insert_by_created-IsOldestFirst j [] sorted = (tt, tt)
insert_by_created-IsOldestFirst j (k ∷ ks) (below, sorted) =
    elim (Bool-cases (leb j.created_at k.created_at)) [
      | inl e ↦
          let le : j.created_at ≤ k.created_at = ground arith in
          rw (e, IsOldestFirst)
            ((le, All-map (λ m h. omega (arith, h, le)) ks below), (below, sorted))
      | inr e ↦
          let le : k.created_at ≤ j.created_at = ground arith in
          rw (e, IsOldestFirst)
            (
              All-insert_by_created (λ m. k.created_at ≤ m.created_at) j ks le below,
              insert_by_created-IsOldestFirst j ks sorted,
            )
    ]

by_created-IsOldestFirst : (js : Queue) → IsOldestFirst (by_created js)
unfolding by_created
by_created-IsOldestFirst [] = tt
by_created-IsOldestFirst (j ∷ js) =
    insert_by_created-IsOldestFirst j (by_created js) (by_created-IsOldestFirst js)

find?-oldest :
    (p : Job → Bool) (js : Queue) (c : Job)
    → IsOldestFirst js
    → find? p js ≡ some c
    → All (λ k. p k ≡ true → c.created_at ≤ k.created_at) js
find?-oldest p [] c sorted hit = tt
find?-oldest p (j ∷ js) c (below, sorted) hit = elim (Bool-cases (p j)) [
  | inl e ↦
      let same : j ≡ c = ground arith in
      let above : All (λ k. c.created_at ≤ k.created_at) js = rw same at below in
      ((λ f. rw same (omega arith)), All-map (λ k h f. h) js above)
  | inr e ↦ ((λ f. absurd (ground arith)), find?-oldest p js c sorted (ground arith))
]

select-passes : (p : Job → Bool) (jobs : Queue) → All (λ j. p j ≡ true) (select p jobs)
select-passes p [] = tt
select-passes p (j ∷ jobs) = elim (Bool-cases (p j)) [
  | inl e ↦ rw (e, All) (e, select-passes p jobs)
  | inr e ↦ rw (e, All) (select-passes p jobs)
]

-- No claimable candidate is older than the one that is chosen.
pub choose-oldest :
    (app_id : String) (now : ℕ) (jobs : Queue) (c : Job)
    → choose app_id now jobs ≡ some c
    → All
        (λ k.
          is_candidate app_id k ≡ true → is_claimable now k ≡ true → c.created_at ≤ k.created_at)
        jobs
unfolding choose
choose-oldest app_id now jobs c hit =
    let rows = select (is_candidate app_id) jobs in
    let P : Job → Type 0 = λ k. is_claimable now k ≡ true → c.created_at ≤ k.created_at in
    select-All P (is_candidate app_id) jobs (
      by_created-All P rows
        (find?-oldest (is_claimable now) (by_created rows) c (by_created-IsOldestFirst rows) hit))

-- The one that is chosen is a row of the table.
pub choose-IsIn :
    (app_id : String) (now : ℕ) (jobs : Queue) (c : Job)
    → choose app_id now jobs ≡ some c
    → IsIn c jobs
unfolding choose
choose-IsIn app_id now jobs c hit =
    let rows = select (is_candidate app_id) jobs in
    let P : Job → Type 0 = λ k. IsIn k jobs in
    (All-find? P (is_claimable now) (by_created rows) c
      (All-by_created P rows
        (All-select P (is_candidate app_id) jobs (All-of_IsIn P jobs (λ k i. i))))
      hit).0

pub choose_sound :
    (app_id : String) (now : ℕ) (jobs : Queue) (j : Job)
    → choose app_id now jobs ≡ some j
    → (is_candidate app_id j ≡ true) × (is_claimable now j ≡ true)
unfolding choose
choose_sound app_id now jobs j h =
    All-find? (λ k. is_candidate app_id k ≡ true) (is_claimable now)
      (by_created (select (is_candidate app_id) jobs)) j
      (All-by_created (λ k. is_candidate app_id k ≡ true) (select (is_candidate app_id) jobs)
        (select-passes (is_candidate app_id) jobs))
      h

-- ===== src/FactoryCloud/Orchestrator/Ranking.antt =====
-- The rows with their scores, in the order in which `choose_next` tries them.
use obrasignal.Base.{
  All-map, ◌≡◌, ℕ, ◌≤◌, String, Option, List, [], ◌∷◌, arith, All, inl, inr, Bool-cases, sort_by,
  insert_by, insert_by-nil, insert_by-here, insert_by-later, IsIn, refl,
}
use mathlib.Core.Path.{subst}
use obrasignal.Base.Int.{ℤ}
use obrasignal.Base.Result.{ok, >>=-returns}
use obrasignal.FactoryCloud.StateStore.{App, AppState}
use obrasignal.FactoryCloud.Orchestrator.{scored, scored_before, priority_score}

-- Scores do not rise along the list.
abbrev pub IsRanked : List (ℕ × AppState) → Type 0
IsRanked [] = Unit
IsRanked (x ∷ xs) = All (λ y. y.0 ≤ x.0) xs × IsRanked xs

below_trans :
    (m n : ℕ) (xs : List (ℕ × AppState)) → m ≤ n → All (λ y. y.0 ≤ m) xs → All (λ y. y.0 ≤ n) xs
below_trans m n [] h all = tt
below_trans m n (x ∷ xs) h (a, all) = (omega (arith, a, h), below_trans m n xs h all)

insert_by-below :
    (x : ℕ × AppState) (n : ℕ) (ys : List (ℕ × AppState))
    → x.0 ≤ n
    → All (λ y. y.0 ≤ n) ys
    → All (λ y. y.0 ≤ n) (insert_by scored_before x ys)
insert_by-below x n [] h all = rw (insert_by-nil scored_before x) (h, tt)
insert_by-below x n (y ∷ ys) h (a, all) = elim (Bool-cases (scored_before x y)) [
  | inl e ↦ rw (insert_by-here scored_before x y ys e) (h, (a, all))
  | inr e ↦ rw (insert_by-later scored_before x y ys e) (a, insert_by-below x n ys h all)
]

insert_by-IsRanked :
    (x : ℕ × AppState) (ys : List (ℕ × AppState))
    → IsRanked ys
    → IsRanked (insert_by scored_before x ys)
insert_by-IsRanked x [] r = rw (insert_by-nil scored_before x) (tt, tt)
insert_by-IsRanked x (y ∷ ys) (a, r) = elim (Bool-cases (scored_before x y)) [
  | inl e ↦
      let le : y.0 ≤ x.0 = ground arith in
      rw (insert_by-here scored_before x y ys e) ((le, below_trans y.0 x.0 ys le a), (a, r))
  | inr e ↦
      let le : x.0 ≤ y.0 = ground arith in
      rw (insert_by-later scored_before x y ys e)
        (insert_by-below x y.0 ys le a, insert_by-IsRanked x ys r)
]

pub sort_by-IsRanked : (xs : List (ℕ × AppState)) → IsRanked (sort_by scored_before xs)
unfolding sort_by
sort_by-IsRanked [] = tt
sort_by-IsRanked (x ∷ xs) = insert_by-IsRanked x (sort_by scored_before xs) (sort_by-IsRanked xs)

module _ (int_of_text : String → Option ℤ) (registry : List App) where
  -- A score that is the one of its row.
  abbrev pub IsScored : List AppState → ℕ × AppState → Type 0
  IsScored rows x = IsIn x.1 rows × (priority_score int_of_text registry x.1.app_id ≡ ok x.0)

  scored_steps :
      (a : AppState) (rows : List AppState) (xs : List (ℕ × AppState))
      → scored int_of_text registry (a ∷ rows) ≡ ok xs
      → (n : ℕ) × (rest : List (ℕ × AppState)) × (priority_score int_of_text registry a.app_id
          ≡ ok n)
        × (scored int_of_text registry rows ≡ ok rest)
        × (xs ≡ (n, a) ∷ rest)
  unfolding scored
  scored_steps a rows xs h =
      let (n, p, q) = >>=-returns (priority_score int_of_text registry a.app_id) _ h in
      let (rest, r, e) = >>=-returns (scored int_of_text registry rows) _ q in
      (n, rest, p, r, ground arith)

  pub scored-IsScored :
      (rows : List AppState) (xs : List (ℕ × AppState))
      → scored int_of_text registry rows ≡ ok xs
      → All (IsScored rows) xs
  unfolding scored
  scored-IsScored [] xs h = let same : [] ≡ xs = ground arith in rw (← same) tt
  scored-IsScored (a ∷ rows) xs h =
      let (n, rest, p, q, e) = scored_steps a rows xs h in
      rw e ((inl refl, p), All-map (λ x k. (inr k.0, k.1)) rest (scored-IsScored rows rest q))

  -- What holds of the scored rows holds of each row at its score.
  pub scored-All :
      (P : ℕ × AppState → Type 0) (rows : List AppState) (xs : List (ℕ × AppState))
      → scored int_of_text registry rows ≡ ok xs
      → All P xs
      → All (λ a. (n : ℕ) → priority_score int_of_text registry a.app_id ≡ ok n → P (n, a)) rows
  scored-All P [] xs h all = tt
  scored-All P (a ∷ rows) xs h all =
      let (n, rest, p, q, e) = scored_steps a rows xs h in
      let (k, ks) = subst (All P) e all in
      (
        (λ m g. let same : n ≡ m = ground arith in subst (λ (i : ℕ). P (i, a)) same k),
        scored-All P rows rest q ks,
      )

-- ===== src/FactoryCloud/Orchestrator/Decisions.antt =====
-- Which app `choose_next` takes, and why.
use obrasignal.Base.{
  ◌≡◌, ℕ, ◌≤◌, ◌<◌, String, true, false, Option, none, some, List, [], ◌∷◌, arith, All, ◌⊎◌, inl,
  inr, Bool-cases, Option-cases, sort_by, IsIn, All-IsIn, All-sort_by, sort_by-All, refl,
}
use obrasignal.Base.Int.{ℤ}
use obrasignal.Base.Text.{member, nonempty}
use obrasignal.Base.Result.{ok, Result-cases, >>=-returns}
use obrasignal.FactoryCloud.StateStore.{App, AppState, Store, list_apps}
use obrasignal.FactoryCloud.Orchestrator.Ranking.{
  IsRanked, sort_by-IsRanked, IsScored, scored-IsScored, scored-All,
}
use obrasignal.FactoryCloud.Orchestrator.{
  Decision, app_config, decision, decide, decision_for, retry_gate_open, task_of, scored,
  scored_before, first_due, choose_next, priority_score,
}

-- An app that a cycle passes over: it was attempted, or there is no decision for it.
abbrev IsPassed : List App → ℕ → List String → AppState → Type 0
IsPassed registry now attempted a =
    (member a.app_id attempted ≡ true) ⊎ (decision_for registry now a ≡ ok none)

-- Why a decision is taken: its app is one of the rows and of the registry, is enabled and was not
-- attempted, its task is not empty and its retry gate is open; every row whose app has a higher score
-- than this one is passed over.
pub record IsChosen (int_of_text : String → Option ℤ) (registry : List App) (now : ℕ)
    (attempted : List String) (rows : List AppState) (d : Decision) : Type 0 where
  pub row : AppState
  pub listed : IsIn row rows
  pub score : ℕ
  pub has_score : priority_score int_of_text registry row.app_id ≡ ok score
  pub app : App
  pub registered : app_config row.app_id registry ≡ some app
  pub is_enabled : app.enabled ≡ true
  pub not_attempted : member row.app_id attempted ≡ false
  pub decided : d ≡ decision app row (task_of row)
  pub has_task : nonempty d.task ≡ true
  pub gate_open : retry_gate_open row.retry_state d.task now ≡ true
  pub highest :
      All
        (λ a.
          (n : ℕ)
          → priority_score int_of_text registry a.app_id ≡ ok n
          → score < n
          → IsPassed registry now attempted a)
        rows

-- The same of a list of scored rows.
record IsFirst (registry : List App) (now : ℕ) (attempted : List String) (xs : List (ℕ × AppState))
    (d : Decision) : Type 0 where
  pub row : AppState
  pub score : ℕ
  pub listed : IsIn (score, row) xs
  pub app : App
  pub registered : app_config row.app_id registry ≡ some app
  pub is_enabled : app.enabled ≡ true
  pub not_attempted : member row.app_id attempted ≡ false
  pub decided : d ≡ decision app row (task_of row)
  pub has_task : nonempty d.task ≡ true
  pub gate_open : retry_gate_open row.retry_state d.task now ≡ true
  pub highest : All (λ x. score < x.0 → IsPassed registry now attempted x.1) xs

decide-facts :
    (app : App) (now : ℕ) (a : AppState) {d : Decision}
    → decide app now a ≡ some d
    → (app.enabled ≡ true)
      × (d ≡ decision app a (task_of a))
      × (nonempty d.task ≡ true)
      × (retry_gate_open a.retry_state d.task now ≡ true)
unfolding decide
decide-facts app now a {d} h = elim (Bool-cases app.enabled) [
  | inr e ↦ ground arith
  | inl e ↦ elim (Bool-cases (nonempty (task_of a))) [
    | inr f ↦ ground arith
    | inl f ↦ elim (Bool-cases (retry_gate_open a.retry_state (task_of a) now)) [
      | inr g ↦ ground arith
      | inl g ↦
          let is_decision : d ≡ decision app a (task_of a) = ground arith in
          (e, is_decision, rw is_decision f, rw is_decision g)
    ]
  ]
]

decision_for-facts :
    (registry : List App) (now : ℕ) (a : AppState) {d : Decision}
    → decision_for registry now a ≡ ok (some d)
    → (app : App) × (app_config a.app_id registry ≡ some app) × (decide app now a ≡ some d)
unfolding decision_for
decision_for-facts registry now a {d} h = elim (Option-cases (app_config a.app_id registry)) [
  | inl e ↦ ground arith
  | inr (app, e) ↦ (app, e, ground arith)
]

not_above :
    (registry : List App) (now : ℕ) (attempted : List String) (n : ℕ) (xs : List (ℕ × AppState))
    → All (λ y. y.0 ≤ n) xs
    → All (λ x. n < x.0 → IsPassed registry now attempted x.1) xs
not_above registry now attempted n [] all = tt
not_above registry now attempted n (x ∷ xs) (a, all) =
    ((λ h. absurd (omega (arith, a, h))), not_above registry now attempted n xs all)

extend :
    (registry : List App) (now : ℕ) (attempted : List String) (x : ℕ × AppState)
    (xs : List (ℕ × AppState)) {d : Decision}
    → IsPassed registry now attempted x.1
    → IsFirst registry now attempted xs d
    → IsFirst registry now attempted (x ∷ xs) d
extend registry now attempted x xs passed c = record {
  row = c.row;
  score = c.score;
  listed = inr c.listed;
  app = c.app;
  registered = c.registered;
  is_enabled = c.is_enabled;
  not_attempted = c.not_attempted;
  decided = c.decided;
  has_task = c.has_task;
  gate_open = c.gate_open;
  highest = ((λ h. passed), c.highest);
}

first_due-IsFirst :
    (registry : List App) (now : ℕ) (attempted : List String) (xs : List (ℕ × AppState))
    {d : Decision}
    → IsRanked xs
    → first_due registry now attempted xs ≡ ok (some d)
    → IsFirst registry now attempted xs d
unfolding first_due
first_due-IsFirst registry now attempted [] r h = ground arith
first_due-IsFirst registry now attempted ((n, a) ∷ rest) {d} (below, r) h =
    elim (Bool-cases (member a.app_id attempted)) [
      | inl e ↦
          extend registry now attempted (n, a) rest (inl e)
            (first_due-IsFirst registry now attempted rest r (ground arith))
      | inr e ↦ elim (Result-cases (decision_for registry now a)) [
        | inr (x, f) ↦ ground arith
        | inl (none, f) ↦
            extend registry now attempted (n, a) rest (inr f)
              (first_due-IsFirst registry now attempted rest r (ground arith))
        | inl (some d', f) ↦
            let taken : decision_for registry now a ≡ ok (some d) = ground arith in
            let (app, registered, decided) = decision_for-facts registry now a taken in
            let (enabled, is_decision, task, gate) = decide-facts app now a decided in
            record {
              row = a;
              score = n;
              listed = inl refl;
              app = app;
              registered = registered;
              is_enabled = enabled;
              not_attempted = e;
              decided = is_decision;
              has_task = task;
              gate_open = gate;
              highest = (
                (λ above. absurd (omega (arith, above))),
                not_above registry now attempted n rest below,
              );
            }
      ]
    ]

module _ (int_of_text : String → Option ℤ) (registry : List App) where
  -- A decision that `choose_next` returns is for a row of the store whose app is enabled, was not
  -- attempted, has a task and whose retry gate is open; and every app of the store with a higher
  -- portfolio score than the app of that row was attempted or has no decision.
  pub choose_next-IsChosen :
      (now : ℕ) (attempted : List String) (s : Store) {d : Decision}
      → choose_next int_of_text registry now attempted s ≡ ok (some d)
      → IsChosen int_of_text registry now attempted (list_apps s) d
  unfolding choose_next
  choose_next-IsChosen now attempted s {d} h =
      let (states, p, q) = >>=-returns (scored int_of_text registry (list_apps s)) _ h in
      let sorted = sort_by scored_before states in
      let c = first_due-IsFirst registry now attempted sorted (sort_by-IsRanked states) q in
      let scores : All (IsScored int_of_text registry (list_apps s)) sorted =
        All-sort_by (IsScored int_of_text registry (list_apps s)) scored_before states
          (scored-IsScored int_of_text registry (list_apps s) states p) in
      let mine =
        All-IsIn (IsScored int_of_text registry (list_apps s)) sorted (c.score, c.row) scores
          c.listed in
      let P : ℕ × AppState → Type 0 = λ x. c.score < x.0 → IsPassed registry now attempted x.1 in
      record {
        row = c.row;
        listed = mine.0;
        score = c.score;
        has_score = mine.1;
        app = c.app;
        registered = c.registered;
        is_enabled = c.is_enabled;
        not_attempted = c.not_attempted;
        decided = c.decided;
        has_task = c.has_task;
        gate_open = c.gate_open;
        highest =
            scored-All int_of_text registry P (list_apps s) states p
              (sort_by-All P scored_before states c.highest);
      }

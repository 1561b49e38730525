-- ===== src/FactoryCloud/StateStore/Laws.antt =====
-- What an update of one app does to the table of apps.
use obrasignal.Base.{
  ◌≡◌, refl, ℕ, String, Bool, false, some, List, [], ◌∷◌, arith, find?, update, count_if, map,
  Bool-cases, inl, inr, ◌∙◌,
}
use obrasignal.Base.Result.{ok}
use obrasignal.FactoryCloud.StateStore.{AppState, Store, is_app, get_app}
use obrasignal.FactoryCloud.StateStore.Calls.{
  Change, checkpoint, checkpointed, apply_change, apply_changes, mission, state, active, resume_at,
  canonical_head, execution_branch, execution_head, last_verified, last_green, priority,
  current_execution, error_state, retry_state, next, wait, blockers,
}

-- A column that a change keeps is kept in every row.
pub map-update :
    {A B : Type 0} (key : A → B) (p : A → Bool) (f : A → A)
    → ((x : A) → key (f x) ≡ key x)
    → (xs : List A) → map key (update p f xs) ≡ map key xs
map-update key p f kept [] = refl
map-update key p f kept (x ∷ xs) = elim (Bool-cases (p x)) [
  | inl e ↦ rw (e, kept x, map-update key p f kept xs)
  | inr e ↦ rw (e, map-update key p f kept xs)
]

pub find?-update :
    {A : Type 0} (p : A → Bool) (f : A → A)
    → ((x : A) → p (f x) ≡ p x)
    → (xs : List A) {x : A} → find? p xs ≡ some x
    → find? p (update p f xs) ≡ some (f x)
find?-update p f kept [] h = cc
find?-update p f kept (y ∷ ys) {x} h = elim (Bool-cases (p y)) [
  | inl e ↦ ground (arith, e, kept y)
  | inr e ↦ ground (arith, e, kept y, find?-update p f kept ys {x = x})
]

count_if-update_other :
    {A : Type 0} (p : A → Bool) (f : A → A)
    → ((x : A) → p (f x) ≡ false)
    → (xs : List A) → count_if p (update p f xs) ≡ 0
count_if-update_other p f gone [] = refl
count_if-update_other p f gone (y ∷ ys) = elim (Bool-cases (p y)) [
  | inl e ↦ ground (arith, e, gone y, count_if-update_other p f gone ys)
  | inr e ↦ ground (arith, e, count_if-update_other p f gone ys)
]

apply_change-app_id : (c : Change) (a : AppState) → (apply_change c a).app_id ≡ a.app_id
apply_change-app_id (mission x) a = refl
apply_change-app_id (state x) a = refl
apply_change-app_id (active x) a = refl
apply_change-app_id (resume_at x) a = refl
apply_change-app_id (canonical_head x) a = refl
apply_change-app_id (execution_branch x) a = refl
apply_change-app_id (execution_head x) a = refl
apply_change-app_id (last_verified x) a = refl
apply_change-app_id (last_green x) a = refl
apply_change-app_id (priority x) a = refl
apply_change-app_id (current_execution x) a = refl
apply_change-app_id (error_state x) a = refl
apply_change-app_id (retry_state x) a = refl
apply_change-app_id (next x) a = refl
apply_change-app_id (wait x) a = refl
apply_change-app_id (blockers x) a = refl

apply_changes-app_id : (cs : List Change) (a : AppState) → (apply_changes cs a).app_id ≡ a.app_id
apply_changes-app_id [] a = refl
apply_changes-app_id (c ∷ cs) a =
    apply_changes-app_id cs (apply_change c a) ∙ apply_change-app_id c a

checkpointed-is_app :
    (app_id : String) (cs : List Change) (now : ℕ) (a : AppState)
    → is_app app_id (checkpointed cs now a) ≡ is_app app_id a
checkpointed-is_app app_id cs now a = rw (apply_changes-app_id cs a)

-- A checkpoint writes the row of its app, and leaves the history.
pub checkpoint-get_app :
    (app_id : String) (cs : List Change) (now : ℕ) (s : Store) {a : AppState} {t : Store}
    → get_app app_id s ≡ some a
    → checkpoint app_id cs now s ≡ ok t
    → (get_app app_id t ≡ some (checkpointed cs now a)) × (t.executions ≡ s.executions)
unfolding checkpoint
checkpoint-get_app app_id cs now s {a} {t} g h = ground (
  arith,
  find?-update (is_app app_id) (checkpointed cs now) (checkpointed-is_app app_id cs now) s.apps
      {x = a} g,
)

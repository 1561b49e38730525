-- ===== src/FactoryCloud/StateStore/Calls.antt =====
-- factory_cloud/state_store.py: checkpoints and executions.
use obrasignal.Base.{
  ℕ, String, Bool, true, false, ◌&&◌, Option, none, some, List, [], ◌∷◌, ◌++◌, select, update,
  count_if, take, if◌then◌else◌, ◌==◌ as nat_eq,
}
use obrasignal.Base.Int.{ℤ}
use obrasignal.Base.Text.{◌==◌}
use obrasignal.Base.Json.{Fields}
use obrasignal.Base.Result.{Result, ok, err}
use obrasignal.FactoryCloud.StateStore.{
  StateError, unknown_app, foreign_key, execution_not_found, Retry, Payload, AppState, Execution,
  Store, is_app,
}

-- The columns that a checkpoint may set; another name raises StateStoreError, and has no constructor.
pub data Change : Type 0 where
  mission state active resume_at : String → Change
  canonical_head execution_branch execution_head last_verified last_green : Option String → Change
  priority : ℤ → Change
  current_execution : Option Payload → Change
  error_state : Option Fields → Change
  retry_state : Retry → Change
  next wait blockers : List String → Change

abbrev pub apply_change : Change → AppState → AppState
apply_change (mission x) a = record a { mission = x }
apply_change (state x) a = record a { state = x }
apply_change (active x) a = record a { active = x }
apply_change (resume_at x) a = record a { resume_at = x }
apply_change (canonical_head x) a = record a { canonical_head = x }
apply_change (execution_branch x) a = record a { execution_branch = x }
apply_change (execution_head x) a = record a { execution_head = x }
apply_change (last_verified x) a = record a { last_verified = x }
apply_change (last_green x) a = record a { last_green = x }
apply_change (priority x) a = record a { priority = x }
apply_change (current_execution x) a = record a { current_execution = x }
apply_change (error_state x) a = record a { error_state = x }
apply_change (retry_state x) a = record a { retry_state = x }
apply_change (next x) a = record a { next = x }
apply_change (wait x) a = record a { wait = x }
apply_change (blockers x) a = record a { blockers = x }

abbrev pub apply_changes : List Change → AppState → AppState
apply_changes [] a = a
apply_changes (c ∷ cs) a = apply_changes cs (apply_change c a)

abbrev pub checkpointed : List Change → ℕ → AppState → AppState
checkpointed changes now a = record (apply_changes changes a) { updated_at = now }

unfoldable pub checkpoint :
    (app_id : String) → List Change → (now : ℕ) → Store → Result StateError Store
checkpoint app_id changes now s =
    if nat_eq (count_if (is_app app_id) s.apps) 1
    then ok (record s { apps = update (is_app app_id) (checkpointed changes now) s.apps })
    else err unknown_app

abbrev pub started : (app_id execution_id task : String) (now : ℕ) → Execution
started app_id execution_id task now = record {
  app_id = app_id;
  execution_id = execution_id;
  status = "EXECUTING";
  task = task;
  evidence = Fields.end;
  error = none;
  started_at = now;
  finished_at = none;
}

abbrev pub executing : (task : String) → Payload → ℕ → AppState → AppState
executing task payload now a = record a {
  state = "EXECUTING";
  current_execution = some payload;
  resume_at = task;
  updated_at = now;
}

-- The INSERT is under the foreign key on app_state.
unfoldable pub start_execution :
    (app_id execution_id task : String) → Payload → (now : ℕ) → Store → Result StateError Store
start_execution app_id execution_id task payload now s =
    if nat_eq (count_if (is_app app_id) s.apps) 0
    then err foreign_key
    else ok (record {
      apps = update (is_app app_id) (executing task payload now) s.apps;
      executions = s.executions ++ started app_id execution_id task now ∷ [];
    })

abbrev is_unfinished : Execution → Bool
is_unfinished x = elim x.finished_at [ none ↦ true | some t ↦ false ]

-- `WHERE app_id=? AND execution_id=? AND finished_at IS NULL`
abbrev is_active_execution : (app_id execution_id : String) → Execution → Bool
is_active_execution app_id execution_id x =
    x.app_id == app_id && (x.execution_id == execution_id && is_unfinished x)

-- `error if error else None`
abbrev kept_error : Option Fields → Option Fields
kept_error none = none
kept_error (some Fields.end) = none
kept_error (some (Fields.field k v fs)) = some (Fields.field k v fs)

abbrev pub closed :
    (status : String) (evidence : Fields) → Option Fields → ℕ → Execution → Execution
closed status evidence error now x = record x {
  status = status;
  evidence = evidence;
  error = kept_error error;
  finished_at = some now;
}

unfoldable pub finish_execution :
    (app_id execution_id status : String) (evidence : Fields) (error : Option Fields) (now : ℕ)
    → Store
    → Result StateError Store
finish_execution app_id execution_id status evidence error now s =
    if nat_eq (count_if (is_active_execution app_id execution_id) s.executions) 1
    then ok (record s {
      executions =
          update (is_active_execution app_id execution_id) (closed status evidence error now)
            s.executions;
    })
    else err execution_not_found

newest_first : List Execution → List Execution
newest_first [] = []
newest_first (x ∷ xs) = newest_first xs ++ x ∷ []

-- `history`
unfoldable pub history : (app_id : String) (limit : ℕ) → Store → List Execution
unfolding newest_first
history app_id limit s = take limit (newest_first (select (λ x. x.app_id == app_id) s.executions))

-- ===== src/FactoryCloud/Orchestrator/Cycle.antt =====
-- factory_cloud/orchestrator.py: recovery at the start, one execution, and the cycle. An exception
-- leaves the store as the transactions before it have left it, so a result stands beside the store.
-- `host k` gives the injected adapters as they are at the k-th dispatch, `ids k` its UUID and
-- `clock k` its time.
use obrasignal.Base.{
  ℕ, zero, suc, ◌+◌, String, Bool, true, false, not, ◌||◌, Option, none, some, List, [], ◌∷◌,
  if◌then◌else◌,
}
use obrasignal.Base.Text.{◌==◌, nonempty, or_none, strip, member}
use obrasignal.Base.Int.{ℤ}
use obrasignal.Base.Json.{Fields, end, field, str}
use obrasignal.Base.Result.{Result, ok, err}
use obrasignal.FactoryCloud.Adapters.{
  ExecutionRequest, ExecutionResult, result_of, Adapter, for_app, text_json,
}
use obrasignal.FactoryCloud.StateStore.{
  App, AppState, Retry, Payload, Store, StateError, get_app, list_apps, upsert_from_registry,
}
use obrasignal.FactoryCloud.StateStore.Calls.{Change, checkpoint, start_execution, finish_execution}
use obrasignal.FactoryCloud.Orchestrator.{
  Decision, OrchestratorError, store_error, unsupported_mode, decision_for, priority_score,
  choose_next,
}
use obrasignal.FactoryCloud.Orchestrator.Checkpoint.{validated_result, checkpoint_result}

-- `recover_registry`
unfoldable recover_registry : (ℕ → String) → List App → (now : ℕ) → Store → Store
recover_registry iso [] now s = s
recover_registry iso (app ∷ apps) now s =
    recover_registry iso apps now
      (elim app.enabled [ true ↦ upsert_from_registry iso app now s | false ↦ s ])

abbrev pub interrupted : (now : ℕ) → Retry → Retry
interrupted now retry = record retry {
  interrupted_count = retry.interrupted_count + 1;
  last_interrupted_at = some now;
}

abbrev pub interruption : (task execution_id : String) (history : Fields) → Fields
interruption task execution_id history =
    field "type" (str "PROCESS_INTERRUPTED")
      (field "task" (str task) (field "execution_id" (text_json (or_none execution_id)) history))

-- `str(current.get("task") or app.get("resume_at") or app.get("active") or "")`
abbrev pub interrupted_task : AppState → Payload → String
interrupted_task a p =
    if nonempty p.request.task
    then p.request.task
    else if nonempty a.resume_at
    then a.resume_at
    else a.active

abbrev pub recovery : (task : String) (error : Fields) (now : ℕ) → AppState → List Change
recovery task error now a =
    Change.state "READY"
    ∷ Change.active task
    ∷ Change.resume_at task
    ∷ Change.current_execution none
    ∷ Change.retry_state (interrupted now a.retry_state)
    ∷ Change.error_state (some error)
    ∷ []

-- The closing of the history, where the payload names its execution; a failure is noted in the error.
unfoldable pub close_history :
    (ℕ → String) → (app_id execution_id task : String) (now : ℕ) → Store → Fields × Store
close_history iso app_id execution_id task now s =
    if not (nonempty execution_id)
    then (interruption task execution_id end, s)
    else elim (finish_execution app_id execution_id "INTERRUPTED"
        (field "recovered_at" (str (iso now)) (field "resume_at" (str task) end))
        (some (interruption task execution_id end)) now s) [
          | ok t ↦ (interruption task execution_id end, t)
          | err e ↦ (
            interruption task execution_id
                (field "history_error" (str "interrupted_history_not_closable") end),
            s,
          )
        ]

-- The body of the loop of `recover_interrupted_executions`.
unfoldable pub recover_app : (ℕ → String) → (now : ℕ) → AppState → Store → Result StateError Store
unfolding close_history
recover_app iso now a s = elim a.current_execution [
  | none ↦ ok s
  | some p ↦
      if a.state == "EXECUTING"
      then (let task = interrupted_task a p in
          let (error, t) = close_history iso a.app_id (strip p.execution_id) task now s in
          checkpoint a.app_id (recovery task error now a) now t)
      else ok s
]

recover_all : (ℕ → String) → (now : ℕ) → List AppState → Store → Result StateError Store
recover_all iso now [] s = ok s
recover_all iso now (a ∷ others) s = elim (recover_app iso now a s) [
  | err e ↦ err e
  | ok t ↦ recover_all iso now others t
]

unfoldable recover_interrupted_executions :
    (ℕ → String) → (now : ℕ) → Store → Result StateError Store
unfolding recover_all
recover_interrupted_executions iso now s = recover_all iso now (list_apps s) s

abbrev pub request_of : Decision → ExecutionRequest
request_of d = record {
  app_id = d.app_id;
  mode = d.mode;
  task = d.task;
  source = d.source;
  canonical_head = d.canonical_head;
  resume_at = d.resume_at;
  execution_branch = d.execution_branch;
  execution_head = d.execution_head;
  required_capabilities = d.required_capabilities;
}

-- What is made of an adapter's exception, by the name of its type.
abbrev pub adapter_result : Decision → Result String ExecutionResult → ExecutionResult
adapter_result d (ok r) = r
adapter_result d (err name) =
    result_of "ERROR" (field "exception_type" (str name) end) d.task
      ("adapter_execution_error" ∷ []) d.task (some (field "type" (str name) end))

-- The end of `execute_one`: the history is closed, then the row is written.
unfoldable pub record_result :
    (execution_id : String)
    → Decision
    → ExecutionResult
    → (now : ℕ) → Store
    → Result OrchestratorError ExecutionResult × Store
record_result execution_id d r now s =
    elim (finish_execution d.app_id execution_id r.status r.evidence r.error now s) [
      | err e ↦ (err (store_error e), s)
      | ok t ↦ elim (checkpoint_result d r now t) [ err e ↦ (err e, t) | ok u ↦ (ok r, u) ]
    ]

-- `execute_one`; a mode without an adapter raises ValueError.
unfoldable pub execute_one :
    List App
    → (String → Option Adapter)
    → (execution_id : String) (now : ℕ) → Decision
    → Store
    → Result OrchestratorError ExecutionResult × Store
unfolding record_result
execute_one registry overrides execution_id now d s =
    elim (start_execution d.app_id execution_id d.task
      (record { execution_id = execution_id; request = request_of d }) now s) [
        | err e ↦ (err (store_error e), s)
        | ok t ↦ elim (for_app overrides d.app_id d.mode) [
          | none ↦ (err (unsupported_mode d.mode), t)
          | some adapter ↦
              elim (validated_result registry d (adapter_result d (adapter (request_of d)))) [
                | err e ↦ (err e, t)
                | ok r ↦ record_result execution_id d r now t
              ]
        ]
      ]

pub record Dispatch : Type 0 where
  pub app_id : String
  pub task : String
  pub status : String
  pub evidence : Fields
  pub portfolio_priority_score : ℕ

abbrev pub dispatch : Decision → ExecutionResult → (score : ℕ) → Dispatch
dispatch d r score = record {
  app_id = d.app_id;
  task = d.task;
  status = r.status;
  evidence = r.evidence;
  portfolio_priority_score = score;
}

-- Whether a dispatched app is left for the same cycle: it is DONE, and has a next decision.
unfoldable pub goes_on :
    List App → (now : ℕ) → Decision → ExecutionResult → Store → Result OrchestratorError Bool
goes_on registry now d r s =
    if not (r.status == "DONE") then ok false else elim (get_app d.app_id s) [
      | none ↦ ok false
      | some a ↦ elim (decision_for registry now a) [
        | err e ↦ err e
        | ok none ↦ ok false
        | ok (some next) ↦ ok true
      ]
    ]

abbrev attempt_more : Bool → String → List String → List String
attempt_more true app_id attempted = attempted
attempt_more false app_id attempted = app_id ∷ attempted

-- The dispatches of a cycle with the apps that were attempted, or the exception that ends it.
abbrev Outcome : Type 0
Outcome = Result OrchestratorError (List Dispatch × List String) × Store

abbrev pub prepend : Dispatch → Outcome → Outcome
prepend x (ok (xs, attempted), s) = (ok (x ∷ xs, attempted), s)
prepend x (err e, s) = (err e, s)

module _ (registry : List App) (int_of_text : String → Option ℤ)
    (host : ℕ → String → Option Adapter) (ids : ℕ → String) (clock : ℕ → ℕ) where
  -- One round of the loop of `run_cycle`, from a decision on.
  unfoldable pub run_one :
      (k : ℕ) (attempted : List String)
      → Decision
      → Store
      → Result OrchestratorError (Dispatch × List String) × Store
  run_one k attempted d s =
      let (result, t) = execute_one registry (host k) (ids k) (clock k) d s in
      elim result [
        | err e ↦ (err e, t)
        | ok r ↦ elim (priority_score int_of_text registry d.app_id) [
          | err e ↦ (err e, t)
          | ok score ↦ elim (goes_on registry (clock k) d r t) [
            | err e ↦ (err e, t)
            | ok more ↦ (ok (dispatch d r score, attempt_more more d.app_id attempted), t)
          ]
        ]
      ]

  -- The loop of `run_cycle`: `left` is what `max_dispatches` leaves, and each round dispatches.
  unfoldable pub dispatch_loop : (left k : ℕ) (attempted : List String) → Store → Outcome
  dispatch_loop zero k attempted s = (ok ([], attempted), s)
  dispatch_loop (suc left) k attempted s =
      elim (choose_next int_of_text registry (clock k) attempted s) [
        | err e ↦ (err e, s)
        | ok none ↦ (ok ([], attempted), s)
        | ok (some d) ↦
            let (round, t) = run_one k attempted d s in
            elim round [
              | err e ↦ (err e, t)
              | ok r ↦ prepend r.0 (dispatch_loop left (suc k) r.1 t)
            ]
      ]

  -- The states for which a decision is left: `eligible`.
  unfoldable is_eligible :
      (now : ℕ) (attempted : List String) → List AppState → Result OrchestratorError Bool
  is_eligible now attempted [] = ok false
  is_eligible now attempted (a ∷ others) = elim (decision_for registry now a) [
    | err e ↦ err e
    | ok none ↦ is_eligible now attempted others
    | ok (some d) ↦ elim (is_eligible now attempted others) [
      | err e ↦ err e
      | ok rest ↦ ok (not (member d.app_id attempted) || rest)
    ]
  ]

  -- The apps that are blocked, with their blockers.
  abbrev blockers_of : List AppState → List (String × List String)
  blockers_of [] = []
  blockers_of (a ∷ others) = elim a.blockers [
    | [] ↦ blockers_of others
    | (x ∷ xs) ↦ (a.app_id, x ∷ xs) ∷ blockers_of others
  ]

  pub record Report : Type 0 where
    pub dispatches : List Dispatch
    pub global_state : String
    pub blockers : List (String × List String)
    pub apps : List AppState

  abbrev report : (now : ℕ) → Outcome → Result OrchestratorError Report × Store
  report now (err e, s) = (err e, s)
  report now (ok (xs, attempted), s) = elim (is_eligible now attempted (list_apps s)) [
    | err e ↦ (err e, s)
    | ok ready ↦ (
      ok (record {
        dispatches = xs;
        global_state = if ready then "READY" else "WAIT";
        blockers = blockers_of (list_apps s);
        apps = list_apps s;
      }),
      s,
    )
  ]

  -- `run_cycle`; `now` is the time of its report.
  unfoldable run_cycle : (max_dispatches now : ℕ) → Store → Result OrchestratorError Report × Store
  unfolding dispatch_loop
  run_cycle max_dispatches now s = report now (dispatch_loop max_dispatches 0 [] s)

-- ===== src/FactoryCloud/Orchestrator/Checkpoint.antt =====
-- factory_cloud/orchestrator.py: the check of a result, the retry that it leads to, and its checkpoint.
use obrasignal.Base.{
  ℕ, zero, suc, ◌+◌, ◌-◌, ◌*◌, String, Bool, not, ◌&&◌, ◌||◌, none, some, List, [], ◌∷◌, leb,
  if◌then◌else◌,
}
use obrasignal.Base.Text.{◌==◌, nonempty, present, opt_eq, or_else, or_text, strip, member, all_of}
use obrasignal.Base.Json.{end, field, str}
use obrasignal.Base.Result.{Result, ok, err}
use obrasignal.FactoryCloud.Stamp.{at}
use obrasignal.FactoryCloud.Adapters.{ExecutionResult, result_of}
use obrasignal.FactoryCloud.StateStore.{App, AppState, Retry, no_retry, Store, StateError, get_app}
use obrasignal.FactoryCloud.StateStore.Calls.{Change, checkpoint}
use obrasignal.FactoryCloud.Orchestrator.{
  Decision, OrchestratorError, missing_app, state_vanished, store_error, seconds,
  wait_retry_seconds, blocked_retry_seconds, error_retry_base_seconds, max_retry_seconds,
  app_config, first_or_empty,
}

-- TERMINAL_SAFE_STATUSES
abbrev pub is_terminal_safe : String → Bool
is_terminal_safe s = s == "DONE" || s == "WAIT" || s == "BLOCKED" || s == "ERROR"

-- `[0-9a-f]`
abbrev pub is_hex : ℕ → Bool
is_hex c = (leb 48 c && leb c 57) || (leb 97 c && leb c 102)

-- `_SHA_RE.fullmatch`
unfoldable pub is_sha : String → Bool
is_sha s = all_of is_hex 40 s

abbrev invalid_status : Decision → ExecutionResult → ExecutionResult
invalid_status d r =
    result_of "ERROR" (field "invalid_adapter_status" (str r.status) end) d.task
      ("invalid_adapter_status" ∷ []) d.task
      (some (field "type" (str "INVALID_ADAPTER_STATUS") (field "status" (str r.status) end)))

abbrev invalid_source : Decision → ExecutionResult
invalid_source d =
    result_of "ERROR" (field "task_state" (str "INVALID_EXECUTION_SOURCE_RESULT") end) d.task
      ("invalid_execution_source_result" ∷ []) d.task
      (some (field "type" (str "INVALID_EXECUTION_SOURCE_RESULT") end))

abbrev canonical_mutation : Decision → ExecutionResult
canonical_mutation d =
    result_of "ERROR" (field "task_state" (str "CANONICAL_BRANCH_MUTATION_REJECTED") end) d.task
      ("canonical_branch_mutation_rejected" ∷ []) d.task
      (some (field "type" (str "CANONICAL_BRANCH_MUTATION_REJECTED") end))

abbrev pub canonical_branch : App → String
canonical_branch app = strip (or_text app.canonical_branch "")

-- `_validated_result` with the canonical branch of the app, which is empty where there is none.
unfoldable pub validated : (canonical : String) → Decision → ExecutionResult → ExecutionResult
validated canonical d r =
    if not (is_terminal_safe r.status)
    then invalid_status d r
    else if not (present r.execution_branch) && present r.execution_head
        || present r.execution_branch && not (present r.execution_head)
    then invalid_source d
    else if present r.execution_head
        && (not (r.status == "DONE") || not (is_sha (or_text r.execution_head "")))
    then invalid_source d
    else if present r.execution_branch
        && nonempty canonical
        && opt_eq r.execution_branch (some canonical)
    then canonical_mutation d
    else r

-- Whether the last test is reached, for which `_app_config` looks up the app.
abbrev names_branch : ExecutionResult → Bool
names_branch r =
    is_terminal_safe r.status
    && (present r.execution_branch
        && (present r.execution_head
            && (r.status == "DONE" && is_sha (or_text r.execution_head ""))))

-- `_validated_result`
unfoldable pub validated_result :
    List App → Decision → ExecutionResult → Result OrchestratorError ExecutionResult
validated_result registry d r = elim (app_config d.app_id registry) [
  | none ↦ if names_branch r then err (missing_app d.app_id) else ok (validated "" d r)
  | some app ↦ ok (validated (canonical_branch app) d r)
]

abbrev pub power_of_two : ℕ → ℕ
power_of_two zero = 1
power_of_two (suc n) = 2 * power_of_two n

-- `min(base * (2 ** max(0, attempts - 1)), MAX_RETRY_SECONDS)`
unfoldable pub retry_delay : (base attempts : ℕ) → ℕ
retry_delay base attempts =
    let delay = base * power_of_two (attempts - 1) in
    if leb delay max_retry_seconds then delay else max_retry_seconds

-- The items that stay to be done.
abbrev pub remaining : Decision → ExecutionResult → List String → List String
remaining d r [] = []
remaining d r (x ∷ xs) = if r.status == "DONE" && (x == d.task) then xs else x ∷ xs

abbrev next_items_of : Decision → ExecutionResult → AppState → List String
next_items_of d r a = elim r.next_items [ [] ↦ remaining d r a.next | (x ∷ xs) ↦ x ∷ xs ]

-- `next_active` of a terminal status: DONE goes on to the next item, another stays at the task.
abbrev next_active_of : Decision → ExecutionResult → AppState → String
next_active_of d r a =
    if nonempty r.next_active
    then r.next_active
    else if r.status == "DONE"
    then first_or_empty (next_items_of d r a)
    else if r.status == "WAIT" || r.status == "BLOCKED" || r.status == "ERROR"
    then d.task
    else r.next_active

abbrev after_error : Decision → (now : ℕ) → Retry → Retry
after_error d now retry =
    let attempts = retry.attempts + 1 in
    record retry {
      attempts = attempts;
      last_error_at = some now;
      next_attempt_at = some (at (now + seconds (retry_delay error_retry_base_seconds attempts)));
      retry_reason = some "ERROR";
      task = some d.task;
    }

abbrev after_wait : Decision → (status : String) (now : ℕ) → Retry → Retry
after_wait d status now retry =
    let attempts = retry.wait_attempts + 1 in
    let base = if status == "WAIT" then wait_retry_seconds else blocked_retry_seconds in
    record retry {
      wait_attempts = attempts;
      last_wait_at = some now;
      next_attempt_at = some (at (now + seconds (retry_delay base attempts)));
      retry_reason = some status;
      task = some d.task;
    }

abbrev pending_worker_blocker : String
pending_worker_blocker = "app_worker_execution_pending"

unfoldable pub next_retry : Decision → ExecutionResult → (now : ℕ) → Retry → Retry
next_retry d r now retry =
    if r.status == "ERROR"
    then after_error d now retry
    else if (r.status == "WAIT" || r.status == "BLOCKED")
        && not (member pending_worker_blocker r.blockers)
    then after_wait d r.status now retry
    else if r.status == "DONE"
    then no_retry
    else retry

abbrev resume_after : Decision → ExecutionResult → AppState → String
resume_after d r a =
    let next_active = next_active_of d r a in
    let next_or_task = if nonempty next_active then next_active else d.task in
    if r.status == "DONE"
    then next_or_task
    else if nonempty r.resume_at
    then r.resume_at
    else next_or_task

abbrev branch_changes : ExecutionResult → List Change
branch_changes r =
    if r.status == "DONE" && (present r.execution_head && present r.execution_branch)
    then Change.execution_branch r.execution_branch ∷ Change.execution_head r.execution_head ∷ []
    else []

-- The dictionary `checkpoint` of `_checkpoint_result`.
unfoldable pub changes_of : Decision → ExecutionResult → (now : ℕ) → AppState → List Change
unfolding next_retry
changes_of d r now a =
    Change.state (if r.status == "DONE" then "READY" else r.status)
    ∷ Change.active (next_active_of d r a)
    ∷ Change.next (next_items_of d r a)
    ∷ Change.wait (elim r.wait_items [ [] ↦ a.wait | (x ∷ xs) ↦ x ∷ xs ])
    ∷ Change.blockers r.blockers
    ∷ Change.last_verified (or_else r.last_verified a.last_verified)
    ∷ Change.last_green (or_else (or_else r.last_green r.execution_head) a.last_green)
    ∷ Change.resume_at (resume_after d r a)
    ∷ Change.current_execution none
    ∷ Change.error_state r.error
    ∷ Change.retry_state (next_retry d r now a.retry_state)
    ∷ branch_changes r

-- What the state store raises leaves the orchestrator.
abbrev pub stored : {A : Type 0} → Result StateError A → Result OrchestratorError A
stored (ok a) = ok a
stored (err e) = err (store_error e)

-- `_checkpoint_result`
unfoldable pub checkpoint_result :
    Decision → ExecutionResult → (now : ℕ) → Store → Result OrchestratorError Store
checkpoint_result d r now s = elim (get_app d.app_id s) [
  | none ↦ err (state_vanished d.app_id)
  | some a ↦ stored (checkpoint d.app_id (changes_of d r now a) now s)
]

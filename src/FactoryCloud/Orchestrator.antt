-- ===== src/FactoryCloud/Orchestrator.antt =====
-- factory_cloud/orchestrator.py: decisions, the check of a result, and the checkpoint after it. The
-- clock `now` is one reading for each call; `iso` writes an instant as text and `int_of_text` is
-- `int` on a text.
pub mod Checkpoint
pub mod Canonical
pub mod Cycle
pub mod Ranking
pub mod Decisions
pub mod Recovery
pub mod Results
pub mod Tests
use obrasignal.Base.{
  ℕ, zero, suc, ◌+◌, ◌-◌, ◌*◌, String, Bool, true, false, not, ◌&&◌, ◌||◌, Option, none, some, List,
  [], ◌∷◌, find?, sort_by, ltb, leb, if◌then◌else◌, ◌==◌ as nat_eq,
}
use obrasignal.Base.Text.{
  ◌==◌, nonempty, present, opt_eq, or_else, or_none, or_text, strip, leb_text, member, all_of,
}
use obrasignal.Base.Int.{ℤ}
use obrasignal.Base.Json.{Fields, end, field, str}
use obrasignal.Base.Result.{Result, ok, err, ◌>>=◌}
use obrasignal.FactoryCloud.Stamp.{Stamp, at, unreadable, has_passed}
use obrasignal.FactoryCloud.Adapters.{ExecutionRequest, ExecutionResult, result_of}
use obrasignal.FactoryCloud.Priority.{from_app, score}
use obrasignal.FactoryCloud.StateStore.{
  App, AppState, Retry, no_retry, Store, StateError, repo_source_of, get_app, list_apps,
}
use obrasignal.FactoryCloud.StateStore.Calls.{Change, checkpoint}
use obrasignal.FactoryCloud.StateStore

pub record Decision : Type 0 where
  pub app_id : String
  pub mode : String
  pub task : String
  pub source : Option String
  pub canonical_head : Option String
  pub resume_at : String
  pub execution_branch : Option String
  pub execution_head : Option String
  pub required_capabilities : List String

pub data OrchestratorError : Type 0 where
  missing_app invalid_priority state_vanished unsupported_mode : String → OrchestratorError
  store_error : StateError → OrchestratorError

-- Seconds, as the microseconds of the clock.
abbrev pub seconds : ℕ → ℕ
seconds n = n * 1000000

-- WAIT_RETRY_SECONDS, BLOCKED_RETRY_SECONDS, ERROR_RETRY_BASE_SECONDS, MAX_RETRY_SECONDS
abbrev pub wait_retry_seconds : ℕ
wait_retry_seconds = 60

abbrev pub blocked_retry_seconds : ℕ
blocked_retry_seconds = 300

abbrev pub error_retry_base_seconds : ℕ
error_retry_base_seconds = 30

abbrev pub max_retry_seconds : ℕ
max_retry_seconds = 900

-- `_retry_gate_open`
unfoldable pub retry_gate_open : Retry → (task : String) (now : ℕ) → Bool
retry_gate_open retry task now =
    if not (opt_eq retry.task (some task)) then true else elim retry.next_attempt_at [
      | none ↦ true
      | some (at t) ↦ leb t now
      | some (unreadable raw) ↦ not (nonempty raw)
    ]

-- `self._apps`: of two entries with one id the later is kept.
unfoldable pub app_config : String → List App → Option App
app_config app_id [] = none
app_config app_id (a ∷ others) = elim (app_config app_id others) [
  | some b ↦ some b
  | none ↦ if a.app_id == app_id then some a else none
]

abbrev pub first_or_empty : List String → String
first_or_empty [] = ""
first_or_empty (x ∷ xs) = x

-- `active or (next_items[0] if next_items else "")`
abbrev pub task_of : AppState → String
task_of a = let active = strip a.active in if nonempty active then active else first_or_empty a.next

abbrev safe_mode : String
safe_mode = "repository_safe_execution"

-- `str(first or "").strip() or str(second or "").strip() or str(third or "").strip() or None`
abbrev first_stripped : (a b c : Option String) → Option String
first_stripped a b c =
    or_else (or_else (StateStore.stripped a) (StateStore.stripped b)) (StateStore.stripped c)

-- `contracts.get(task, [])`
abbrev pub contract : String → List (String × List String) → List String
contract task [] = []
contract task ((t, cs) ∷ rest) = elim (t == task) [ true ↦ cs | false ↦ contract task rest ]

abbrev pub decision : App → AppState → (task : String) → Decision
decision app a task =
    let is_safe = app.mode == safe_mode in
    record {
      app_id = a.app_id;
      mode = app.mode;
      task = task;
      source =
          if is_safe
          then or_else app.execution_repository (repo_source_of app)
          else repo_source_of app;
      canonical_head = a.canonical_head;
      resume_at = if nonempty a.resume_at then a.resume_at else task;
      execution_branch =
          if is_safe
          then first_stripped a.execution_branch app.execution_branch app.canonical_branch
          else none;
      execution_head =
          if is_safe
          then first_stripped a.execution_head app.execution_head a.canonical_head
          else none;
      required_capabilities = contract task app.task_capabilities;
    }

-- `_decision_for` after `_app_config`.
unfoldable pub decide : App → (now : ℕ) → AppState → Option Decision
unfolding retry_gate_open
decide app now a =
    let task = task_of a in
    if not app.enabled
    then none
    else if not (nonempty task)
    then none
    else if retry_gate_open a.retry_state task now
    then some (decision app a task)
    else none

unfoldable pub decision_for :
    List App → (now : ℕ) → AppState → Result OrchestratorError (Option Decision)
decision_for registry now a = elim (app_config a.app_id registry) [
  | none ↦ err (missing_app a.app_id)
  | some app ↦ ok (decide app now a)
]

module _ (int_of_text : String → Option ℤ) where
  -- `_priority_score`
  unfoldable pub priority_score : List App → String → Result OrchestratorError ℕ
  priority_score registry app_id = elim (app_config app_id registry) [
    | none ↦ err (missing_app app_id)
    | some app ↦ elim (from_app int_of_text app.document) [
      | ok signals ↦ ok (score signals)
      | err e ↦ err (invalid_priority app_id)
    ]
  ]

  -- The keys of `sorted`: any of them may raise.
  unfoldable pub scored : List App → List AppState → Result OrchestratorError (List (ℕ × AppState))
  scored registry [] = ok []
  scored registry (a ∷ others) = do
    n ← priority_score registry a.app_id
    rest ← scored registry others
    ok ((n, a) ∷ rest)

-- `(-score, app_id)`
abbrev pub scored_before : ℕ × AppState → ℕ × AppState → Bool
scored_before (m, a) (n, b) = ltb n m || (nat_eq m n && leb_text a.app_id b.app_id)

-- The loop of `choose_next`.
unfoldable pub first_due :
    List App
    → (now : ℕ) (attempted : List String) → List (ℕ × AppState)
    → Result OrchestratorError (Option Decision)
first_due registry now attempted [] = ok none
first_due registry now attempted ((n, a) ∷ rest) = elim (member a.app_id attempted) [
  | true ↦ first_due registry now attempted rest
  | false ↦ elim (decision_for registry now a) [
    | err e ↦ err e
    | ok (some d) ↦ ok (some d)
    | ok none ↦ first_due registry now attempted rest
  ]
]

module _ (int_of_text : String → Option ℤ) where
  unfoldable pub choose_next :
      List App
      → (now : ℕ) (attempted : List String) → Store
      → Result OrchestratorError (Option Decision)
  choose_next registry now attempted s = do
    states ← scored int_of_text registry (list_apps s)
    first_due registry now attempted (sort_by scored_before states)

-- ===== src/FactoryCloud/StateStore.antt =====
-- factory_cloud/state_store.py: the tables app_state and execution_history. A JSON column stands as
-- the value that its text encodes, so `_decode` is the identity. Each call is one transaction, and
-- `now` is what the clock reads in it. The rows of execution_history are in the order of their ids.
pub mod Calls
pub mod Laws
use obrasignal.Base.{
  ℕ, String, Bool, true, false, not, ◌&&◌, ◌||◌, Option, none, some, List, [], ◌∷◌, ◌++◌, find?,
  select, update, count_if, take, sort_by, if◌then◌else◌, ◌==◌ as nat_eq,
}
use obrasignal.Base.Int.{ℤ, leb_ℤ}
use obrasignal.Base.Text.{◌==◌, nonempty, present, or_else, or_none, or_text, strip, leb_text}
use obrasignal.Base.Json.{Fields}
use obrasignal.Base.Result.{Result, ok, err}
use obrasignal.FactoryCloud.Stamp.{Stamp}
use obrasignal.FactoryCloud.Adapters.{ExecutionRequest}

pub data StateError : Type 0 where
  unknown_app foreign_key : StateError
  execution_not_found : StateError

-- One entry of the registry, with the keys that the code reads. `document` is the entry as the
-- dictionary that the portfolio priority reads.
pub record App : Type 0 where
  pub app_id : String
  pub mission : String
  pub development_state : Option String
  pub enabled : Bool
  pub mode : String
  pub priority : ℤ
  pub repository : Option String
  pub canonical_repository : Option String
  pub project : Option String
  pub canonical_head : Option String
  pub canonical_branch : Option String
  pub provider : Option String
  pub verified : Bool
  pub verified_runtime : Bool
  pub execution_repository : Option String
  pub execution_branch : Option String
  pub execution_head : Option String
  pub baton_active : Option String
  pub baton_next : List String
  pub baton_wait : List String
  pub task_capabilities : List (String × List String)
  pub document : Fields

-- The dictionary `retry_state`, by the keys that the code writes.
pub record Retry : Type 0 where
  pub task : Option String
  pub next_attempt_at : Option Stamp
  pub retry_reason : Option String
  pub attempts : ℕ
  pub wait_attempts : ℕ
  pub interrupted_count : ℕ
  pub last_error_at : Option ℕ
  pub last_wait_at : Option ℕ
  pub last_interrupted_at : Option ℕ

-- `{}`
abbrev pub no_retry : Retry
no_retry = record {
  task = none;
  next_attempt_at = none;
  retry_reason = none;
  attempts = 0;
  wait_attempts = 0;
  interrupted_count = 0;
  last_error_at = none;
  last_wait_at = none;
  last_interrupted_at = none;
}

-- The payload of an execution: its id, and the request.
pub record Payload : Type 0 where
  pub execution_id : String
  pub request : ExecutionRequest

pub record AppState : Type 0 where
  pub app_id : String
  pub mission : String
  pub repo_source : Option String
  pub canonical_head : Option String
  pub execution_branch : Option String
  pub execution_head : Option String
  pub runtime : Option String
  pub state : String
  pub active : String
  pub next : List String
  pub wait : List String
  pub blockers : List String
  pub last_verified : Option String
  pub last_green : Option String
  pub priority : ℤ
  pub resume_at : String
  pub current_execution : Option Payload
  pub error_state : Option Fields
  pub retry_state : Retry
  pub updated_at : ℕ

pub record Execution : Type 0 where
  pub app_id : String
  pub execution_id : String
  pub status : String
  pub task : String
  pub evidence : Fields
  pub error : Option Fields
  pub started_at : ℕ
  pub finished_at : Option ℕ

pub record Store : Type 0 where
  pub apps : List AppState
  pub executions : List Execution

abbrev pub is_app : String → AppState → Bool
is_app app_id a = a.app_id == app_id

-- `source.get("repository") or source.get("canonical_repository") or source.get("project")`
abbrev pub repo_source_of : App → Option String
repo_source_of app = or_else (or_else app.repository app.canonical_repository) app.project

-- `str(value or "").strip() or None`
abbrev pub stripped : Option String → Option String
stripped v = or_none (strip (or_text v ""))

-- `COALESCE(first, second)`
abbrev pub coalesce : {A : Type 0} → Option A → Option A → Option A
coalesce none b = b
coalesce (some a) b = some a

abbrev refreshed : App → ℕ → AppState → AppState
refreshed app now a = record a {
  repo_source = repo_source_of app;
  canonical_head = app.canonical_head;
  execution_branch = coalesce a.execution_branch (stripped app.execution_branch);
  execution_head = coalesce a.execution_head (stripped app.execution_head);
  runtime = app.provider;
  priority = app.priority;
  updated_at = now;
}

-- The row of an app that is new; `iso` writes an instant.
abbrev pub new_state : (ℕ → String) → App → ℕ → AppState
new_state iso app now = record {
  app_id = app.app_id;
  mission = app.mission;
  repo_source = repo_source_of app;
  canonical_head = app.canonical_head;
  execution_branch = stripped app.execution_branch;
  execution_head = stripped app.execution_head;
  runtime = app.provider;
  state = elim app.development_state [ none ↦ "UNKNOWN" | some s ↦ s ];
  active = or_text app.baton_active "";
  next = app.baton_next;
  wait = app.baton_wait;
  blockers = [];
  last_verified = if app.verified || app.verified_runtime then some (iso now) else none;
  last_green =
      or_else (stripped app.execution_head) (if app.verified then app.canonical_head else none);
  priority = app.priority;
  resume_at = or_text app.baton_active "";
  current_execution = none;
  error_state = none;
  retry_state = no_retry;
  updated_at = now;
}

-- `get_app`
abbrev pub get_app : String → Store → Option AppState
get_app app_id s = find? (is_app app_id) s.apps

unfoldable pub upsert_from_registry : (ℕ → String) → App → (now : ℕ) → Store → Store
upsert_from_registry iso app now s = elim (get_app app.app_id s) [
  | some a ↦ record s { apps = update (is_app app.app_id) (refreshed app now) s.apps }
  | none ↦ record s { apps = s.apps ++ new_state iso app now ∷ [] }
]

-- `ORDER BY priority DESC, app_id ASC`
abbrev listed_before : AppState → AppState → Bool
listed_before a b =
    not (leb_ℤ a.priority b.priority) || (leb_ℤ b.priority a.priority && leb_text a.app_id b.app_id)

-- `list_apps`
abbrev pub list_apps : Store → List AppState
list_apps s = sort_by listed_before s.apps

-- ===== src/FactoryCloud/Adapters.antt =====
-- factory_cloud/adapters.py: requests, results, and the two default adapters. An injected adapter is
-- code of the host, and enters as a function.
use obrasignal.Base.{String, Option, none, some, List, [], ◌∷◌, if◌then◌else◌}
use obrasignal.Base.Text.{◌==◌, or_else}
use obrasignal.Base.Json.{Json, null, str, arr, Items, nil, cons, Fields, end, field}
use obrasignal.Base.Result.{Result, ok}

pub record ExecutionRequest : Type 0 where
  pub app_id : String
  pub mode : String
  pub task : String
  pub source : Option String
  pub canonical_head : Option String
  pub resume_at : String
  pub execution_branch : Option String
  pub execution_head : Option String
  pub required_capabilities : List String

pub record ExecutionResult : Type 0 where
  pub status : String
  pub evidence : Fields
  pub next_active : String
  pub next_items : List String
  pub wait_items : List String
  pub blockers : List String
  pub resume_at : String
  pub last_verified : Option String
  pub last_green : Option String
  pub execution_branch : Option String
  pub execution_head : Option String
  pub error : Option Fields

-- `target_head`
abbrev target_head : ExecutionRequest → Option String
target_head r = or_else r.execution_head r.canonical_head

abbrev pub text_json : Option String → Json
text_json none = null
text_json (some s) = str s

abbrev pub texts : List String → Items
texts [] = nil
texts (s ∷ ss) = cons (str s) (texts ss)

-- An ExecutionResult with the defaults of the class for the fields that are not given.
abbrev pub result_of :
    (status : String) (evidence : Fields) (next_active : String) (blockers : List String)
    (resume_at : String)
    → Option Fields
    → ExecutionResult
result_of status evidence next_active blockers resume_at error = record {
  status = status;
  evidence = evidence;
  next_active = next_active;
  next_items = [];
  wait_items = [];
  blockers = blockers;
  resume_at = resume_at;
  last_verified = none;
  last_green = none;
  execution_branch = none;
  execution_head = none;
  error = error;
}

-- `RepositorySafeAdapter.execute`
unfoldable repository_safe : ExecutionRequest → ExecutionResult
repository_safe r =
    result_of "WAIT"
      (field "dispatch_boundary" (str "repository_tooling_adapter_required") (
        field "source" (text_json r.source) (
          field "canonical_head" (text_json r.canonical_head) (
            field "execution_head" (text_json r.execution_head) (
              field "execution_branch" (text_json r.execution_branch)
                (field "required_capabilities" (arr (texts r.required_capabilities)) end))))))
      r.task ("repository_tooling_adapter_required" ∷ []) r.task none

-- `ReadOnlySourceAdapter.execute`
unfoldable read_only_source : ExecutionRequest → ExecutionResult
read_only_source r =
    result_of "WAIT"
      (field "dispatch_boundary" (str "canonical_source_unresolved") (
        field "mode" (str r.mode) (
          field "source" (text_json r.source)
            (field "required_capabilities" (arr (texts r.required_capabilities)) end))))
      r.task ("canonical_source_truth_required_before_repository_mutation" ∷ []) r.task none

-- What an adapter does with a request: a result, or an exception with the name of its type.
abbrev pub Adapter : Type 0
Adapter = ExecutionRequest → Result String ExecutionResult

-- `AdapterRegistry.for_app`: `none` where it raises ValueError.
unfoldable pub for_app : (String → Option Adapter) → (app_id mode : String) → Option Adapter
unfolding repository_safe read_only_source
for_app overrides app_id mode = elim (overrides app_id) [
  | some adapter ↦ some adapter
  | none ↦
      if mode == "repository_safe_execution"
      then some (λ r. ok (repository_safe r))
      else if mode == "read_only_until_source_resolved"
      then some (λ r. ok (read_only_source r))
      else none
]

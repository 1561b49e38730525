-- ===== src/FactoryCloud/Orchestrator/Tests.antt =====
-- Runs of the orchestrator, and its theorems at a registry of two apps.
use obrasignal.Base.{
  ◌≡◌, refl, ℕ, ◌+◌, ◌*◌, ◌≤◌, if◌then◌else◌, String, true, Option, none, some, List, [], ◌∷◌,
  arith, leb, sort_by,
}
use obrasignal.Base.Int.{ℤ, pos}
use obrasignal.Base.Text.{strip, leb_text}
use obrasignal.Base.Json.{end, field, obj, int}
use obrasignal.Base.Result.{ok}
use obrasignal.FactoryCloud.Adapters.{Adapter, ExecutionResult, result_of}
use obrasignal.FactoryCloud.Priority.{from_app, from_objects, signal, score}
use obrasignal.FactoryCloud.StateStore.{
  App, AppState, Payload, Store, get_app, new_state, list_apps,
}
use obrasignal.FactoryCloud.StateStore.Calls.{
  executing, started, finish_execution, checkpoint, checkpointed,
}
use obrasignal.FactoryCloud.Orchestrator.{
  Decision, decision, app_config, decide, decision_for, retry_gate_open, priority_score, scored,
  first_due, choose_next, max_retry_seconds, seconds, error_retry_base_seconds,
}
use obrasignal.FactoryCloud.Orchestrator.Checkpoint.{
  canonical_branch, validated, validated_result, is_sha, retry_delay, changes_of, checkpoint_result,
}
use obrasignal.FactoryCloud.Orchestrator.Cycle.{
  dispatch_loop, request_of, recover_app, close_history,
}
use obrasignal.FactoryCloud.Orchestrator.Recovery.{recover_app-IsReady}
use obrasignal.FactoryCloud.Orchestrator.Results.{
  retry_delay-IsBackoff, IsSafe, validated_result-IsSafe, checkpoint_result-gate,
}
use obrasignal.FactoryCloud.Orchestrator.Decisions.{IsChosen, choose_next-IsChosen}
use obrasignal.FactoryCloud.Orchestrator.Canonical.{canonical, dispatch_loop-canonical}

abbrev app_of : (app_id : String) (safety : ℕ) → App
app_of app_id safety = record {
  app_id = app_id;
  mission = "radar";
  development_state = some "READY";
  enabled = true;
  mode = "repository_safe_execution";
  priority = pos 5;
  repository = some "owner/repo";
  canonical_repository = none;
  project = none;
  canonical_head = some "head";
  canonical_branch = some "main";
  provider = none;
  verified = true;
  verified_runtime = true;
  execution_repository = none;
  execution_branch = some "work";
  execution_head = none;
  baton_active = some "task";
  baton_next = "later" ∷ [];
  baton_wait = [];
  task_capabilities = [];
  document = field "portfolio_priority" (obj (field "safety_severity" (int (pos safety)) end)) end;
}

abbrev one : App
one = app_of "one" 1

abbrev two : App
two = app_of "two" 2

abbrev registry : List App
registry = one ∷ two ∷ []

abbrev iso : ℕ → String
iso t = "then"

abbrev row_one : AppState
row_one = new_state iso one 0

abbrev row_two : AppState
row_two = new_state iso two 0

abbrev store : Store
store = record { apps = row_one ∷ row_two ∷ []; executions = [] }

abbrev no_text : String → Option ℤ
no_text s = none

abbrev chosen : Decision
chosen = decision two row_two "task"

abbrev states : List (ℕ × AppState)
states = (10510100501, row_one) ∷ (21020201002, row_two) ∷ []

delay_test : retry_delay 30 4 ≡ 240
unfolding retry_delay
delay_test = refl

retry_delay-IsBackoff_example :
    (retry_delay 30 1 ≡ 30)
    × (retry_delay 30 5 ≡ (
        let twice = 2 * retry_delay 30 4 in
        if leb twice max_retry_seconds then twice else max_retry_seconds))
    × (30 ≤ retry_delay 30 4)
    × (retry_delay 30 4 ≤ max_retry_seconds)
retry_delay-IsBackoff_example = retry_delay-IsBackoff 30 3 (omega arith)

choose_two : choose_next no_text registry 10 [] store ≡ ok (some chosen)
unfolding choose_next scored priority_score first_due decision_for decide retry_gate_open app_config
    from_app from_objects signal score sort_by leb_text strip
choose_two = refl

choose_next-IsChosen_example : IsChosen no_text registry 10 [] (list_apps store) chosen
choose_next-IsChosen_example = choose_next-IsChosen no_text registry 10 [] store choose_two

-- A result that names the canonical branch.
abbrev on_main : ExecutionResult
on_main = record (result_of "DONE" end "" [] "" none) {
  execution_branch = some "main";
  execution_head = some "0123456789012345678901234567890123456789";
}

abbrev rejected : ExecutionResult
rejected = validated (canonical_branch two) chosen on_main

two_registered : app_config "two" registry ≡ some two
unfolding app_config
two_registered = refl

main_rejected : validated_result registry chosen on_main ≡ ok rejected
unfolding validated_result app_config
main_rejected = refl

rejected_status : rejected.status ≡ "ERROR"
unfolding validated is_sha strip
rejected_status = refl

validated_result-IsSafe_example : IsSafe two rejected
validated_result-IsSafe_example =
    validated_result-IsSafe registry chosen on_main two_registered main_rejected

abbrev failure : ExecutionResult
failure = result_of "ERROR" end "" [] "" none

abbrev failed_row : AppState
failed_row = checkpointed (changes_of chosen failure 10 row_two) 10 row_two

abbrev failed : Store
failed = record { apps = row_one ∷ failed_row ∷ []; executions = [] }

two_fails : checkpoint_result chosen failure 10 store ≡ ok failed
unfolding checkpoint_result checkpoint
two_fails = refl

checkpoint_result-gate_example :
    (a : AppState) × (get_app "two" failed ≡ some a)
    × (retry_gate_open a.retry_state "task" 20
        ≡ leb (10 + seconds (retry_delay error_retry_base_seconds 1)) 20)
checkpoint_result-gate_example =
    checkpoint_result-gate chosen failure 10 20 store {a = row_two} refl refl two_fails

abbrev no_override : ℕ → String → Option Adapter
no_override k app_id = none

abbrev id_of : ℕ → String
id_of k = "execution"

abbrev minute : ℕ → ℕ
minute k = k

dispatch_loop-canonical_example :
    canonical (dispatch_loop registry no_text no_override id_of minute 3 0 [] store).1
    ≡ canonical store
dispatch_loop-canonical_example =
    dispatch_loop-canonical registry no_text no_override id_of minute 3 0 [] store

abbrev running : Payload
running = record { execution_id = "x1"; request = request_of chosen }

abbrev running_row : AppState
running_row = executing "task" running 4 row_two

abbrev interrupted_store : Store
interrupted_store = record {
  apps = row_one ∷ running_row ∷ [];
  executions = started "two" "x1" "task" 4 ∷ [];
}

recovered : (t : Store) × (recover_app iso 30 running_row interrupted_store ≡ ok t)
unfolding recover_app close_history finish_execution checkpoint strip
recovered = (_, refl)

recover_app-IsReady_example :
    (a : AppState) × (get_app "two" recovered.0 ≡ some a)
    × (a.state ≡ "READY")
    × (a.active ≡ "task")
    × (a.resume_at ≡ "task")
    × (a.current_execution ≡ none)
    × (a.retry_state.interrupted_count ≡ 1)
recover_app-IsReady_example =
    recover_app-IsReady iso 30 running_row running interrupted_store refl refl refl recovered.1

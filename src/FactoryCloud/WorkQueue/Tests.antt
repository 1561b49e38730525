-- ===== src/FactoryCloud/WorkQueue/Tests.antt =====
-- Runs of the queue, and the theorems at a concrete job.
use obrasignal.Base.{◌≡◌, refl, String, Bool, true, none, some, List, [], ◌∷◌, ◌≢◌, arith}
use obrasignal.Base.Text.{eq_iff}
use obrasignal.Base.Json.{end}
use obrasignal.Base.Result.{ok, err}
use obrasignal.FactoryCloud.Adapters.{ExecutionRequest, ExecutionResult, result_of}
use obrasignal.FactoryCloud.WorkQueue.{
  Job, Queue, new_job, claimed, done, claim, choose, by_created, finish, finished, consume,
  submit_or_get, insert_job, newest, terminal_of, claim_lost, not_consumable,
}
use obrasignal.FactoryCloud.WorkQueue.Claims.{
  IsGranted, claim-IsGranted, choose_exclusive, finish_after_takeover, consume_once, consumed,
}
use obrasignal.FactoryCloud.WorkQueue.Invariant.{
  IsValid, Call, submit, take, complete, collect, run,
}
use obrasignal.FactoryCloud.WorkQueue.Validity.{run-IsValid}

abbrev request : ExecutionRequest
request = record {
  app_id = "app";
  mode = "repository_safe_execution";
  task = "build";
  source = none;
  canonical_head = none;
  resume_at = "build";
  execution_branch = none;
  execution_head = none;
  required_capabilities = [];
}

abbrev success : ExecutionResult
success = result_of "DONE" end "" [] "" none

abbrev fresh : Job
fresh = new_job "j1" request 5

abbrev held : Job
held = claimed "w1" 30 10 fresh

-- The second job of the app was created later, for another task.
abbrev other : Job
other = new_job "j2" (record request { task = "test" }) 6

abbrev waiting_jobs : Queue
waiting_jobs = fresh ∷ other ∷ []

abbrev claimed_jobs : Queue
claimed_jobs = held ∷ other ∷ []

program : Unit {0}
unfolding claim choose by_created finish consume submit_or_get insert_job newest terminal_of
program = tt

first_claim : claim "app" "w1" 30 10 waiting_jobs ≡ ok (some held, claimed_jobs)
unfolding program
first_claim = refl

claim-IsGranted_example : IsGranted "app" "w1" 30 10 waiting_jobs held claimed_jobs
claim-IsGranted_example =
    claim-IsGranted "app" "w1" 30 10 waiting_jobs claimed_jobs held first_claim

second_choice : choose "app" 20 claimed_jobs ≡ some other
unfolding program
second_choice = refl

choose_exclusive_example : other.job_id ≢ held.job_id
choose_exclusive_example =
    choose_exclusive "app" "w1" 30 10 20 waiting_jobs claimed_jobs held other "app" first_claim
      (omega arith) second_choice

expired_choice : choose "app" 40 claimed_jobs ≡ some held
unfolding program
expired_choice = refl

apart : ◌≢◌ {A = String} "w1" "w0"
apart = ground (arith, eq_iff "w1" "w0")

is_done : terminal_of "DONE" ≡ some done
unfolding program
is_done = refl

finish_after_takeover_example : finish "j1" "w0" success 20 claimed_jobs ≡ err claim_lost
finish_after_takeover_example =
    finish_after_takeover "app" "w1" "w0" 30 10 20 waiting_jobs claimed_jobs held success done
      first_claim apart is_done

abbrev finished_job : Job
finished_job = finished done success 20 held

consume_first :
    consume "j1" 25 (finished_job ∷ other ∷ [])
    ≡ ok (finished_job, consumed 25 finished_job ∷ other ∷ [])
unfolding program
consume_first = refl

consume_once_example : consume "j1" 26 (consumed 25 finished_job ∷ other ∷ []) ≡ err not_consumable
consume_once_example =
    consume_once "j1" 25 26 (finished_job ∷ other ∷ []) (consumed 25 finished_job ∷ other ∷ [])
      finished_job consume_first

abbrev any_app : String → Bool
any_app s = true

abbrev calls : List Call
calls =
    submit "j1" 5 request
    ∷ take "app" "w1" 30 10
    ∷ take "app" "w2" 30 45
    ∷ complete "j1" "w1" success 50
    ∷ complete "j1" "w2" success 55
    ∷ collect "j1" 60
    ∷ []

empty-IsValid : IsValid []
empty-IsValid = record { unique = λ i. omega arith; one_open = λ a t. omega arith; sound = tt }

run-IsValid_example : IsValid (run any_app [] calls)
run-IsValid_example = run-IsValid any_app calls [] empty-IsValid

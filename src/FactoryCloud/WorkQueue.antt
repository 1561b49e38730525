-- ===== src/FactoryCloud/WorkQueue.antt =====
-- factory_cloud/work_queue.py: the table worker_jobs, in the order of insertion. Each call is one
-- transaction; `now` is what the clock reads in it, and a lease is in microseconds, at least 0. The
-- JSON texts of a request and of a result stand as the values that they encode. `known` says which
-- apps have a row in app_state, which the foreign key wants.
pub mod Counts
pub mod Oldest
pub mod Claims
pub mod Invariant
pub mod Validity
pub mod Tests
use obrasignal.Base.{
  ℕ, ◌+◌, String, Bool, true, false, not, ◌&&◌, ◌||◌, Option, none, some, List, [], ◌∷◌, ◌++◌,
  find?, select, update, count_if, ltb, leb, if◌then◌else◌, ◌==◌ as nat_eq,
}
use obrasignal.Base.Text.{◌==◌, opt_eq, or_text, nonempty}
use obrasignal.Base.Json.{Fields, end, field, str}
use obrasignal.Base.Result.{Result, ok, err, ◌>>=◌}
use obrasignal.FactoryCloud.Stamp.{Stamp, at, unreadable, has_passed}
use obrasignal.FactoryCloud.Adapters.{ExecutionRequest, ExecutionResult, result_of}

pub data JobStatus : Type 0 where
  queued running done wait blocked error : JobStatus

pub data QueueError : Type 0 where
  foreign_key duplicate_key no_row lease_required claim_lost not_consumable : QueueError
  invalid_status : String → QueueError

pub record Job : Type 0 where
  pub job_id : String
  pub app_id : String
  pub task : String
  pub request : ExecutionRequest
  pub status : JobStatus
  pub result : Option ExecutionResult
  pub claimed_by : Option String
  pub claim_expires_at : Option Stamp
  pub attempt : ℕ
  pub created_at : ℕ
  pub updated_at : ℕ
  pub finished_at : Option ℕ
  pub consumed_at : Option ℕ

abbrev pub Queue : Type 0
Queue = List Job

-- `result.status in JOB_TERMINAL`, as the status that is stored.
unfoldable pub terminal_of : String → Option JobStatus
terminal_of s =
    if s == "DONE"
    then some done
    else if s == "WAIT"
    then some wait
    else if s == "BLOCKED"
    then some blocked
    else if s == "ERROR"
    then some error
    else none

abbrev status_text : JobStatus → String
status_text queued = "QUEUED"
status_text running = "RUNNING"
status_text done = "DONE"
status_text wait = "WAIT"
status_text blocked = "BLOCKED"
status_text error = "ERROR"

-- `status in JOB_TERMINAL`
abbrev pub is_terminal : JobStatus → Bool
is_terminal queued = false
is_terminal running = false
is_terminal _ = true

abbrev pub is_running : JobStatus → Bool
is_running running = true
is_running _ = false

abbrev pub is_open : Job → Bool
is_open j = elim j.consumed_at [ none ↦ true | some t ↦ false ]

abbrev pub has_id : String → Job → Bool
has_id job_id j = j.job_id == job_id

abbrev pub is_open_for : (app_id task : String) → Job → Bool
is_open_for app_id task j = j.app_id == app_id && (j.task == task && is_open j)

-- `ORDER BY created_at DESC LIMIT 1`; of equal times the row inserted first.
unfoldable pub newest : Queue → Option Job
newest [] = none
newest (j ∷ js) = elim (newest js) [
  | none ↦ some j
  | some k ↦ if ltb j.created_at k.created_at then some k else some j
]

pub insert_by_created : Job → Queue → Queue
insert_by_created j [] = j ∷ []
insert_by_created j (k ∷ ks) = elim (leb j.created_at k.created_at) [
  | true ↦ j ∷ k ∷ ks
  | false ↦ k ∷ insert_by_created j ks
]

-- `ORDER BY created_at`; rows of equal times stay in the order of insertion.
unfoldable pub by_created : Queue → Queue
unfolding insert_by_created
by_created [] = []
by_created (j ∷ js) = insert_by_created j (by_created js)

abbrev pub new_job : String → ExecutionRequest → ℕ → Job
new_job job_id r now = record {
  job_id = job_id;
  app_id = r.app_id;
  task = r.task;
  request = r;
  status = queued;
  result = none;
  claimed_by = none;
  claim_expires_at = none;
  attempt = 0;
  created_at = now;
  updated_at = now;
  finished_at = none;
  consumed_at = none;
}

-- The INSERT, under the primary key and the foreign key.
unfoldable pub insert_job : (String → Bool) → Job → Queue → Result QueueError (Job × Queue)
insert_job known j jobs =
    if not (known j.app_id)
    then err foreign_key
    else if not (nat_eq (count_if (has_id j.job_id) jobs) 0)
    then err duplicate_key
    else ok (j, jobs ++ j ∷ [])

-- `submit_or_get`; `job_id` is the new UUID.
unfoldable pub submit_or_get :
    (String → Bool)
    → (job_id : String) (now : ℕ) → ExecutionRequest
    → Queue
    → Result QueueError (Job × Queue)
unfolding insert_job
submit_or_get known job_id now r jobs = elim (newest (select (is_open_for r.app_id r.task) jobs)) [
  | some j ↦ ok (j, jobs)
  | none ↦ insert_job known (new_job job_id r now) jobs
]

-- `not raw_expiry or fromisoformat(raw_expiry) <= now`
abbrev has_expired : Option Stamp → ℕ → Bool
has_expired none now = true
has_expired (some (at t)) now = has_passed (at t) now
has_expired (some (unreadable s)) now = if nonempty s then has_passed (unreadable s) now else true

-- `status IN ('QUEUED','RUNNING')`
abbrev is_pending : JobStatus → Bool
is_pending s = not (is_terminal s)

abbrev pub is_candidate : String → Job → Bool
is_candidate app_id j = j.app_id == app_id && (is_open j && is_pending j.status)

abbrev pub is_claimable : ℕ → Job → Bool
is_claimable now j = not (is_running j.status) || has_expired j.claim_expires_at now

-- The loop of `claim` over the candidates, oldest first.
unfoldable pub choose : (app_id : String) (now : ℕ) → Queue → Option Job
choose app_id now jobs = find? (is_claimable now) (by_created (select (is_candidate app_id) jobs))

abbrev pub claimed : (worker_id : String) (lease now : ℕ) → Job → Job
claimed worker_id lease now j = record j {
  status = running;
  claimed_by = some worker_id;
  claim_expires_at = some (at (now + lease));
  attempt = j.attempt + 1;
  updated_at = now;
}

abbrev read_back : String → Queue → Result QueueError Job
read_back job_id jobs = elim (find? (has_id job_id) jobs) [ none ↦ err no_row | some j ↦ ok j ]

unfoldable pub claim :
    (app_id worker_id : String) (lease now : ℕ) → Queue → Result QueueError (Option Job × Queue)
claim app_id worker_id lease now jobs =
    if nat_eq lease 0 then err lease_required else elim (choose app_id now jobs) [
      | none ↦ ok (none, jobs)
      | some j ↦
          let jobs' = update (has_id j.job_id) (claimed worker_id lease now) jobs in
          (read_back j.job_id jobs' >>= λ k. ok (some k, jobs'))
    ]

-- `WHERE job_id=? AND claimed_by=? AND status='RUNNING'`
abbrev pub is_claimed_by : (job_id worker_id : String) → Job → Bool
is_claimed_by job_id worker_id j =
    has_id job_id j && (opt_eq j.claimed_by (some worker_id) && is_running j.status)

-- `renew_claim`: the table, and whether one row was changed.
unfoldable pub renew_claim : (job_id worker_id : String) (lease now : ℕ) → Queue → Bool × Queue
renew_claim job_id worker_id lease now jobs = (
  nat_eq (count_if (is_claimed_by job_id worker_id) jobs) 1,
  update (is_claimed_by job_id worker_id)
      (λ j. record j { claim_expires_at = some (at (now + lease)); updated_at = now }) jobs,
)

abbrev pub finished : JobStatus → ExecutionResult → ℕ → Job → Job
finished status r now j = record j {
  status = status;
  result = some r;
  finished_at = some now;
  updated_at = now;
  claim_expires_at = none;
}

-- An error leaves the table as it was: the change is not committed.
unfoldable pub finish :
    (job_id worker_id : String) → ExecutionResult → (now : ℕ) → Queue → Result QueueError Queue
finish job_id worker_id r now jobs = elim (terminal_of r.status) [
  | none ↦ err (invalid_status r.status)
  | some status ↦
      if nat_eq (count_if (is_claimed_by job_id worker_id) jobs) 1
      then ok (update (is_claimed_by job_id worker_id) (finished status r now) jobs)
      else err claim_lost
]

abbrev pub is_consumable : Job → Bool
is_consumable j = is_terminal j.status && is_open j

-- `consume` returns the row as it was read, before the update.
unfoldable pub consume : (job_id : String) (now : ℕ) → Queue → Result QueueError (Job × Queue)
consume job_id now jobs = elim (find? (has_id job_id) jobs) [
  | none ↦ err not_consumable
  | some j ↦
      if is_consumable j
      then ok (
        j,
        update (has_id job_id) (λ k. record k { consumed_at = some now; updated_at = now }) jobs,
      )
      else err not_consumable
]

-- `jobs`
unfoldable jobs_of : Option String → Queue → Queue
jobs_of none jobs = by_created jobs
jobs_of (some app_id) jobs =
    if nonempty app_id then by_created (select (λ j. j.app_id == app_id) jobs) else by_created jobs

abbrev waiting : Job → ExecutionRequest → ExecutionResult
waiting j r =
    result_of "WAIT"
      (field "worker_job_id" (str j.job_id)
        (field "worker_job_status" (str (status_text j.status)) end))
      r.task ("app_worker_execution_pending" ∷ []) r.task none

-- The result that is handed over, with the defaults for a row that holds none.
abbrev pub delivered : ExecutionRequest → Option ExecutionResult → ExecutionResult
delivered r none = result_of "ERROR" end "" [] r.task none
delivered r (some x) = record x { resume_at = if nonempty x.resume_at then x.resume_at else r.task }

-- `QueuedAppAdapter.execute`
unfoldable pub execute :
    (String → Bool)
    → (job_id : String) (now : ℕ) → ExecutionRequest
    → Queue
    → Result QueueError (ExecutionResult × Queue)
execute known job_id now r jobs = do
  (j, jobs') ← submit_or_get known job_id now r jobs
  if is_pending j.status
      then ok (waiting j r, jobs')
      else (consume j.job_id now jobs' >>= λ c. ok (delivered r c.0.result, c.1))

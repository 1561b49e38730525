-- ===== src/FactoryCloud/WorkQueue/Validity.antt =====
-- Every call keeps the table valid.
use obrasignal.Base.{
  ◌≡◌, refl, ℕ, String, Bool, true, some, List, [], ◌∷◌, arith, All, ◌⊎◌, inl, inr, Option-cases,
  Bool-cases, find?, select, update, count_if, ◌++◌,
}
use obrasignal.Base.Text.{eq_refl}
use obrasignal.Base.Result.{ok, Result-cases}
use obrasignal.FactoryCloud.Adapters.{ExecutionRequest, ExecutionResult}
use obrasignal.FactoryCloud.WorkQueue.{
  Job, JobStatus, Queue, choose, claim, claimed, has_id, is_claimed_by, finish, finished, consume,
  terminal_of, is_open, is_open_for, is_terminal, is_consumable, submit_or_get, insert_job, new_job,
  renew_claim, newest, is_candidate, is_claimable, by_created,
}
use obrasignal.FactoryCloud.WorkQueue.Counts.{
  select-nil, All-select, All-by_created, All-find?, All-update,
}
use obrasignal.FactoryCloud.WorkQueue.Claims.{consumed}
use obrasignal.FactoryCloud.WorkQueue.Oldest.{choose_sound}
use obrasignal.FactoryCloud.WorkQueue.Invariant.{
  IsSound, IsValid, Call, submit, take, renew, complete, collect, keep_on_error, after_finish, step,
  run, update-IsValid, append-IsValid, newest-none, AllOfId, All-AllOfId, update_id-IsValid,
}

new_job-IsSound :
    (job_id : String) (r : ExecutionRequest) (now : ℕ) → IsSound (new_job job_id r now)
new_job-IsSound job_id r now = ground arith

insert_job-IsValid :
    (known : String → Bool) (j : Job) (jobs : Queue)
    → count_if (is_open_for j.app_id j.task) jobs ≡ 0
    → IsSound j
    → IsValid jobs
    → IsValid (keep_on_error jobs (insert_job known j jobs))
unfolding insert_job
insert_job-IsValid known j jobs unopened s v = elim (Result-cases (insert_job known j jobs)) [
  | inl ((k, jobs'), e) ↦
      let appended : jobs' ≡ jobs ++ j ∷ [] = ground arith in
      rw (e, appended) (append-IsValid j jobs (ground arith) unopened s v)
  | inr (x, e) ↦ rw e v
]

submit-IsValid :
    (known : String → Bool) (job_id : String) (now : ℕ) (r : ExecutionRequest) (jobs : Queue)
    → IsValid jobs
    → IsValid (keep_on_error jobs (submit_or_get known job_id now r jobs))
unfolding submit_or_get
submit-IsValid known job_id now r jobs v =
    elim (Option-cases (newest (select (is_open_for r.app_id r.task) jobs))) [
      | inl missed ↦
          let unopened : count_if (is_open_for r.app_id r.task) jobs ≡ 0 =
            select-nil (is_open_for r.app_id r.task) jobs
              (newest-none (select (is_open_for r.app_id r.task) jobs) missed) in
          let e : submit_or_get known job_id now r jobs
              ≡ insert_job known (new_job job_id r now) jobs =
            rw (missed, submit_or_get) in
          rw e (
            insert_job-IsValid known (new_job job_id r now) jobs unopened
              (new_job-IsSound job_id r now) v)
      | inr (j, hit) ↦
          let e : submit_or_get known job_id now r jobs ≡ ok (j, jobs) = rw (hit, submit_or_get) in
          rw e v
    ]

choose_cases :
    (app_id worker_id : String) (lease now : ℕ) (jobs : Queue) (c : Job)
    → choose app_id now jobs ≡ some c
    → (keep_on_error jobs (claim app_id worker_id lease now jobs) ≡ jobs)
      ⊎ (keep_on_error jobs (claim app_id worker_id lease now jobs)
          ≡ update (has_id c.job_id) (claimed worker_id lease now) jobs)
unfolding claim
choose_cases app_id worker_id lease now jobs c hit = ground arith

-- The chosen row is one of the table.
choose-All :
    (P : Job → Type 0) (app_id : String) (now : ℕ) (jobs : Queue) (c : Job)
    → All P jobs
    → choose app_id now jobs ≡ some c
    → P c
unfolding choose
choose-All P app_id now jobs c all hit =
    (All-find? P (is_claimable now) (by_created (select (is_candidate app_id) jobs)) c
      (All-by_created P (select (is_candidate app_id) jobs)
        (All-select P (is_candidate app_id) jobs all))
      hit).0

abbrev IsOpen : Job → Type 0
IsOpen j = is_open j ≡ true

candidate-IsOpen : (app_id : String) (j : Job) → is_candidate app_id j ≡ true → IsOpen j
candidate-IsOpen app_id j h = ground arith

claim-IsValid :
    (app_id worker_id : String) (lease now : ℕ) (jobs : Queue)
    → IsValid jobs
    → IsValid (keep_on_error jobs (claim app_id worker_id lease now jobs))
unfolding claim
claim-IsValid app_id worker_id lease now jobs v = elim (Option-cases (choose app_id now jobs)) [
  | inl missed ↦
      let same : keep_on_error jobs (claim app_id worker_id lease now jobs) ≡ jobs = ground arith in
      rw same v
  | inr (c, hit) ↦
      let open_chosen : IsOpen c =
        candidate-IsOpen app_id c (choose_sound app_id now jobs c hit).0 in
      let all_open : AllOfId c.job_id IsOpen jobs =
        choose-All (λ k. (has_id c.job_id k ≡ true) → IsOpen k → AllOfId c.job_id IsOpen jobs)
          app_id now jobs c (All-AllOfId c.job_id IsOpen jobs (v.unique c.job_id)) hit
          (eq_refl c.job_id) open_chosen in
      elim (choose_cases app_id worker_id lease now jobs c hit) [
        | inl same ↦ rw same v
        | inr moved ↦ rw moved (
            update_id-IsValid c.job_id IsOpen (claimed worker_id lease now) jobs (λ j. refl)
              (λ j a t h. h) (λ j s o. ground arith) all_open v)
      ]
]

renew-IsValid :
    (job_id worker_id : String) (lease now : ℕ) (jobs : Queue)
    → IsValid jobs
    → IsValid (renew_claim job_id worker_id lease now jobs).1
unfolding renew_claim
renew-IsValid job_id worker_id lease now jobs v =
    update-IsValid (is_claimed_by job_id worker_id) _ jobs (λ j. refl) (λ j a t h. h)
      (All-update IsSound (is_claimed_by job_id worker_id) _ jobs (λ j s q. ground arith) v.sound) v

terminal_of-is_terminal :
    (s : String) (status : JobStatus) → terminal_of s ≡ some status → is_terminal status ≡ true
unfolding terminal_of
terminal_of-is_terminal s status h = ground arith

finished-IsSound :
    (status : JobStatus) (r : ExecutionResult) (now : ℕ) (j : Job)
    → is_terminal status ≡ true
    → IsSound j
    → IsSound (finished status r now j)
finished-IsSound status r now j t s = ground arith

finish_cases :
    (job_id worker_id : String) (r : ExecutionResult) (now : ℕ) (jobs : Queue) (status : JobStatus)
    → terminal_of r.status ≡ some status
    → (after_finish jobs (finish job_id worker_id r now jobs) ≡ jobs)
      ⊎ (after_finish jobs (finish job_id worker_id r now jobs)
          ≡ update (is_claimed_by job_id worker_id) (finished status r now) jobs)
unfolding finish
finish_cases job_id worker_id r now jobs status t = ground arith

finish-IsValid :
    (job_id worker_id : String) (r : ExecutionResult) (now : ℕ) (jobs : Queue)
    → IsValid jobs
    → IsValid (after_finish jobs (finish job_id worker_id r now jobs))
unfolding finish
finish-IsValid job_id worker_id r now jobs v = elim (Option-cases (terminal_of r.status)) [
  | inl missed ↦
      let same : after_finish jobs (finish job_id worker_id r now jobs) ≡ jobs = ground arith in
      rw same v
  | inr (status, t) ↦ elim (finish_cases job_id worker_id r now jobs status t) [
    | inl same ↦ rw same v
    | inr moved ↦
        let q : Job → Bool = is_claimed_by job_id worker_id in
        rw moved (
          update-IsValid q (finished status r now) jobs (λ j. refl) (λ j a k h. h)
            (All-update IsSound q (finished status r now) jobs
              (λ j s p.
                finished-IsSound status r now j (terminal_of-is_terminal r.status status t) s)
              v.sound)
            v)
  ]
]

abbrev HasTerminal : Job → Type 0
HasTerminal j = is_terminal j.status ≡ true

consume_cases :
    (job_id : String) (now : ℕ) (jobs : Queue)
    → (keep_on_error jobs (consume job_id now jobs) ≡ jobs)
      ⊎ ((c : Job) × (find? (has_id job_id) jobs ≡ some c)
          × HasTerminal c
          × (keep_on_error jobs (consume job_id now jobs)
              ≡ update (has_id job_id) (consumed now) jobs))
unfolding consume
consume_cases job_id now jobs = elim (Option-cases (find? (has_id job_id) jobs)) [
  | inl missed ↦ inl (ground arith)
  | inr (c, hit) ↦ elim (Bool-cases (is_consumable c)) [
    | inl can ↦ inr (c, hit, ground arith, ground arith)
    | inr cannot ↦ inl (ground arith)
  ]
]

consume-IsValid :
    (job_id : String) (now : ℕ) (jobs : Queue)
    → IsValid jobs
    → IsValid (keep_on_error jobs (consume job_id now jobs))
consume-IsValid job_id now jobs v = elim (consume_cases job_id now jobs) [
  | inl same ↦ rw same v
  | inr (c, hit, t, moved) ↦
      let (spread, ident) =
        All-find? (λ k. (has_id job_id k ≡ true) → HasTerminal k → AllOfId job_id HasTerminal jobs)
          (has_id job_id) jobs c (All-AllOfId job_id HasTerminal jobs (v.unique job_id)) hit in
      rw moved (
        update_id-IsValid job_id HasTerminal (consumed now) jobs (λ j. refl)
          (λ j a k h. absurd (ground arith)) (λ j s h. ground arith) (spread ident t) v)
]

step-IsValid :
    (known : String → Bool) (jobs : Queue) (c : Call) → IsValid jobs → IsValid (step known jobs c)
unfolding step
step-IsValid known jobs (submit job_id now r) v = submit-IsValid known job_id now r jobs v
step-IsValid known jobs (take app_id worker_id lease now) v =
    claim-IsValid app_id worker_id lease now jobs v
step-IsValid known jobs (renew job_id worker_id lease now) v =
    renew-IsValid job_id worker_id lease now jobs v
step-IsValid known jobs (complete job_id worker_id r now) v =
    finish-IsValid job_id worker_id r now jobs v
step-IsValid known jobs (collect job_id now) v = consume-IsValid job_id now jobs v

-- Any sequence of calls, whatever their order, their times and their errors, keeps the table valid:
-- job ids are unique, an app has one open job at most for a task, a consumed job is terminal, a
-- terminal job has a result and a finishing time, and a running job has a holder.
pub run-IsValid :
    (known : String → Bool) (calls : List Call) (jobs : Queue)
    → IsValid jobs
    → IsValid (run known jobs calls)
unfolding run
run-IsValid known [] jobs v = v
run-IsValid known (c ∷ cs) jobs v =
    run-IsValid known cs (step known jobs c) (step-IsValid known jobs c v)

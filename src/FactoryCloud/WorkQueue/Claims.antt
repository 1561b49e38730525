-- ===== src/FactoryCloud/WorkQueue/Claims.antt =====
-- The claim on a job: who may have it, and what a worker that has lost it may do.
use obrasignal.Base.{
  ◌≡◌, refl, ℕ, ◌+◌, ◌≤◌, ◌<◌, String, true, false, some, [], ◌∷◌, arith, All, ◌≢◌, inl, inr,
  Option-cases, find?, select, update, count_if, ◌∙◌, sym, ap, IsIn,
}
use obrasignal.Base.Text.{eq_iff}
use obrasignal.Base.Result.{ok, err}
use obrasignal.FactoryCloud.Stamp.{at}
use obrasignal.FactoryCloud.Adapters.{ExecutionResult}
use obrasignal.FactoryCloud.WorkQueue.{
  Job, JobStatus, running, Queue, claim_lost, not_consumable, choose, claim, claimed, has_id,
  is_claimed_by, is_candidate, is_claimable, finish, consume, terminal_of, by_created, is_open,
}
use obrasignal.FactoryCloud.WorkQueue.Oldest.{choose_sound, choose-IsIn, choose-oldest}
use obrasignal.FactoryCloud.WorkQueue.Counts.{
  All-select, All-by_created, All-find?, All-update_self, count_if-update_zero,
}

-- What a granted claim gives. The row of the job was open, for the app, queued or with a claim that
-- has expired, and no such row of the table is older. After it the table holds `j` for that row, which
-- runs for the worker until the end of the lease, and every other row as it was.
pub record IsGranted (app_id worker_id : String) (lease now : ℕ) (jobs : Queue) (j : Job)
    (jobs' : Queue) : Type 0 where
  pub chosen : Job
  pub listed : IsIn chosen jobs
  pub was_candidate : is_candidate app_id chosen ≡ true
  pub was_claimable : is_claimable now chosen ≡ true
  pub oldest :
      All
        (λ k.
          is_candidate app_id k ≡ true
          → is_claimable now k ≡ true
          → chosen.created_at ≤ k.created_at)
        jobs
  pub ident : j.job_id ≡ chosen.job_id
  pub holder : j.claimed_by ≡ some worker_id
  pub runs : j.status ≡ running
  pub until : j.claim_expires_at ≡ some (at (now + lease))
  pub found : find? (has_id j.job_id) jobs' ≡ some j
  pub others : (id : String) → id ≢ j.job_id → find? (has_id id) jobs' ≡ find? (has_id id) jobs

-- The row that a granted claim chose, and the table that it left.
record IsTaken (app_id worker_id : String) (lease now : ℕ) (jobs : Queue) (j : Job) (jobs' : Queue)
    : Type 0 where
  pub chosen : Job
  pub was_chosen : choose app_id now jobs ≡ some chosen
  pub after : jobs' ≡ update (has_id chosen.job_id) (claimed worker_id lease now) jobs
  pub ident : j.job_id ≡ chosen.job_id
  pub holder : j.claimed_by ≡ some worker_id
  pub runs : j.status ≡ running
  pub until : j.claim_expires_at ≡ some (at (now + lease))
  pub found : find? (has_id chosen.job_id) jobs' ≡ some j

-- The rows of one job after it is claimed.
abbrev Claimed : String → String → ℕ → ℕ → Job → Type 0
Claimed job_id worker_id lease now j =
    (has_id job_id j ≡ true)
    → (j.claimed_by ≡ some worker_id)
      × (j.status ≡ running)
      × (j.claim_expires_at ≡ some (at (now + lease)))

All-Claimed :
    (job_id worker_id : String) (lease now : ℕ) (jobs : Queue)
    → All
        (Claimed job_id worker_id lease now)
        (update (has_id job_id) (claimed worker_id lease now) jobs)
All-Claimed job_id worker_id lease now jobs =
    All-update_self (Claimed job_id worker_id lease now) (has_id job_id)
      (claimed worker_id lease now) jobs (λ j e h. (refl, refl, refl))
      (λ j e h. absurd (ground arith))

claim_steps :
    (app_id worker_id : String) (lease now : ℕ) (jobs jobs' : Queue) (c j : Job)
    → choose app_id now jobs ≡ some c
    → claim app_id worker_id lease now jobs ≡ ok (some j, jobs')
    → (jobs' ≡ update (has_id c.job_id) (claimed worker_id lease now) jobs)
      × (find? (has_id c.job_id) (update (has_id c.job_id) (claimed worker_id lease now) jobs)
          ≡ some j)
unfolding claim
claim_steps app_id worker_id lease now jobs jobs' c j hit h = ground arith

claim-IsTaken :
    (app_id worker_id : String) (lease now : ℕ) (jobs jobs' : Queue) (j : Job)
    → claim app_id worker_id lease now jobs ≡ ok (some j, jobs')
    → IsTaken app_id worker_id lease now jobs j jobs'
unfolding claim
claim-IsTaken app_id worker_id lease now jobs jobs' j h =
    elim (Option-cases (choose app_id now jobs)) [
      | inl missed ↦ absurd (ground arith)
      | inr (c, hit) ↦
          let (after, found) = claim_steps app_id worker_id lease now jobs jobs' c j hit h in
          let (facts, ident) =
            All-find? (Claimed c.job_id worker_id lease now) (has_id c.job_id) _ j
              (All-Claimed c.job_id worker_id lease now jobs) found in
          let (holder, runs, until) = facts ident in
          record {
            chosen = c;
            was_chosen = hit;
            after = after;
            ident = (eq_iff j.job_id c.job_id).0 ident;
            holder = holder;
            runs = runs;
            until = until;
            found = rw after found;
          }
    ]

find?-claimed :
    (job_id id worker_id : String) (lease now : ℕ) (jobs : Queue)
    → id ≢ job_id
    → find? (has_id id) (update (has_id job_id) (claimed worker_id lease now) jobs)
      ≡ find? (has_id id) jobs
find?-claimed job_id id worker_id lease now [] apart = refl
find?-claimed job_id id worker_id lease now (k ∷ ks) apart = ground (
  arith,
  eq_iff k.job_id job_id,
  eq_iff k.job_id id,
  find?-claimed job_id id worker_id lease now ks apart,
)

-- A claim that returns a job chose a row of the app that was open and queued or with an expired
-- claim, and of all such rows one of the oldest time. It made the caller the holder of the job until
-- the end of the lease, and every job of another id can be found as before.
pub claim-IsGranted :
    (app_id worker_id : String) (lease now : ℕ) (jobs jobs' : Queue) (j : Job)
    → claim app_id worker_id lease now jobs ≡ ok (some j, jobs')
    → IsGranted app_id worker_id lease now jobs j jobs'
claim-IsGranted app_id worker_id lease now jobs jobs' j h =
    let g = claim-IsTaken app_id worker_id lease now jobs jobs' j h in
    let c = g.chosen in
    let (candidate, claimable) = choose_sound app_id now jobs c g.was_chosen in
    record {
      chosen = c;
      listed = choose-IsIn app_id now jobs c g.was_chosen;
      was_candidate = candidate;
      was_claimable = claimable;
      oldest = choose-oldest app_id now jobs c g.was_chosen;
      ident = g.ident;
      holder = g.holder;
      runs = g.runs;
      until = g.until;
      found = ap (λ (id : String). find? (has_id id) jobs') g.ident ∙ g.found;
      others = λ id apart.
          rw g.after
            (find?-claimed c.job_id id worker_id lease now jobs (λ e. apart (e ∙ sym g.ident)));
    }

Claimed-not_claimable :
    (job_id worker_id : String) (lease start now : ℕ) (j : Job)
    → Claimed job_id worker_id lease start j
    → now < start + lease
    → is_claimable now j ≡ true
    → j.job_id ≢ job_id
Claimed-not_claimable job_id worker_id lease start now j c early h e =
    let (holder, runs, until) = c ((eq_iff j.job_id job_id).1 e) in ground arith

-- While a claim lasts no other call claims the same job: any later claim of the resulting table,
-- by any worker at a time before the end of the lease, chooses another job.
pub choose_exclusive :
    (app_id worker_id : String) (lease start now : ℕ) (jobs jobs' : Queue) (j k : Job)
    (app' : String)
    → claim app_id worker_id lease start jobs ≡ ok (some j, jobs')
    → now < start + lease
    → choose app' now jobs' ≡ some k
    → k.job_id ≢ j.job_id
unfolding choose
choose_exclusive app_id worker_id lease start now jobs jobs' j k app' h early hit same =
    let g = claim-IsTaken app_id worker_id lease start jobs jobs' j h in
    let P : Job → Type 0 = Claimed g.chosen.job_id worker_id lease start in
    let all : All P jobs' = rw g.after (All-Claimed g.chosen.job_id worker_id lease start jobs) in
    let (c, claimable) =
      All-find? P (is_claimable now) (by_created (select (is_candidate app') jobs')) k
        (All-by_created P (select (is_candidate app') jobs')
          (All-select P (is_candidate app') jobs' all))
        hit in
    Claimed-not_claimable g.chosen.job_id worker_id lease start now k c early claimable
      (same ∙ g.ident)

no_claim_of_other :
    (job_id worker_id other : String) (lease now : ℕ) (jobs : Queue)
    → worker_id ≢ other
    → count_if
        (is_claimed_by job_id other)
        (update (has_id job_id) (claimed worker_id lease now) jobs)
      ≡ 0
no_claim_of_other job_id worker_id other lease now jobs apart =
    count_if-update_zero (is_claimed_by job_id other) (has_id job_id) (claimed worker_id lease now)
      jobs (λ j h. ground arith) (λ j. ground (arith, eq_iff worker_id other))

-- A worker whose job was claimed by another cannot finish it: its call raises, whatever its result.
pub finish_after_takeover :
    (app_id worker_id other : String) (lease now later : ℕ) (jobs jobs' : Queue) (j : Job)
    (r : ExecutionResult) (status : JobStatus)
    → claim app_id worker_id lease now jobs ≡ ok (some j, jobs')
    → worker_id ≢ other
    → terminal_of r.status ≡ some status
    → finish j.job_id other r later jobs' ≡ err claim_lost
unfolding finish
finish_after_takeover app_id worker_id other lease now later jobs jobs' j r status h apart t =
    let g = claim-IsTaken app_id worker_id lease now jobs jobs' j h in
    let none_left : count_if (is_claimed_by j.job_id other) jobs' ≡ 0 =
      rw (g.after, g.ident)
        (no_claim_of_other g.chosen.job_id worker_id other lease now jobs apart) in
    ground arith

abbrev pub consumed : ℕ → Job → Job
consumed now j = record j { consumed_at = some now; updated_at = now }

abbrev IsConsumed : String → Job → Type 0
IsConsumed job_id j = (has_id job_id j ≡ true) → is_open j ≡ false

All-IsConsumed :
    (job_id : String) (now : ℕ) (jobs : Queue)
    → All (IsConsumed job_id) (update (has_id job_id) (consumed now) jobs)
All-IsConsumed job_id now jobs =
    All-update_self (IsConsumed job_id) (has_id job_id) (consumed now) jobs (λ j e h. refl)
      (λ j e h. absurd (ground arith))

consume_steps :
    (job_id : String) (now : ℕ) (jobs jobs' : Queue) (j : Job)
    → consume job_id now jobs ≡ ok (j, jobs')
    → jobs' ≡ update (has_id job_id) (consumed now) jobs
unfolding consume
consume_steps job_id now jobs jobs' j h = ground arith

-- A job is consumed once: a second call raises, at whatever time.
pub consume_once :
    (job_id : String) (now later : ℕ) (jobs jobs' : Queue) (j : Job)
    → consume job_id now jobs ≡ ok (j, jobs')
    → consume job_id later jobs' ≡ err not_consumable
unfolding consume
consume_once job_id now later jobs jobs' j h =
    let after : All (IsConsumed job_id) jobs' =
      rw (consume_steps job_id now jobs jobs' j h) (All-IsConsumed job_id now jobs) in
    elim (Option-cases (find? (has_id job_id) jobs')) [
      | inl missed ↦ ground arith
      | inr (k, hit) ↦
          let (closed, ident) = All-find? (IsConsumed job_id) (has_id job_id) jobs' k after hit in
          let shut : is_open k ≡ false = closed ident in ground arith
    ]

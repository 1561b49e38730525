-- ===== src/FactoryCloud/WorkQueue/Invariant.antt =====
-- What holds of the table after any sequence of calls.
use obrasignal.Base.{
  All-map, ◌≡◌, refl, ℕ, ◌≤◌, String, Bool, true, false, none, List, [], ◌∷◌, ◌++◌, arith, All, ◌≢◌,
  inl, inr, Bool-cases, update, count_if,
}
use native.Mathlib.Nat.{le_trans}
use obrasignal.Base.Text.{eq_iff}
use obrasignal.Base.Result.{Result, ok, err}
use obrasignal.FactoryCloud.Adapters.{ExecutionRequest, ExecutionResult}
use obrasignal.FactoryCloud.WorkQueue.{
  Job, Queue, QueueError, claim, has_id, finish, consume, is_open, is_open_for, is_terminal,
  is_running, submit_or_get, renew_claim, newest,
}
use obrasignal.FactoryCloud.WorkQueue.Counts.{
  count_if-update_le, count_if-append_one, All-append_one, count_if-zero,
}

-- What holds of each row: a finished row has a result and no claim, a running one a holder.
pub record IsSound (j : Job) : Type 0 where
  pub consumed_is_terminal : is_open j ≡ false → is_terminal j.status ≡ true
  pub terminal_has_result : is_terminal j.status ≡ true → j.result ≢ none
  pub terminal_is_finished : is_terminal j.status ≡ true → j.finished_at ≢ none
  pub running_has_holder : is_running j.status ≡ true → j.claimed_by ≢ none

pub record IsValid (jobs : Queue) : Type 0 where
  pub unique : (i : String) → count_if (has_id i) jobs ≤ 1
  pub one_open : (a t : String) → count_if (is_open_for a t) jobs ≤ 1
  pub sound : All IsSound jobs

-- One call of a client or a worker. A call that raises changes nothing.
pub data Call : Type 0 where
  submit : (job_id : String) (now : ℕ) → ExecutionRequest → Call
  take : (app_id worker_id : String) (lease now : ℕ) → Call
  renew : (job_id worker_id : String) (lease now : ℕ) → Call
  complete : (job_id worker_id : String) → ExecutionResult → ℕ → Call
  collect : (job_id : String) (now : ℕ) → Call

abbrev pub keep_on_error : {A : Type 0} → Queue → Result QueueError (A × Queue) → Queue
keep_on_error jobs (ok (_, jobs')) = jobs'
keep_on_error jobs (err e) = jobs

abbrev pub after_finish : Queue → Result QueueError Queue → Queue
after_finish jobs (ok jobs') = jobs'
after_finish jobs (err e) = jobs

unfoldable pub step : (String → Bool) → Queue → Call → Queue
step known jobs (submit job_id now r) = keep_on_error jobs (submit_or_get known job_id now r jobs)
step known jobs (take app_id worker_id lease now) =
    keep_on_error jobs (claim app_id worker_id lease now jobs)
step known jobs (renew job_id worker_id lease now) = (renew_claim job_id worker_id lease now jobs).1
step known jobs (complete job_id worker_id r now) =
    after_finish jobs (finish job_id worker_id r now jobs)
step known jobs (collect job_id now) = keep_on_error jobs (consume job_id now jobs)

unfoldable pub run : (String → Bool) → Queue → List Call → Queue
run known jobs [] = jobs
run known jobs (c ∷ cs) = run known (step known jobs c) cs

-- An update that keeps the identity of a row, opens none, and keeps each row sound.
pub update-IsValid :
    (q : Job → Bool) (f : Job → Job) (jobs : Queue)
    → ((j : Job) → (f j).job_id ≡ j.job_id)
    → ((j : Job) (a t : String) → is_open_for a t (f j) ≡ true → is_open_for a t j ≡ true)
    → All IsSound (update q f jobs)
    → IsValid jobs
    → IsValid (update q f jobs)
update-IsValid q f jobs ident opens s v = record {
  unique = λ i.
      le_trans (count_if-update_le (has_id i) q f jobs (λ j h. rw (ident j) at h)) (v.unique i);
  one_open = λ a t.
      le_trans (count_if-update_le (is_open_for a t) q f jobs (λ j. opens j a t)) (v.one_open a t);
  sound = s;
}

pub newest-none : (jobs : Queue) → newest jobs ≡ none → jobs ≡ []
unfolding newest
newest-none [] h = refl
newest-none (j ∷ jobs) h = absurd (ground arith)

pub append-IsValid :
    (j : Job) (jobs : Queue)
    → count_if (has_id j.job_id) jobs ≡ 0
    → count_if (is_open_for j.app_id j.task) jobs ≡ 0
    → IsSound j
    → IsValid jobs
    → IsValid (jobs ++ j ∷ [])
append-IsValid j jobs fresh unopened s v = record {
  unique =
      λ i. ground (arith, count_if-append_one (has_id i) jobs j, eq_iff j.job_id i, v.unique i);
  one_open = λ a t. ground (
    arith,
    count_if-append_one (is_open_for a t) jobs j,
    eq_iff j.app_id a,
    eq_iff j.task t,
    v.one_open a t,
  );
  sound = All-append_one IsSound jobs j v.sound s;
}

-- With one row at most for an id, what holds of a row of that id holds of all rows of it.
abbrev pub AllOfId : String → (Job → Type 0) → Queue → Type 0
AllOfId i R jobs = All (λ j. (has_id i j ≡ true) → R j) jobs

pub All-AllOfId :
    (i : String) (R : Job → Type 0) (jobs : Queue)
    → count_if (has_id i) jobs ≤ 1
    → All (λ k. (has_id i k ≡ true) → R k → AllOfId i R jobs) jobs
All-AllOfId i R [] u = tt
All-AllOfId i R (j ∷ jobs) u = elim (Bool-cases (has_id i j)) [
  | inl hit ↦
      let others : All (λ k. has_id i k ≡ false) jobs =
        count_if-zero (has_id i) jobs (ground arith) in
      (
        λ h r. (λ h'. r, All-map (λ k e h'. absurd (ground arith)) jobs others),
        All-map (λ k e h' r. absurd (ground arith)) jobs others,
      )
  | inr miss ↦
      let rest = All-AllOfId i R jobs (ground arith) in
      (
        λ h r. absurd (ground arith),
        All-map (λ k f h r. ((λ h'. absurd (ground arith)), f h r)) jobs rest,
      )
]

-- An update of the rows of one id, which satisfy `R`.
pub update_id-IsValid :
    (i : String) (R : Job → Type 0) (f : Job → Job) (jobs : Queue)
    → ((j : Job) → (f j).job_id ≡ j.job_id)
    → ((j : Job) (a t : String) → is_open_for a t (f j) ≡ true → is_open_for a t j ≡ true)
    → ((j : Job) → IsSound j → R j → IsSound (f j))
    → AllOfId i R jobs
    → IsValid jobs
    → IsValid (update (has_id i) f jobs)
update_id-IsValid i R f jobs ident opens keeps r v =
    update-IsValid (has_id i) f jobs ident opens (both jobs v.sound r) v
  where
    both :
        (js : Queue)
        → All IsSound js
        → All (λ j. (has_id i j ≡ true) → R j) js
        → All IsSound (update (has_id i) f js)
    both [] h k = tt
    both (j ∷ js) (h, hs) (k, ks) = elim (Bool-cases (has_id i j)) [
      | inl e ↦ rw (e, All) (keeps j h (k e), both js hs ks)
      | inr e ↦ rw (e, All) (h, both js hs ks)
    ]

-- ===== src/FactoryCloud/Orchestrator/Results.antt =====
-- What a result that is accepted may hold, and what its checkpoint leaves.
use obrasignal.Base.{
  ◌≡◌, refl, ℕ, zero, suc, ◌+◌, ◌*◌, ◌≤◌, String, Bool, true, false, not, ◌||◌, ◌&&◌, Option, some,
  List, arith, leb, if◌then◌else◌,
}
use obrasignal.Base.Text.{◌==◌, present, nonempty, opt_eq, opt_eq_refl, eq_iff, or_text}
use obrasignal.Base.Result.{ok}
use obrasignal.FactoryCloud.Adapters.{ExecutionResult, result_of}
use obrasignal.Base.Json.{Fields}
use obrasignal.FactoryCloud.StateStore.{App, AppState, Store, get_app}
use obrasignal.FactoryCloud.StateStore.Calls.{checkpoint, checkpointed}
use obrasignal.FactoryCloud.StateStore.Laws.{checkpoint-get_app}
use obrasignal.FactoryCloud.Orchestrator.{
  Decision, app_config, max_retry_seconds, seconds, error_retry_base_seconds, retry_gate_open,
}
use obrasignal.FactoryCloud.Orchestrator.Checkpoint.{
  canonical_branch, is_terminal_safe, is_sha, validated, validated_result, retry_delay,
  power_of_two, next_retry, checkpoint_result, changes_of,
}

power_of_two-positive : (n : ℕ) → 1 ≤ power_of_two n
power_of_two-positive zero = omega arith
power_of_two-positive (suc n) = omega (arith, power_of_two-positive n)

times_positive : (a b : ℕ) → 1 ≤ b → a ≤ a * b
times_positive a zero h = omega arith
times_positive a (suc b) h = ground arith

retry_delay-suc :
    (base n : ℕ)
    → retry_delay base (suc (suc n)) ≡ (
        let twice = 2 * retry_delay base (suc n) in
        if leb twice max_retry_seconds then twice else max_retry_seconds)
unfolding retry_delay
retry_delay-suc base n =
    let double : base * power_of_two (suc n) ≡ base * power_of_two n + base * power_of_two n =
      ground arith in
    ground arith

retry_delay-bounds :
    (base n : ℕ)
    → base ≤ max_retry_seconds
    → (base ≤ retry_delay base (suc n)) × (retry_delay base (suc n) ≤ max_retry_seconds)
unfolding retry_delay
retry_delay-bounds base n h =
    let grows = times_positive base (power_of_two n) (power_of_two-positive n) in ground arith

retry_delay-first : (base : ℕ) → base ≤ max_retry_seconds → retry_delay base 1 ≡ base
unfolding retry_delay
retry_delay-first base h = ground arith

-- For a base of at most 900 seconds: the delay of the first attempt is the base; each further attempt
-- doubles the delay of the attempt before it, up to 900 seconds; and no delay is below its base or
-- above 900 seconds.
pub retry_delay-IsBackoff :
    (base n : ℕ)
    → base ≤ max_retry_seconds
    → (retry_delay base 1 ≡ base)
      × (retry_delay base (suc (suc n)) ≡ (
          let twice = 2 * retry_delay base (suc n) in
          if leb twice max_retry_seconds then twice else max_retry_seconds))
      × (base ≤ retry_delay base (suc n))
      × (retry_delay base (suc n) ≤ max_retry_seconds)
retry_delay-IsBackoff base n h = (
  retry_delay-first base h,
  retry_delay-suc base n,
  (retry_delay-bounds base n h).0,
  (retry_delay-bounds base n h).1,
)

-- What a result may hold that is recorded for an app: its status is one of the four; a source that it
-- names is whole, a commit of forty hexadecimal digits of a task that is DONE, and its branch is not
-- the canonical one.
pub record IsSafe (app : App) (r : ExecutionResult) : Type 0 where
  pub status_safe : is_terminal_safe r.status ≡ true
  pub whole : present r.execution_branch ≡ present r.execution_head
  pub head_done : present r.execution_head ≡ true → (r.status == "DONE") ≡ true
  pub head_sha : present r.execution_head ≡ true → is_sha (or_text r.execution_head "") ≡ true
  pub not_canonical :
      present r.execution_branch ≡ true
      → nonempty (canonical_branch app) ≡ true
      → opt_eq r.execution_branch (some (canonical_branch app)) ≡ false

if-IsSafe :
    {app : App} (b : Bool) (x y : ExecutionResult)
    → IsSafe app x
    → (b ≡ false → IsSafe app y)
    → IsSafe app (if b then x else y)
if-IsSafe true x y rejected rest = rejected
if-IsSafe false x y rejected rest = rest refl

rejected-IsSafe :
    (app : App) (evidence : Fields) (task : String) (blockers : List String) (resume_at : String)
    (error : Option Fields)
    → IsSafe app (result_of "ERROR" evidence task blockers resume_at error)
rejected-IsSafe app evidence task blockers resume_at error = ground arith

accepted-IsSafe :
    (app : App) (r : ExecutionResult)
    → not (is_terminal_safe r.status) ≡ false
    → (not (present r.execution_branch) && present r.execution_head
        || present r.execution_branch && not (present r.execution_head))
      ≡ false
    → (present r.execution_head
        && (not (r.status == "DONE") || not (is_sha (or_text r.execution_head ""))))
      ≡ false
    → (present r.execution_branch
        && nonempty (canonical_branch app)
        && opt_eq r.execution_branch (some (canonical_branch app)))
      ≡ false
    → IsSafe app r
accepted-IsSafe app r status whole head branch = ground arith

validated-IsSafe :
    (app : App) (d : Decision) (r : ExecutionResult)
    → IsSafe app (validated (canonical_branch app) d r)
unfolding validated
validated-IsSafe app d r = if-IsSafe _ _ _ (rejected-IsSafe app _ _ _ _ _) (λ status.
    if-IsSafe _ _ _ (rejected-IsSafe app _ _ _ _ _) (λ whole.
      if-IsSafe _ _ _ (rejected-IsSafe app _ _ _ _ _) (λ head.
        if-IsSafe _ _ _ (rejected-IsSafe app _ _ _ _ _)
          (λ branch. accepted-IsSafe app r status whole head branch))))

-- Whatever an adapter gives for an app of the registry, what is accepted of it is safe for that app.
pub validated_result-IsSafe :
    (registry : List App) (d : Decision) (r : ExecutionResult) {app : App} {v : ExecutionResult}
    → app_config d.app_id registry ≡ some app
    → validated_result registry d r ≡ ok v
    → IsSafe app v
unfolding validated_result
validated_result-IsSafe registry d r {app} {v} c h = ground (arith, validated-IsSafe app d r)

changes_of-gate :
    (d : Decision) (r : ExecutionResult) (now later : ℕ) (a : AppState)
    → (r.status == "ERROR") ≡ true
    → retry_gate_open (checkpointed (changes_of d r now a) now a).retry_state d.task later
      ≡ leb
          (now + seconds (retry_delay error_retry_base_seconds (a.retry_state.attempts + 1)))
          later
unfolding changes_of retry_gate_open next_retry
changes_of-gate d r now later a e =
    let is_error = (eq_iff r.status "ERROR").0 e in
    let not_done : (r.status == "DONE") ≡ false = rw is_error refl in
    rw (not_done, e, opt_eq_refl (some d.task))

-- After an ERROR the row of the app does not let its task through before the delay has passed; the
-- delay is that of one more attempt than the row counted.
pub checkpoint_result-gate :
    (d : Decision) (r : ExecutionResult) (now later : ℕ) (s : Store) {a : AppState} {t : Store}
    → (r.status == "ERROR") ≡ true
    → get_app d.app_id s ≡ some a
    → checkpoint_result d r now s ≡ ok t
    → (a' : AppState) × (get_app d.app_id t ≡ some a')
      × (retry_gate_open a'.retry_state d.task later
          ≡ leb
              (now + seconds (retry_delay error_retry_base_seconds (a.retry_state.attempts + 1)))
              later)
unfolding checkpoint_result
checkpoint_result-gate d r now later s {a} {t} e g h =
    let cs = changes_of d r now a in
    let stored_ok : checkpoint d.app_id cs now s ≡ ok t = ground arith in
    let (row, _) = checkpoint-get_app d.app_id cs now s g stored_ok in
    (checkpointed cs now a, row, changes_of-gate d r now later a e)

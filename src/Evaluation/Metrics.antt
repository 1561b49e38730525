-- ===== src/Evaluation/Metrics.antt =====
-- evaluation_policy.py: `evaluation_metrics`, the figures of one evaluation.
use obrasignal.Base.{
  ℕ, zero, suc, ◌+◌, ◌-◌, ◌*◌, ◌/◌, String, Bool, true, false, ◌&&◌, ◌||◌, Option, none, some, List,
  [], ◌∷◌, any, select, sort_by, count_if, leb, ltb, if◌then◌else◌,
}
use obrasignal.Base.Int.{ℤ, pos, negsuc}
use obrasignal.Base.Text.{◌==◌}
use obrasignal.Evaluation.{
  Event, paid_conversion, post_conversion_churn, EventRow, Account, day, event_eq,
  is_value_exposure, is_engagement, parse_iso,
}

pub record Metrics : Type 0 where
  pub time_to_first_value_seconds : Option ℤ
  pub trial_activation_rate : ℕ
  pub value_exposure_rate : ℕ
  pub day_1_active : Bool
  pub day_7_active : Bool
  pub day_14_active : Bool
  pub day_21_active : Bool
  pub trial_to_paid : ℕ
  pub extension_rate : ℕ
  pub extension_to_paid : ℕ
  pub churn_after_conversion : ℕ
  pub exposure_event_count : ℕ
  pub engagement_event_count : ℕ
  pub measured_value_event_count : ℕ
  pub estimated_value_event_count : ℕ

-- The events of an account, `ORDER BY occurred_at`.
abbrev events_of : String → List EventRow → List EventRow
events_of account_id events =
    sort_by (λ a b. leb a.occurred_at b.occurred_at)
      (select (λ r. r.account_id == account_id) events)

abbrev first_value : List EventRow → Option ℕ
first_value [] = none
first_value (r ∷ rows) =
    let rest = first_value rows in
    if is_value_exposure r.event_name then some r.occurred_at else rest

abbrev negated : ℕ → ℤ
negated zero = pos 0
negated (suc n) = negsuc n

-- `int((first - created).total_seconds())`, which cuts towards zero.
abbrev seconds_between : (created first : ℕ) → ℤ
seconds_between created first =
    if leb created first
    then pos ((first - created) / 1000000)
    else negated ((created - first) / 1000000)

abbrev elapsed : Option ℕ → Option ℕ → Option ℤ
elapsed (some created) (some first) = some (seconds_between created first)
elapsed _ _ = none

abbrev counts_as_active : Event → Bool
counts_as_active e = is_value_exposure e || is_engagement e

-- `active_on_day`: an event in the day that starts `n` days after the activation.
abbrev active_on_day : (activated : Option ℕ) → List EventRow → ℕ → Bool
active_on_day none rows n = false
active_on_day (some t) rows n =
    any
      (λ r.
        leb (t + n * day) r.occurred_at
        && ltb r.occurred_at (t + n * day + day)
        && counts_as_active r.event_name)
      rows

abbrev one_if : Bool → ℕ
one_if true = 1
one_if false = 0

abbrev is_some : {A : Type 0} → Option A → Bool
is_some none = false
is_some (some a) = true

-- The figures of the events of an account, in the order of their times.
unfoldable pub metrics_of : Account → List EventRow → Metrics
metrics_of a rows =
    let activated = parse_iso a.evaluation_activated_at in
    let exposures = count_if (λ r. is_value_exposure r.event_name) rows in
    let has : Event → Bool = (λ e. any (λ r. event_eq r.event_name e) rows) in
    let is_extended = ltb 0 a.evaluation_extension_days in
    record {
      time_to_first_value_seconds = elapsed (parse_iso a.created_at) (first_value rows);
      trial_activation_rate = one_if (is_some activated);
      value_exposure_rate = one_if (ltb 0 exposures);
      day_1_active = active_on_day activated rows 1;
      day_7_active = active_on_day activated rows 7;
      day_14_active = active_on_day activated rows 14;
      day_21_active = active_on_day activated rows 21;
      trial_to_paid = one_if (has paid_conversion);
      extension_rate = one_if is_extended;
      extension_to_paid = one_if (is_extended && has paid_conversion);
      churn_after_conversion = one_if (has post_conversion_churn);
      exposure_event_count = exposures;
      engagement_event_count = count_if (λ r. is_engagement r.event_name) rows;
      measured_value_event_count = 0;
      estimated_value_event_count = 0;
    }

unfoldable pub evaluation_metrics : List EventRow → Account → Option Metrics
unfolding metrics_of
evaluation_metrics events a = elim a.evaluation_status [
  | none ↦ none
  | some status ↦ some (metrics_of a (events_of a.account_id events))
]

-- ===== src/Evaluation/Tests.antt =====
-- Runs of the evaluation lifecycle, and the theorems at a concrete account.
use obrasignal.Base.{
  ◌≡◌, refl, ℕ, ◌+◌, ◌<◌, Bool, true, false, none, some, List, [], ◌∷◌, All, any, ◌≢◌, ◌↔◌, ◌⊎◌,
  sort_by, insert_by,
}
use obrasignal.Base.Int.{pos}
use obrasignal.Base.Text.{strip}
use obrasignal.Base.Result.{ok}
use obrasignal.FactoryCloud.Stamp.{at}
use obrasignal.Evaluation.{
  Account, Event, EventRow, evidence_viewed, day, Store, onboarding, closed, evaluation_active,
  exposure_pending, exposed, activation_reason, profile_ready, market_data_available,
  first_shortlist_generated, record_evaluation_event, event_of, modify, advance_row, days_of,
  is_settled, is_value_exposure,
}
use obrasignal.Evaluation.Grants.{
  grant_evaluation_extension, wanted_days, extended, configure_enterprise_pilot,
  mark_evaluation_paid, mark_post_conversion_churn,
}
use obrasignal.Evaluation.Access.{
  Access, access_of, Summary, evaluation_access_state, evaluation_summary, convert_to_pro,
  evaluation_summary-days_remaining,
}
use obrasignal.Evaluation.Metrics.{evaluation_metrics, metrics_of}
use obrasignal.Evaluation.Lifecycle.{IsTimed, before}
use obrasignal.Evaluation.Kept.{Pairs, KeepsDates}
use obrasignal.Evaluation.Dates.{
  Operation, record_event, extend, run, step, is_extension, run-IsTimed,
}
use obrasignal.Evaluation.Extension.{
  IsExtended, IsActivated, advance_row-activates_iff, grant_evaluation_extension-IsExtended,
  advance_row-value_status,
}

abbrev new_account : Account
new_account = record {
  account_id = "acc";
  plan = "evaluation";
  created_at = some (at 0);
  evaluation_type = some "self_service";
  evaluation_status = some onboarding;
  evaluation_activated_at = none;
  evaluation_ends_at = none;
  evaluation_extension_days = 0;
  evaluation_value_status = some exposure_pending;
  evaluation_activation_reason = none;
  evaluation_extension_reason = none;
}

abbrev start : Store
start = record { accounts = new_account ∷ []; events = [] }

program : Unit {0}
unfolding run step record_evaluation_event grant_evaluation_extension configure_enterprise_pilot
    event_of strip modify mark_evaluation_paid mark_post_conversion_churn evaluation_access_state
    evaluation_summary
program = tt

abbrev operations : List Operation
operations =
    record_event "acc" "profile_ready" "{}" 10
    ∷ record_event "acc" " market_data_available " "{}" 20
    ∷ record_event "acc" "first_shortlist_generated" "{}" 30
    ∷ extend "acc" "slow start" (some (pos 5)) true true false
    ∷ extend "acc" "again" (some (pos 3)) true true false
    ∷ []

-- Five days are granted, three more are not.
abbrev active_account : Account
active_account = record new_account {
  evaluation_status = some evaluation_active;
  evaluation_activated_at = some (at 30);
  evaluation_ends_at = some (at (30 + days_of 26));
  evaluation_extension_days = 5;
}

abbrev at_the_end : Account
at_the_end = record active_account {
  evaluation_value_status = some exposed;
  evaluation_activation_reason = some activation_reason;
  evaluation_extension_reason = some "slow start";
}

end_test : (run start operations).accounts ≡ at_the_end ∷ []
unfolding program
end_test = refl

has_all : Event → Bool
has_all e = true

advance_row-activates_iff_example :
    (((advance_row profile_ready has_all 9 new_account).evaluation_activated_at ≡ some (at 9)) ↔ (
      (has_all profile_ready ≡ true)
      × (has_all market_data_available ≡ true)
      × (has_all first_shortlist_generated ≡ true)))
    × ((advance_row profile_ready has_all 9 new_account).evaluation_activated_at ≡ some (at 9)
        → IsActivated 9 new_account (advance_row profile_ready has_all 9 new_account))
    × ((advance_row profile_ready has_all 9 new_account).evaluation_activated_at ≢ some (at 9)
        → ((advance_row profile_ready has_all 9 new_account).evaluation_activated_at ≡ none)
          × ((advance_row profile_ready has_all 9 new_account).evaluation_ends_at
              ≡ new_account.evaluation_ends_at))
advance_row-activates_iff_example =
    advance_row-activates_iff profile_ready has_all 9 new_account refl refl

start-IsTimed : All IsTimed start.accounts
start-IsTimed = (before refl refl refl, tt)

run-IsTimed_example :
    All IsTimed (run start operations).accounts
    × Pairs
        (KeepsDates (any is_extension operations))
        start.accounts
        (run start operations).accounts
run-IsTimed_example = run-IsTimed operations start start-IsTimed

abbrev running : Store
running = record { accounts = active_account ∷ []; events = [] }

abbrev extended_store : Store
extended_store = record {
  accounts = extended 2 (30 + days_of 26) "more" active_account ∷ [];
  events = [];
}

granted_two :
    grant_evaluation_extension "acc" "more" (some (pos 2)) true true false running
    ≡ ok extended_store
unfolding program
granted_two = refl

grant_evaluation_extension-IsExtended_example :
    (n : ℕ) × (wanted_days (some (pos 2)) ≡ some n)
    × (◌≡◌ {A = Bool} true true)
    × (◌≡◌ {A = Bool} true true)
    × (◌≡◌ {A = Bool} false false)
    × IsExtended "acc" n running extended_store
grant_evaluation_extension-IsExtended_example =
    grant_evaluation_extension-IsExtended "acc" "more" (some (pos 2)) true true false running
      extended_store granted_two

abbrev late : ℕ
late = 30 + days_of 26

abbrev over : Access
over = access_of active_account evaluation_active late

is_over_now : evaluation_access_state active_account late ≡ some over
unfolding program
is_over_now = refl

not_closed : active_account.evaluation_status ≢ some closed
not_closed h = cc

last_summary :
    (s : Summary) × (evaluation_summary [] active_account late ≡ some s)
    × (s.days_remaining ≡ some 0)
unfolding program
last_summary = (_, refl, refl)

evaluation_summary-days_remaining_example :
    ((0 < 0) ↔ (over.active ≡ true))
    × ((◌≡◌ {A = ℕ} 0 0) → last_summary.0.next_action ≡ convert_to_pro)
evaluation_summary-days_remaining_example =
    evaluation_summary-days_remaining [] active_account late last_summary.0 over 0 last_summary.1
      is_over_now not_closed last_summary.2

abbrev legacy : Account
legacy = record new_account { evaluation_value_status = none }

advance_row-value_status_example :
    ((is_settled legacy.evaluation_status ≡ false)
      → (is_value_exposure first_shortlist_generated ≡ true)
      → (legacy.evaluation_value_status ≡ some exposure_pending)
      → (advance_row first_shortlist_generated has_all 9 legacy).evaluation_value_status
        ≡ some exposed)
    × ((is_settled legacy.evaluation_status ≡ true)
          ⊎ (is_value_exposure first_shortlist_generated ≡ false)
          ⊎ (legacy.evaluation_value_status ≢ some exposure_pending)
        → (advance_row first_shortlist_generated has_all 9 legacy).evaluation_value_status
          ≡ legacy.evaluation_value_status)
advance_row-value_status_example =
    advance_row-value_status first_shortlist_generated has_all 9 legacy

abbrev event_at : Event → ℕ → EventRow
event_at e t = record { account_id = "acc"; event_name = e; occurred_at = t; metadata = "{}" }

abbrev history : List EventRow
history =
    event_at evidence_viewed (day + 40)
    ∷ event_at first_shortlist_generated 3500000
    ∷ event_at profile_ready 10
    ∷ []

-- The first value is the one of the earliest exposure, in whole seconds, and the second event falls in
-- the day after the activation.
metrics_test :
    evaluation_metrics history active_account
    ≡ some (record {
      time_to_first_value_seconds = some (pos 3);
      trial_activation_rate = 1;
      value_exposure_rate = 1;
      day_1_active = true;
      day_7_active = false;
      day_14_active = false;
      day_21_active = false;
      trial_to_paid = 0;
      extension_rate = 1;
      extension_to_paid = 0;
      churn_after_conversion = 0;
      exposure_event_count = 2;
      engagement_event_count = 1;
      measured_value_event_count = 0;
      estimated_value_event_count = 0;
    })
unfolding evaluation_metrics metrics_of sort_by insert_by
metrics_test = refl

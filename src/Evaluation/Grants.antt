-- ===== src/Evaluation/Grants.antt =====
-- evaluation_policy.py: pilots, extensions, and what a payment or a churn marks.
use obrasignal.Base.{
  ℕ, ◌+◌, String, Bool, true, false, not, ◌||◌, Option, none, some, ltb, if◌then◌else◌,
  ◌==◌ as nat_eq,
}
use obrasignal.Base.Int.{ℤ, pos, negsuc}
use obrasignal.Base.Text.{◌==◌, strip}
use obrasignal.Base.Result.{Result, ok, err, ◌>>=◌}
use obrasignal.FactoryCloud.Stamp.{at}
use obrasignal.Evaluation.{
  paid_conversion, post_conversion_churn, EvaluationError, account_not_found,
  evaluation_already_activated, paid_account, invalid_extension_days, extension_not_eligible,
  extension_limit_exceeded, evaluation_not_activated, Status, onboarding, evaluation_active, paid,
  Account, Store, max_value_extension_days, days_of, parse_iso, stored, find_account, insert_event,
  has_event, modify,
}

-- `configure_enterprise_pilot`
unfoldable pub configure_enterprise_pilot : String → Store → Result EvaluationError Store
configure_enterprise_pilot account_id s = elim (find_account account_id s.accounts) [
  | none ↦ err account_not_found
  | some a ↦
      if stored a.evaluation_activated_at
      then err evaluation_already_activated
      else if a.plan == "pro"
      then err paid_account
      else ok (record s {
        accounts =
            modify account_id
              (λ b. record b {
                evaluation_type = some "enterprise";
                evaluation_status = elim b.evaluation_status [
                  | none ↦ some onboarding
                  | some x ↦ some x
                ];
              })
              s.accounts;
      })
]

abbrev pub is_paid : Option Status → Bool
is_paid (some paid) = true
is_paid _ = false

abbrev pub extended : (days ends : ℕ) (reason : String) → Account → Account
extended days ends reason a = record a {
  evaluation_ends_at = some (at (ends + days_of days));
  evaluation_extension_days = a.evaluation_extension_days + days;
  evaluation_extension_reason = some (strip reason);
  evaluation_status = some evaluation_active;
}

-- The checks of `grant_evaluation_extension` on the account that was read, and the end that it has.
unfoldable pub extension_end :
    (days : ℕ) (real_usage insufficient_value_exposure user_inactive : Bool)
    → Account
    → Result EvaluationError ℕ
extension_end days real_usage insufficient_value_exposure user_inactive a =
    if a.plan == "pro" || is_paid a.evaluation_status
    then err paid_account
    else if not real_usage || not insufficient_value_exposure || user_inactive
    then err extension_not_eligible
    else if ltb max_value_extension_days (a.evaluation_extension_days + days)
    then err extension_limit_exceeded
    else elim (parse_iso a.evaluation_ends_at) [
      | none ↦ err evaluation_not_activated
      | some ends ↦ ok ends
    ]

abbrev pub positive : ℤ → Option ℕ
positive (pos n) = if nat_eq n 0 then none else some n
positive (negsuc n) = none

-- The days of a call: more than none.
abbrev pub wanted_days : Option ℤ → Option ℕ
wanted_days none = none
wanted_days (some n) = positive n

-- `grant_evaluation_extension`; `days` is what `int` gives, `none` where it raises.
unfoldable pub grant_evaluation_extension :
    (account_id reason : String)
    → (days : Option ℤ) → (real_usage insufficient_value_exposure user_inactive : Bool) → Store
    → Result EvaluationError Store
unfolding extension_end
grant_evaluation_extension account_id reason days real_usage insufficient user_inactive s =
    elim (wanted_days days) [
      | none ↦ err invalid_extension_days
      | some n ↦ elim (find_account account_id s.accounts) [
        | none ↦ err account_not_found
        | some a ↦
            (extension_end n real_usage insufficient user_inactive a >>= λ ends.
            ok (record s { accounts = modify account_id (extended n ends reason) s.accounts }))
      ]
    ]

-- `row[0] and row[0] != "PAID"`
abbrev pub can_pay : Option Status → Bool
can_pay none = false
can_pay (some paid) = false
can_pay (some _) = true

-- `mark_evaluation_paid`
unfoldable pub mark_evaluation_paid : (account_id metadata : String) (now : ℕ) → Store → Store
unfolding insert_event
mark_evaluation_paid account_id metadata now s = elim (find_account account_id s.accounts) [
  | none ↦ s
  | some a ↦
      if can_pay a.evaluation_status
      then record {
        accounts = modify account_id (λ b. record b { evaluation_status = some paid }) s.accounts;
        events = insert_event account_id paid_conversion now metadata s.events;
      }
      else s
]

-- `mark_post_conversion_churn`
unfoldable pub mark_post_conversion_churn : (account_id metadata : String) (now : ℕ) → Store → Store
unfolding insert_event
mark_post_conversion_churn account_id metadata now s =
    if has_event account_id s.events paid_conversion
    then record s { events = insert_event account_id post_conversion_churn now metadata s.events }
    else s

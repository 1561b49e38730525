-- ===== src/Evaluation.antt =====
-- evaluation_policy.py: the lifecycle of a product evaluation. Times are instants in microseconds.
-- An account is the columns that the module reads or writes; `evaluation_ends_at` and the others
-- are stored times. An event list stands for the table evaluation_events of one account.
pub mod Grants
pub mod Metrics
pub mod Access
pub mod Lifecycle
pub mod Kept
pub mod Dates
pub mod Extension
pub mod Tests
use obrasignal.Base.{
  ℕ, ◌+◌, ◌-◌, ◌*◌, ◌/◌, String, Bool, true, false, not, ◌&&◌, ◌||◌, Option, none, some, List, [],
  ◌∷◌, ◌++◌, any, all, find?, ltb, leb, if◌then◌else◌, ◌==◌ as nat_eq,
}
use obrasignal.Base.Int.{ℤ, pos, negsuc}
use obrasignal.Base.Text.{◌==◌, nonempty, present, or_text, opt_eq, strip}
use obrasignal.Base.Result.{Result, ok, err, ◌>>=◌, ◌>>◌, raise_if}
use obrasignal.FactoryCloud.Stamp.{Stamp, at, unreadable}

pub data Event : Type 0 where
  profile_ready market_data_available first_shortlist_generated : Event
  relevant_opportunity_viewed deep_analysis_completed go_no_go_generated : Event
  evidence_viewed alert_delivered action_taken paid_conversion post_conversion_churn : Event

pub data EvaluationError : Type 0 where
  unsupported_event : String → EvaluationError
  account_not_found evaluation_already_activated paid_account invalid_extension_days :
      EvaluationError
  extension_not_eligible extension_limit_exceeded evaluation_not_activated : EvaluationError

-- The values that the code writes in the column evaluation_status.
pub data Status : Type 0 where
  onboarding profile_is_ready value_ready evaluation_active paid closed expired : Status

pub data ValueStatus : Type 0 where
  exposure_pending exposed : ValueStatus
  other_value : String → ValueStatus

pub record Account : Type 0 where
  pub account_id : String
  pub plan : String
  pub created_at : Option Stamp
  pub evaluation_type : Option String
  pub evaluation_status : Option Status
  pub evaluation_activated_at : Option Stamp
  pub evaluation_ends_at : Option Stamp
  pub evaluation_extension_days : ℕ
  pub evaluation_value_status : Option ValueStatus
  pub evaluation_activation_reason : Option String
  pub evaluation_extension_reason : Option String

pub record EventRow : Type 0 where
  pub account_id : String
  pub event_name : Event
  pub occurred_at : ℕ
  pub metadata : String

pub record Store : Type 0 where
  pub accounts : List Account
  pub events : List EventRow

abbrev default_evaluation_days : ℕ
default_evaluation_days = 21

abbrev enterprise_pilot_days : ℕ
enterprise_pilot_days = 30

abbrev pub max_value_extension_days : ℕ
max_value_extension_days = 7

-- A day in microseconds.
abbrev pub day : ℕ
day = 86_400_000_000

-- `timedelta(days=n)`
abbrev pub days_of : ℕ → ℕ
days_of n = n * day

abbrev pub event_eq : Event → Event → Bool
event_eq profile_ready profile_ready = true
event_eq market_data_available market_data_available = true
event_eq first_shortlist_generated first_shortlist_generated = true
event_eq relevant_opportunity_viewed relevant_opportunity_viewed = true
event_eq deep_analysis_completed deep_analysis_completed = true
event_eq go_no_go_generated go_no_go_generated = true
event_eq evidence_viewed evidence_viewed = true
event_eq alert_delivered alert_delivered = true
event_eq action_taken action_taken = true
event_eq paid_conversion paid_conversion = true
event_eq post_conversion_churn post_conversion_churn = true
event_eq _ _ = false

-- ALLOWED_EVENTS, by their names.
unfoldable pub event_of : String → Option Event
event_of s =
    if s == "profile_ready"
    then some profile_ready
    else if s == "market_data_available"
    then some market_data_available
    else if s == "first_shortlist_generated"
    then some first_shortlist_generated
    else if s == "relevant_opportunity_viewed"
    then some relevant_opportunity_viewed
    else if s == "deep_analysis_completed"
    then some deep_analysis_completed
    else if s == "go_no_go_generated"
    then some go_no_go_generated
    else if s == "evidence_viewed"
    then some evidence_viewed
    else if s == "alert_delivered"
    then some alert_delivered
    else if s == "action_taken"
    then some action_taken
    else if s == "paid_conversion"
    then some paid_conversion
    else if s == "post_conversion_churn"
    then some post_conversion_churn
    else none

-- VALUE_EXPOSURE_EVENTS
abbrev pub is_value_exposure : Event → Bool
is_value_exposure first_shortlist_generated = true
is_value_exposure relevant_opportunity_viewed = true
is_value_exposure deep_analysis_completed = true
is_value_exposure go_no_go_generated = true
is_value_exposure evidence_viewed = true
is_value_exposure alert_delivered = true
is_value_exposure action_taken = true
is_value_exposure _ = false

-- ENGAGEMENT_EVENTS
abbrev pub is_engagement : Event → Bool
is_engagement relevant_opportunity_viewed = true
is_engagement deep_analysis_completed = true
is_engagement evidence_viewed = true
is_engagement action_taken = true
is_engagement _ = false

-- `_parse_iso`
abbrev pub parse_iso : Option Stamp → Option ℕ
parse_iso (some (at t)) = some t
parse_iso _ = none

-- `bool(column)` of a stored time.
abbrev pub stored : Option Stamp → Bool
stored none = false
stored (some (at t)) = true
stored (some (unreadable s)) = nonempty s

abbrev pub find_account : String → List Account → Option Account
find_account account_id = find? (λ a. a.account_id == account_id)

-- The UNIQUE columns of evaluation_events.
abbrev pub same_event : EventRow → EventRow → Bool
same_event e f =
    e.account_id == f.account_id
    && (event_eq e.event_name f.event_name && nat_eq e.occurred_at f.occurred_at)

-- `_insert_event`: INSERT OR IGNORE. `metadata` is the JSON text.
unfoldable pub insert_event : String → Event → ℕ → String → List EventRow → List EventRow
insert_event account_id event_name occurred_at metadata rows =
    let row : EventRow = record {
      account_id = account_id;
      event_name = event_name;
      occurred_at = occurred_at;
      metadata = metadata;
    } in
    if any (same_event row) rows then rows else rows ++ row ∷ []

-- `name in _event_names(conn, account_id)`
abbrev pub has_event : String → List EventRow → Event → Bool
has_event account_id rows name =
    any (λ e. e.account_id == account_id && event_eq e.event_name name) rows

-- `_duration_days`
abbrev pub duration_days : Option String → ℕ
duration_days evaluation_type =
    if opt_eq evaluation_type (some "enterprise")
    then enterprise_pilot_days
    else default_evaluation_days

-- `CASE WHEN evaluation_value_status IN (NULL,'EXPOSURE_PENDING') …`: in SQL a NULL column is in no
-- list, so the ELSE branch leaves it NULL.
abbrev pub expose : Option ValueStatus → Option ValueStatus
expose (some exposure_pending) = some exposed
expose v = v

abbrev pub activation_reason : String
activation_reason = "profile_ready+market_data_available+first_relevant_shortlist_generated"

-- The branches under `if not account.get("evaluation_activated_at")`, on the row of the account.
unfoldable pub advance : (has : Event → Bool) (now : ℕ) → Account → Account
advance has now a =
    if stored a.evaluation_activated_at
    then a
    else if has profile_ready && (has market_data_available && has first_shortlist_generated)
    then record a {
      evaluation_status = some evaluation_active;
      evaluation_activated_at = some (at now);
      evaluation_ends_at = some (at (now + days_of (duration_days a.evaluation_type)));
      evaluation_activation_reason = some activation_reason;
    }
    else if has profile_ready && has market_data_available
    then record a { evaluation_status = some value_ready }
    else if has profile_ready
    then record a { evaluation_status = some profile_is_ready }
    else record a { evaluation_status = some onboarding }

abbrev pub with_exposure : Event → Account → Account
with_exposure event a =
    if is_value_exposure event
    then record a { evaluation_value_status = expose a.evaluation_value_status }
    else a

-- `status in {None, "PAID", "CLOSED"}`
abbrev pub is_settled : Option Status → Bool
is_settled none = true
is_settled (some paid) = true
is_settled (some closed) = true
is_settled _ = false

-- `UPDATE accounts … WHERE account_id=?`: the primary key lets one row pass at most.
unfoldable pub modify : String → (Account → Account) → List Account → List Account
modify account_id f [] = []
modify account_id f (a ∷ accounts) = elim (a.account_id == account_id) [
  | true ↦ f a ∷ accounts
  | false ↦ a ∷ modify account_id f accounts
]

-- What `record_evaluation_event` does to the row of its account.
unfoldable pub advance_row : Event → (has : Event → Bool) (now : ℕ) → Account → Account
unfolding advance
advance_row event has now a =
    if is_settled a.evaluation_status then a else advance has now (with_exposure event a)

-- `record_evaluation_event`, without the summary that it returns.
unfoldable pub record_evaluation_event :
    (account_id event_name metadata : String) (now : ℕ) → Store → Result EvaluationError Store
unfolding advance_row insert_event
record_evaluation_event account_id event_name metadata now s = elim (event_of (strip event_name)) [
  | none ↦ err (unsupported_event (strip event_name))
  | some event ↦ elim (find_account account_id s.accounts) [
    | none ↦ err account_not_found
    | some a ↦
        let events = insert_event account_id event now metadata s.events in
        ok (record {
          accounts =
              modify account_id (advance_row event (has_event account_id events) now) s.accounts;
          events = events;
        })
  ]
]

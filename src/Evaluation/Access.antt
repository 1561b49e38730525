-- ===== src/Evaluation/Access.antt =====
-- evaluation_policy.py: what an account may use, the summary, and the next commercial action.
use obrasignal.Base.{
  ◌≡◌, ℕ, ◌+◌, ◌-◌, ◌/◌, ◌<◌, String, Bool, true, false, Option, none, some, List, leb,
  if◌then◌else◌, arith, ◌↔◌, ◌≢◌,
}
use obrasignal.Base.Text.{◌==◌, or_text}
use obrasignal.FactoryCloud.Stamp.{Stamp, at}
use obrasignal.Evaluation.{
  Account, Status, evaluation_active, paid, closed, expired, ValueStatus, other_value, EventRow,
  profile_ready, market_data_available, first_shortlist_generated, parse_iso, has_event, day,
}

pub record Access : Type 0 where
  pub plan : String
  pub active : Bool
  pub expires_at : Option Stamp
  pub evaluation_status : Status

abbrev pub instant : Option ℕ → Option Stamp
instant none = none
instant (some t) = some (at t)

-- `ends and ends <= current`
abbrev is_over : Option ℕ → ℕ → Bool
is_over none now = false
is_over (some t) now = leb t now

-- The branches of `evaluation_access_state` below the status that is not PAID.
abbrev pub access_of : Account → Status → ℕ → Access
access_of a status now =
    if is_over (parse_iso a.evaluation_ends_at) now
    then record {
      plan = "expired";
      active = false;
      expires_at = a.evaluation_ends_at;
      evaluation_status = expired;
    }
    else elim status [
      | closed ↦ record {
        plan = "expired";
        active = false;
        expires_at = instant (parse_iso a.evaluation_ends_at);
        evaluation_status = closed;
      }
      | other ↦ record {
        plan = "evaluation";
        active = true;
        expires_at = a.evaluation_ends_at;
        evaluation_status = other;
      }
    ]

-- `evaluation_access_state`
unfoldable pub evaluation_access_state : Account → ℕ → Option Access
evaluation_access_state a now = elim a.evaluation_status [
  | none ↦ none
  | some paid ↦ none
  | some status ↦ some (access_of a status now)
]

pub data Action : Type 0 where
  retain_and_expand convert_to_pro assisted_pilot_review demonstrate_value : Action
  complete_value_activation : Action

-- `_next_commercial_action`
unfoldable next_commercial_action : Status → String → Action
next_commercial_action paid evaluation_type = retain_and_expand
next_commercial_action expired evaluation_type = convert_to_pro
next_commercial_action closed evaluation_type = convert_to_pro
next_commercial_action evaluation_active evaluation_type =
    if evaluation_type == "enterprise" then assisted_pilot_review else demonstrate_value
next_commercial_action _ evaluation_type = complete_value_activation

pub record Requirements : Type 0 where
  pub profile : Bool
  pub market_data : Bool
  pub shortlist : Bool

pub record Summary : Type 0 where
  pub kind : String
  pub status : Status
  pub activated_at : Option Stamp
  pub ends_at : Option Stamp
  pub days_remaining : Option ℕ
  pub extension_days : ℕ
  pub extension_reason : Option String
  pub value_status : ValueStatus
  pub activation_reason : Option String
  pub next_action : Action
  pub requirements : Requirements

-- `max(0, ceil((ends - current).total_seconds() / 86400))`, in exact arithmetic.
abbrev days_left : ℕ → ℕ → ℕ
days_left ends now = (ends - now + (day - 1)) / day

abbrev pub remaining : Option ℕ → Status → ℕ → Option ℕ
remaining none status now = none
remaining (some ends) paid now = none
remaining (some ends) status now = some (days_left ends now)

abbrev shown_status : Account → Status → ℕ → Status
shown_status a status now = elim (evaluation_access_state a now) [
  | none ↦ status
  | some access ↦ access.evaluation_status
]

abbrev value_or_unknown : Option ValueStatus → ValueStatus
value_or_unknown none = other_value "UNKNOWN"
value_or_unknown (some v) = v

-- `evaluation_summary`
unfoldable pub evaluation_summary : List EventRow → Account → ℕ → Option Summary
unfolding evaluation_access_state next_commercial_action
evaluation_summary events a now = elim a.evaluation_status [
  | none ↦ none
  | some stored ↦
      let status = shown_status a stored now in
      let kind = or_text a.evaluation_type "legacy" in
      some (record {
        kind = kind;
        status = status;
        activated_at = a.evaluation_activated_at;
        ends_at = a.evaluation_ends_at;
        days_remaining = remaining (parse_iso a.evaluation_ends_at) status now;
        extension_days = a.evaluation_extension_days;
        extension_reason = a.evaluation_extension_reason;
        value_status = value_or_unknown a.evaluation_value_status;
        activation_reason = a.evaluation_activation_reason;
        next_action = next_commercial_action status kind;
        requirements = record {
          profile = has_event a.account_id events profile_ready;
          market_data = has_event a.account_id events market_data_available;
          shortlist = has_event a.account_id events first_shortlist_generated;
        };
      })
]

-- An evaluation that is neither paid nor absent gives access exactly while it is not closed and its
-- end, where it has a readable one, is still to come.
evaluation_access_state-active_iff :
    (a : Account) (now : ℕ) (x : Access)
    → evaluation_access_state a now ≡ some x
    → (x.active ≡ true) ↔ (
        (a.evaluation_status ≢ some closed)
        × (is_over (parse_iso a.evaluation_ends_at) now ≡ false))
unfolding evaluation_access_state
evaluation_access_state-active_iff a now x h = ground arith

-- The summary agrees with the access: as long as days remain an evaluation that is not closed has
-- access, and when none remain it has not and its action is to convert.
pub evaluation_summary-days_remaining :
    (events : List EventRow) (a : Account) (now : ℕ) (s : Summary) (x : Access) (d : ℕ)
    → evaluation_summary events a now ≡ some s
    → evaluation_access_state a now ≡ some x
    → a.evaluation_status ≢ some closed
    → s.days_remaining ≡ some d
    → ((0 < d) ↔ (x.active ≡ true)) × ((d ≡ 0) → s.next_action ≡ convert_to_pro)
unfolding evaluation_summary
evaluation_summary-days_remaining events a now s x d hs hx open_still hd = ground arith

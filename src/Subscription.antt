-- ===== src/Subscription.antt =====
-- account_registry.py: the accounts, their subscription and the billing gate. A row of the table
-- accounts is split in two: the columns of the evaluation are an Account of the evaluation policy,
-- the columns of the billing a Subscriber. Times are instants in microseconds. `upper` and `lower`
-- are `str.upper` and `str.lower`; a caller's identity, the check of a signature and the digest of a
-- body enter as values. A body that is not an event of texts and numbers, which is answered with 500, is
-- left out.
pub mod Requests
pub mod Gate
pub mod Tests
use obrasignal.Base.{
  ℕ, ◌*◌, String, Bool, true, false, not, ◌&&◌, ◌||◌, Option, none, some, List, [], ◌∷◌, ◌++◌, any,
  find?, map, select, sort_by, update, ltb, if◌then◌else◌, ◌==◌ as nat_eq,
}
use obrasignal.Base.Text.{
  ◌==◌, nonempty, present, or_else, or_none, or_text, member, under_folder, leb_text,
}
use obrasignal.FactoryCloud.Stamp.{Stamp, at, unreadable}
use obrasignal.FactoryCloud.StateStore.{coalesce}
use obrasignal.Evaluation.{Account, onboarding, exposure_pending, find_account, modify, stored}
use obrasignal.Evaluation.Grants.{mark_evaluation_paid, mark_post_conversion_churn}
use obrasignal.Evaluation
use obrasignal.Evaluation.Access.{Access, evaluation_access_state}

pub record Subscriber : Type 0 where
  pub account_id : String
  pub status : String
  pub trial_ends_at : Option Stamp
  pub entitlement_expires_at : Option Stamp
  pub store : Option String
  pub product_id : Option String
  pub original_transaction_id : Option String
  pub subscription_status : String
  pub billing_synced_at : Option ℕ

pub record Registry : Type 0 where
  pub evaluation : Evaluation.Store
  pub subscribers : List Subscriber
  pub webhook_events : List String

abbrev pub is_subscriber : String → Subscriber → Bool
is_subscriber account_id b = b.account_id == account_id

abbrev pub accounts : Registry → List Account
accounts reg = reg.evaluation.accounts

abbrev pub new_account : (account_id plan : String) (now : ℕ) → Account
new_account account_id plan now = record {
  account_id = account_id;
  plan = plan;
  created_at = some (at now);
  evaluation_type = some "self_service";
  evaluation_status = some onboarding;
  evaluation_activated_at = none;
  evaluation_ends_at = none;
  evaluation_extension_days = 0;
  evaluation_value_status = some exposure_pending;
  evaluation_activation_reason = none;
  evaluation_extension_reason = none;
}

abbrev pub new_subscriber : (account_id status : String) → Subscriber
new_subscriber account_id status = record {
  account_id = account_id;
  status = status;
  trial_ends_at = none;
  entitlement_expires_at = none;
  store = none;
  product_id = none;
  original_transaction_id = none;
  subscription_status = "none";
  billing_synced_at = none;
}

-- `ensure_account`, with its defaults for the status and the plan.
unfoldable pub ensure_account : (account_id : String) (now : ℕ) → Registry → Registry
ensure_account account_id now reg = elim (find_account account_id (accounts reg)) [
  | some a ↦ reg
  | none ↦ record reg {
    evaluation = record reg.evaluation {
      accounts = accounts reg ++ new_account account_id "evaluation" now ∷ [];
    };
    subscribers = reg.subscribers ++ new_subscriber account_id "active" ∷ [];
  }
]

-- `get_account`
abbrev pub get_account : String → Registry → Option (Account × Subscriber)
get_account account_id reg = elim (find_account account_id (accounts reg)) [
  | none ↦ none
  | some a ↦ elim (find? (is_subscriber account_id) reg.subscribers) [
    | none ↦ none
    | some b ↦ some (a, b)
  ]
]

-- What an update of the subscription gives; `none` keeps a column.
pub record Update : Type 0 where
  pub plan : String
  pub subscription_status : String
  pub entitlement_expires_at : Option Stamp
  pub store : Option String
  pub product_id : Option String
  pub original_transaction_id : Option String

abbrev pub updated : Update → ℕ → Subscriber → Subscriber
updated u now b = record b {
  subscription_status = u.subscription_status;
  entitlement_expires_at = coalesce u.entitlement_expires_at b.entitlement_expires_at;
  billing_synced_at = some now;
  store = coalesce u.store b.store;
  product_id = coalesce u.product_id b.product_id;
  original_transaction_id = coalesce u.original_transaction_id b.original_transaction_id;
}

abbrev pub with_plan : String → Account → Account
with_plan plan a = record a { plan = plan }

-- `subscription_status in {'active', 'trial', 'grace_period', 'cancelled'}`
abbrev pub pays : String → Bool
pays s = s == "active" || s == "trial" || s == "grace_period" || s == "cancelled"

abbrev pub no_metadata : String
no_metadata = "{}"

abbrev pub after_update :
    Update → (account_id : String) (now : ℕ) → Evaluation.Store → Evaluation.Store
after_update u account_id now s =
    if u.plan == "pro" && pays u.subscription_status
    then mark_evaluation_paid account_id no_metadata now s
    else if u.plan == "expired" || u.subscription_status == "expired"
    then mark_post_conversion_churn account_id no_metadata now s
    else s

unfoldable pub update_subscription :
    (account_id : String) → Update → (now : ℕ) → Registry → Registry
update_subscription account_id u now reg = record reg {
  evaluation =
      after_update u account_id now
        (record reg.evaluation { accounts = modify account_id (with_plan u.plan) (accounts reg) });
  subscribers = update (is_subscriber account_id) (updated u now) reg.subscribers;
}

-- ===== src/Subscription/Requests.antt =====
-- account_registry.py: the state of a subscription, the webhook that updates it, and the gate that reads it.
use obrasignal.Base.{
  ℕ, ◌*◌, String, Bool, true, false, not, ◌&&◌, ◌||◌, Option, none, some, List, [], ◌∷◌, any, map,
  select, sort_by, ltb, if◌then◌else◌, ◌==◌ as nat_eq,
}
use obrasignal.Base.Text.{◌==◌, present, or_else, or_none, or_text, member, under_folder, leb_text}
use obrasignal.FactoryCloud.Stamp.{Stamp, at, unreadable}
use obrasignal.Evaluation.{Account, stored}
use obrasignal.Evaluation.Access.{Access, evaluation_access_state}
use obrasignal.Subscription.{
  Subscriber, Registry, ensure_account, get_account, Update, pays, update_subscription,
}

pub record Subscription : Type 0 where
  pub plan : String
  pub active : Bool
  pub source : Option String
  pub expires_at : Option Stamp

-- `_parse_iso(value) > now`, where a value that is missing or unreadable is the least time.
abbrev is_after : Option Stamp → ℕ → Bool
is_after (some (at t)) now = ltb now t
is_after (some (unreadable s)) now = false
is_after none now = false

-- The set of the first test of `subscription_state`.
abbrev pub is_subscribed : String → Bool
is_subscribed s = pays s || s == "paused"

abbrev or_stamp : Option Stamp → Option Stamp → Option Stamp
or_stamp a b = if stored a then a else b

abbrev evaluation_subscription : Access → Subscription
evaluation_subscription x = record {
  plan = x.plan;
  active = x.active;
  source = some "evaluation";
  expires_at = x.expires_at;
}

abbrev without_evaluation : Account → Subscriber → ℕ → Subscription
without_evaluation a b now =
    if a.plan == "pilot" && (stored b.trial_ends_at && is_after b.trial_ends_at now)
    then record {
      plan = "pilot";
      active = true;
      source = some "trial";
      expires_at = b.trial_ends_at;
    }
    else record {
      plan = "expired";
      active = false;
      source = b.store;
      expires_at = or_stamp b.entitlement_expires_at b.trial_ends_at;
    }

abbrev state_of : Account → Subscriber → ℕ → Subscription
state_of a b now =
    if a.plan == "pro"
      && (is_subscribed b.subscription_status
          && (not (stored b.entitlement_expires_at) || is_after b.entitlement_expires_at now))
    then record {
      plan = "pro";
      active = true;
      source = b.store;
      expires_at = b.entitlement_expires_at;
    }
    else elim (evaluation_access_state a now) [
      | some x ↦ evaluation_subscription x
      | none ↦ without_evaluation a b now
    ]

unfoldable pub subscription_state : Option (Account × Subscriber) → ℕ → Subscription
subscription_state none now = record {
  plan = "none";
  active = false;
  source = none;
  expires_at = none;
}
subscription_state (some (a, b)) now = state_of a b now

-- The event of a webhook, by the keys that are read.
pub record Event : Type 0 where
  pub id : Option String
  pub app_user_id : Option String
  pub original_app_user_id : Option String
  pub event_type : Option String
  pub expiration_at_ms : Option ℕ
  pub store : Option String
  pub product_id : Option String
  pub original_transaction_id : Option String
  pub transaction_id : Option String

-- `active_events`
abbrev active_events : List String
active_events =
    "INITIAL_PURCHASE" ∷ "RENEWAL" ∷ "UNCANCELLATION" ∷ "PRODUCT_CHANGE" ∷ "SUBSCRIPTION_EXTENDED"
    ∷ "TRIAL_STARTED" ∷ "TRIAL_CONVERTED" ∷ []

-- The plan and the status that a type of event sets; `none` where it sets nothing.
unfoldable pub effect : String → Option (String × String)
effect event_type =
    if member event_type active_events
    then some ("pro", (if event_type == "TRIAL_STARTED" then "trial" else "active"))
    else if event_type == "SUBSCRIPTION_PAUSED"
    then some ("pro", "paused")
    else if event_type == "EXPIRATION"
    then some ("expired", "expired")
    else if event_type == "CANCELLATION" || event_type == "BILLING_ISSUE"
    then some ("pro", (if event_type == "CANCELLATION" then "cancelled" else "grace_period"))
    else none

abbrev expires_of : Option ℕ → Option Stamp
expires_of none = none
expires_of (some ms) = if nat_eq ms 0 then none else some (at (ms * 1000))

-- `event.get('id') or` the digest of the body.
abbrev pub event_id : (digest : String) → Event → String
event_id digest e = or_text e.id digest

module _ (upper lower : String → String) where
  abbrev update_of : Event → (plan status : String) → Update
  update_of e plan status = record {
    plan = plan;
    subscription_status = status;
    entitlement_expires_at = expires_of e.expiration_at_ms;
    store = or_none (lower (or_text e.store ""));
    product_id = e.product_id;
    original_transaction_id = or_else e.original_transaction_id e.transaction_id;
  }

  abbrev sync_user : Event → (app_user_id : String) (now : ℕ) → Registry → Registry
  sync_user e app_user_id now reg = elim (effect (upper (or_text e.event_type ""))) [
    | none ↦ ensure_account app_user_id now reg
    | some (plan, status) ↦
        update_subscription app_user_id (update_of e plan status) now
          (ensure_account app_user_id now reg)
  ]

  -- `_sync_account_from_webhook`
  unfoldable pub sync_account_from_webhook : Event → (now : ℕ) → Registry → Registry
  sync_account_from_webhook e now reg =
      let app_user_id = or_else e.app_user_id e.original_app_user_id in
      if present app_user_id then sync_user e (or_text app_user_id "") now reg else reg

  -- `billing_webhook`: the status of its response, and the registry.
  unfoldable pub billing_webhook :
      (is_signed : Bool) (digest : String) → Event → (now : ℕ) → Registry → ℕ × Registry
  billing_webhook is_signed digest e now reg =
      if not is_signed
      then (401, reg)
      else if member (event_id digest e) reg.webhook_events
      then (200, reg)
      else (let synced = sync_account_from_webhook e now reg in
          (200, record synced { webhook_events = event_id digest e ∷ synced.webhook_events }))

abbrev protected_paths : List String
protected_paths =
    "/api/v1/opportunities" ∷ "/api/v1/stats" ∷ "/api/v1/alerts" ∷ "/api/v1/workflow" ∷ []

-- `path == p or path.startswith(p + '/')`
abbrev pub is_protected : String → Bool
is_protected path = any (λ p. path == p || under_folder path p) protected_paths

-- `_billing_guard`: the plan of the 402 response, or `none` where the request goes on. `identity` is
-- `none` where there is no valid token.
unfoldable pub billing_guard :
    (path : String) (identity : Option String) (now : ℕ) → Registry → Option String × Registry
billing_guard path none now reg = (none, reg)
billing_guard path (some account_id) now reg =
    if not (is_protected path)
    then (none, reg)
    else (let known = ensure_account account_id now reg in
        let state = subscription_state (get_account account_id known) now in
        ((if state.active then none else some state.plan), known))

-- `list_active_accounts`
unfoldable list_active_accounts : Registry → List String
list_active_accounts reg =
    sort_by leb_text (map (λ b. b.account_id) (select (λ b. b.status == "active") reg.subscribers))

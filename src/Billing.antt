-- ===== src/Billing.antt =====
-- vertical_apps/industrial_claims/billing_state.py: the projection of verified payment events.
-- A store is the two tables. A row of `states` is unique for its account, a row of `events` for its
-- event id. `repr` is the text that Python gives to a list or an object, `fingerprint` the SHA-256
-- of the canonical JSON text of an event, or `none` where `json.dumps` refuses it.
use Prim.Native.String.{count}
pub mod Projection
pub mod Tests
pub mod Steps
pub mod Order
pub mod Replay
pub mod Receipts
pub mod Rows
use package.text.Mathlib.Text.{starts_with}
use obrasignal.Base.{
  ℕ, String, Bool, true, false, not, ◌&&◌, ◌||◌, Option, none, some, List, [], ◌∷◌, ◌++◌, ltb,
  if◌then◌else◌, find?, ◌==◌ as nat_eq,
}
use obrasignal.Base.Int.{pos, negsuc}
use obrasignal.Base.Text.{◌==◌, nonempty, present, or_else, opt_eq, strip}
use obrasignal.Base.Json.{Json, int, Fields, get, fields, is_object, or_json, text_or, is_null}
use obrasignal.Base.Result.{Result, ok, err, ◌>>=◌, ◌>>◌, raise_if}

pub data State : Type 0 where
  pending_payment_confirmation active past_due cancelled refunded : State

pub data BillingError : Type 0 where
  required too_long : String → BillingError
  invalid_created not_serializable event_not_object object_required unsupported : BillingError
  event_id_collision no_projected_state customer_mismatch subscription_mismatch : BillingError
  ambiguous_transition : BillingError

pub record BillingState : Type 0 where
  pub account_id : String
  pub customer_id : Option String
  pub subscription_id : Option String
  pub state : State
  pub last_event_id : String

-- vindorum_billing_state
pub record Row : Type 0 where
  pub account_id : String
  pub customer_id : Option String
  pub subscription_id : Option String
  pub state : State
  pub last_event_id : String
  pub last_event_created : ℕ

-- vindorum_billing_events
pub record Receipt : Type 0 where
  pub event_id : String
  pub event_type : String
  pub account_id : String
  pub event_created : ℕ
  pub event_fingerprint : Option String
  pub applied_to_projection : Bool

pub record Store : Type 0 where
  pub states : List Row
  pub events : List Receipt

-- What `apply_verified_event` has read from the event when its transaction begins.
pub record Incoming : Type 0 where
  pub event_id : String
  pub event_type : String
  pub event_created : ℕ
  pub fingerprint : String
  pub account_id : String
  pub customer_id : Option String
  pub subscription_id : Option String
  pub next_state : State

abbrev max_text : ℕ
max_text = 512

-- `_text(value, field)`
unfoldable pub text : (Json → String) → Json → String → Result BillingError String
text repr value field =
    let t = strip (text_or repr value) in
    if not (nonempty t)
    then err (required field)
    else if ltb max_text (count t)
    then err (too_long field)
    else ok t

-- `_text(value, field, optional=True)`
unfoldable pub optional_text : (Json → String) → Json → String → Result BillingError (Option String)
optional_text repr value field =
    let t = strip (text_or repr value) in
    if is_null value
    then ok none
    else if not (nonempty t)
    then ok none
    else if ltb max_text (count t)
    then err (too_long field)
    else ok (some t)

unfoldable pub event_created : Json → Result BillingError ℕ
event_created (int (pos n)) = ok n
event_created _ = err invalid_created

abbrev from_option : {A : Type 0} → Option A → BillingError → Result BillingError A
from_option none e = err e
from_option (some a) e = ok a

-- The table `transitions` of `apply_verified_event`.
unfoldable pub transition : String → Option State
transition event_type =
    if event_type == "checkout.session.completed"
    then some pending_payment_confirmation
    else if event_type == "invoice.paid"
    then some active
    else if event_type == "invoice.payment_failed"
    then some past_due
    else if event_type == "customer.subscription.deleted"
    then some cancelled
    else if event_type == "charge.refunded"
    then some refunded
    else none

abbrev subscription_key : String → String
subscription_key event_type = if starts_with event_type "customer.subscription." then "id" else ""

module _ (repr : Json → String) (fingerprint : Json → Option String) where
  -- `apply_verified_event` up to its transaction: the checks in the order of the code.
  unfoldable pub parse : Json → Result BillingError Incoming
  parse event = do
    raise_if (not (is_object event)) event_not_object
    event_id ← text repr (get (fields event) "id") "event id"
    event_type ← text repr (get (fields event) "type") "event type"
    created ← event_created (get (fields event) "created")
    print ← from_option (fingerprint event) not_serializable
    let object = get (fields (get (fields event) "data")) "object"
    raise_if (not (is_object object)) object_required
    let metadata = fields (get (fields object) "metadata")
    account_id ← text repr (get metadata "vindorum_account_id") "vindorum_account_id"
    customer_id ← optional_text repr (get (fields object) "customer") "customer"
    subscription_id ←
        optional_text repr
          (or_json (get (fields object) "subscription")
            (get (fields object) (subscription_key event_type)))
          "subscription"
    next_state ← from_option (transition event_type) unsupported
    ok (record {
      event_id = event_id;
      event_type = event_type;
      event_created = created;
      fingerprint = print;
      account_id = account_id;
      customer_id = customer_id;
      subscription_id = subscription_id;
      next_state = next_state;
    })

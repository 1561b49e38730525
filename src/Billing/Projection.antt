-- ===== src/Billing/Projection.antt =====
-- vertical_apps/industrial_claims/billing_state.py: the judgement of an event, and the transaction.
use obrasignal.Base.{
  String, Bool, true, false, not, ◌&&◌, ◌||◌, Option, none, some, List, [], ◌∷◌, ◌++◌, ltb,
  if◌then◌else◌, find?, ◌==◌ as nat_eq,
}
use obrasignal.Base.Text.{◌==◌, present, or_else, opt_eq}
use obrasignal.Base.Json.{Json}
use obrasignal.Base.Result.{Result, ok, err, ◌>>=◌}
use obrasignal.Billing.{
  State, pending_payment_confirmation, active, past_due, cancelled, refunded, BillingError,
  event_id_collision, no_projected_state, customer_mismatch, subscription_mismatch,
  ambiguous_transition, BillingState, Row, Receipt, Store, Incoming, parse,
}

-- `_row_to_state`
abbrev pub row_to_state : Row → BillingState
row_to_state r = record {
  account_id = r.account_id;
  customer_id = r.customer_id;
  subscription_id = r.subscription_id;
  state = r.state;
  last_event_id = r.last_event_id;
}

-- `_TERMINAL_STATES`
abbrev pub is_terminal : State → Bool
is_terminal cancelled = true
is_terminal refunded = true
is_terminal _ = false

abbrev state_eq : State → State → Bool
state_eq pending_payment_confirmation pending_payment_confirmation = true
state_eq active active = true
state_eq past_due past_due = true
state_eq cancelled cancelled = true
state_eq refunded refunded = true
state_eq _ _ = false

-- `current and incoming and incoming != current`
abbrev pub rebinds : Option String → Option String → Bool
rebinds current incoming = present current && present incoming && not (opt_eq incoming current)

unfoldable pub ignore_without_regression :
    (current_state : State) (current_subscription incoming_subscription : Option String)
    (next_state : State)
    → Bool
ignore_without_regression current_state current_subscription incoming_subscription next_state =
    let rebind = rebinds current_subscription incoming_subscription in
    if state_eq current_state refunded && not rebind
    then not (state_eq next_state refunded)
    else if state_eq current_state cancelled && not rebind
    then state_eq next_state pending_payment_confirmation
      || state_eq next_state active
      || state_eq next_state past_due
    else (state_eq current_state active || state_eq current_state past_due)
      && state_eq next_state pending_payment_confirmation

-- The set of pairs at the end of `_same_timestamp_transition_is_safe`.
abbrev safe_pair : State → State → Bool
safe_pair pending_payment_confirmation active = true
safe_pair pending_payment_confirmation past_due = true
safe_pair pending_payment_confirmation cancelled = true
safe_pair pending_payment_confirmation refunded = true
safe_pair active cancelled = true
safe_pair active refunded = true
safe_pair past_due cancelled = true
safe_pair past_due refunded = true
safe_pair cancelled refunded = true
safe_pair _ _ = false

unfoldable same_timestamp_transition_is_safe : (current_state next_state : State) → Bool → Bool
same_timestamp_transition_is_safe current_state next_state subscription_rebind =
    if state_eq current_state next_state
    then true
    else if subscription_rebind && is_terminal current_state
    then state_eq next_state pending_payment_confirmation || state_eq next_state active
    else safe_pair current_state next_state

-- What the branches under `if current:` settle for the row that is there.
pub data Verdict : Type 0 where
  keep advance : Verdict
  reject : BillingError → Verdict

unfoldable pub judge : Row → Incoming → Verdict
unfolding ignore_without_regression same_timestamp_transition_is_safe
judge r e =
    let rebind = rebinds r.subscription_id e.subscription_id in
    if ltb e.event_created r.last_event_created
    then keep
    else if rebinds r.customer_id e.customer_id
    then reject customer_mismatch
    else if rebind
        && not (
            is_terminal r.state
            && (e.event_type == "checkout.session.completed" || e.event_type == "invoice.paid"))
    then reject subscription_mismatch
    else if ignore_without_regression r.state r.subscription_id e.subscription_id e.next_state
    then keep
    else if nat_eq e.event_created r.last_event_created
        && not (same_timestamp_transition_is_safe r.state e.next_state rebind)
    then reject ambiguous_transition
    else advance

abbrev pub find_row : String → List Row → Option Row
find_row account_id = find? (λ r. r.account_id == account_id)

abbrev pub find_receipt : String → List Receipt → Option Receipt
find_receipt event_id = find? (λ r. r.event_id == event_id)

-- `_insert_receipt`
abbrev pub receipt : Incoming → Bool → Receipt
receipt e applied = record {
  event_id = e.event_id;
  event_type = e.event_type;
  account_id = e.account_id;
  event_created = e.event_created;
  event_fingerprint = some e.fingerprint;
  applied_to_projection = applied;
}

abbrev pub insert_receipt : Store → Incoming → Bool → Store
insert_receipt s e applied = record s { events = s.events ++ receipt e applied ∷ [] }

-- `INSERT … ON CONFLICT(account_id) DO UPDATE`
unfoldable pub upsert : Row → List Row → List Row
upsert r [] = r ∷ []
upsert r (q ∷ rows) = elim (q.account_id == r.account_id) [
  | true ↦ r ∷ rows
  | false ↦ q ∷ upsert r rows
]

abbrev pub projected : Incoming → (customer_id subscription_id : Option String) → Row
projected e customer_id subscription_id = record {
  account_id = e.account_id;
  customer_id = customer_id;
  subscription_id = subscription_id;
  state = e.next_state;
  last_event_id = e.event_id;
  last_event_created = e.event_created;
}

abbrev pub advance_to : Store → Incoming → Row → BillingState × Store
advance_to s e r = (
  row_to_state r,
  record { states = upsert r s.states; events = s.events ++ receipt e true ∷ [] },
)

-- The bound-in values of an accepted event on a row: `customer_id or current_customer`, and so on.
abbrev pub next_row : Row → Incoming → Row
next_row r e =
    projected e (or_else e.customer_id r.customer_id) (or_else e.subscription_id r.subscription_id)

abbrev pub settle : Store → Incoming → Row → Verdict → Result BillingError (BillingState × Store)
settle s e r keep = ok (row_to_state r, insert_receipt s e false)
settle s e r advance = ok (advance_to s e (next_row r e))
settle s e r (reject x) = err x

unfoldable pub project : Store → Incoming → Option Row → Result BillingError (BillingState × Store)
project s e none = ok (advance_to s e (projected e e.customer_id e.subscription_id))
project s e (some r) = settle s e r (judge r e)

-- `seen != (event_type, account_id, event_created, fingerprint)`, negated.
abbrev pub same_event : Receipt → Incoming → Bool
same_event r e =
    r.event_type == e.event_type
    && r.account_id == e.account_id
    && nat_eq r.event_created e.event_created
    && opt_eq r.event_fingerprint (some e.fingerprint)

abbrev replay_row : Store → Option Row → Result BillingError (BillingState × Store)
replay_row s none = err no_projected_state
replay_row s (some r) = ok (row_to_state r, s)

unfoldable pub replay : Store → Incoming → Receipt → Result BillingError (BillingState × Store)
replay s e seen =
    if same_event seen e
    then replay_row s (find_row e.account_id s.states)
    else err event_id_collision

abbrev pub transact_on :
    Store → Incoming → Option Receipt → Result BillingError (BillingState × Store)
transact_on s e none = project s e (find_row e.account_id s.states)
transact_on s e (some seen) = replay s e seen

-- The transaction. An error leaves the `with` block by an exception, which rolls it back.
unfoldable pub transact : Store → Incoming → Result BillingError (BillingState × Store)
transact s e = transact_on s e (find_receipt e.event_id s.events)

module _ (repr : Json → String) (fingerprint : Json → Option String) where
  unfoldable pub apply_verified_event : Store → Json → Result BillingError (BillingState × Store)
  apply_verified_event s event = do e ← parse repr fingerprint event; transact s e

-- The tables after the transaction, committed or rolled back.
abbrev pub committed : Store → Result BillingError (BillingState × Store) → Store
committed s (ok (_, t)) = t
committed s (err _) = s

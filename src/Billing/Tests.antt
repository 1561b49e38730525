-- ===== src/Billing/Tests.antt =====
-- Runs of the billing projection on concrete events.
use obrasignal.Base.{◌≡◌, refl, String, Option, none, some, List, [], ◌∷◌, true, false}
use obrasignal.Base.Int.{pos}
use obrasignal.Base.Json.{Json, int, str, obj, end, field}
use obrasignal.Base.Result.{ok, err}
use obrasignal.Billing.{
  Store, Row, BillingState, active, parse, text, optional_text, event_created, transition,
  unsupported, Receipt,
}
use obrasignal.Billing.Projection.{
  apply_verified_event, committed, transact, project, replay, judge, upsert, find_row, find_receipt,
}
use Prim.Native.Nat.{ℕ}
use obrasignal.Billing.Order.{
  deliver, deliver_all, Extends, Delivered, deliver-Delivered, deliver_all-Extends,
}
use obrasignal.Billing.Replay.{apply_verified_event_idempotent}
use obrasignal.Billing.Receipts.{IsConsistent, deliver_all-find_receipt, deliver_all-IsConsistent}

abbrev pub repr : Json → String
repr v = ""

abbrev pub print : Json → Option String
print v = some "f"

abbrev pub event : String → String → ℕ → Json
event ident kind created = obj (
    field "id" (str ident) (
      field "type" (str kind) (
        field "created" (int (pos created)) (
          field "data"
            (obj (
              field "object"
                (obj (
                  field "customer" (str " cus ") (
                    field "subscription" (str "sub")
                      (field "metadata" (obj (field "vindorum_account_id" (str "acc") end)) end))))
                end))
            end))))

abbrev pub empty : Store
empty = record { states = []; events = [] }

pub program : Unit {0}
unfolding apply_verified_event parse text optional_text event_created transition transact project
    replay judge upsert obrasignal.Base.Text.strip
program = tt

abbrev paid : BillingState
paid = record {
  account_id = "acc";
  customer_id = some "cus";
  subscription_id = some "sub";
  state = active;
  last_event_id = "e1";
}

abbrev after_paid : Store
after_paid = committed empty (apply_verified_event repr print empty (event "e1" "invoice.paid" 5))

paid_row : Row
paid_row = record {
  account_id = "acc";
  customer_id = some "cus";
  subscription_id = some "sub";
  state = active;
  last_event_id = "e1";
  last_event_created = 5;
}

paid_test : after_paid.states ≡ paid_row ∷ []
unfolding program paid_row
paid_test = refl

unsupported_test :
    apply_verified_event repr print empty (event "e1" "invoice.voided" 5) ≡ err unsupported
unfolding program
unsupported_test = refl

stale_test :
    (committed after_paid
      (apply_verified_event repr print after_paid (event "e2" "charge.refunded" 4))).states
    ≡ after_paid.states
unfolding program
stale_test = refl

found_paid : find_row "acc" after_paid.states ≡ some paid_row
unfolding program paid_row
found_paid = refl

-- A refund, then another subscription that is paid, then a stale failure.
abbrev later_events : List Json
later_events =
    event "e2" "charge.refunded" 6
    ∷ event "e3" "invoice.paid" 7
    ∷ event "e4" "invoice.payment_failed" 5
    ∷ []

deliver_all-Extends_example :
    (q : Row) × (find_row "acc" (deliver_all repr print after_paid later_events).states ≡ some q)
    × Extends paid_row q
deliver_all-Extends_example =
    deliver_all-Extends repr print later_events after_paid "acc" paid_row found_paid

deliver-Delivered_example :
    Delivered paid_row
      (find_row "acc" (deliver repr print after_paid (event "e2" "charge.refunded" 6)).states)
deliver-Delivered_example =
    deliver-Delivered repr print after_paid (event "e2" "charge.refunded" 6) "acc" paid_row
      found_paid

first_delivery :
    apply_verified_event repr print empty (event "e1" "invoice.paid" 5) ≡ ok (paid, after_paid)
unfolding program
first_delivery = refl

apply_verified_event_idempotent_example :
    apply_verified_event repr print after_paid (event "e1" "invoice.paid" 5) ≡ ok (paid, after_paid)
apply_verified_event_idempotent_example =
    apply_verified_event_idempotent repr print empty (event "e1" "invoice.paid" 5) paid after_paid
      first_delivery

first_receipt : Receipt
first_receipt = record {
  event_id = "e1";
  event_type = "invoice.paid";
  account_id = "acc";
  event_created = 5;
  event_fingerprint = some "f";
  applied_to_projection = true;
}

found_receipt : find_receipt "e1" after_paid.events ≡ some first_receipt
unfolding program first_receipt
found_receipt = refl

deliver_all-find_receipt_example :
    find_receipt "e1" (deliver_all repr print after_paid later_events).events ≡ some first_receipt
deliver_all-find_receipt_example =
    deliver_all-find_receipt repr print later_events after_paid "e1" first_receipt found_receipt

empty-IsConsistent : IsConsistent empty
empty-IsConsistent a r h = cc

deliver_all-IsConsistent_example :
    IsConsistent (deliver_all repr print empty (event "e1" "invoice.paid" 5 ∷ later_events))
deliver_all-IsConsistent_example =
    deliver_all-IsConsistent repr print (event "e1" "invoice.paid" 5 ∷ later_events) empty
      empty-IsConsistent

-- ===== src/Subscription/Tests.antt =====
-- A webhook that is delivered twice, and the gate after a purchase.
use obrasignal.Base.{◌≡◌, refl, String, none, some, [], ◌∷◌, arith, true}
use obrasignal.FactoryCloud.Stamp.{at}
use obrasignal.Base.Text.{under_folder}
use obrasignal.Evaluation.{modify, insert_event}
use obrasignal.Evaluation.Grants.{mark_evaluation_paid}
use obrasignal.Evaluation.Access.{evaluation_access_state}
use obrasignal.Subscription.{
  Registry, Update, new_account, new_subscriber, ensure_account, update_subscription,
}
use obrasignal.Subscription.Requests.{
  Event, subscription_state, effect, sync_account_from_webhook, billing_webhook, billing_guard,
}
use obrasignal.Subscription.Gate.{billing_webhook_idempotent, update_subscription-access}

abbrev known : Registry
known = record {
  evaluation = record { accounts = new_account "acc" "expired" 0 ∷ []; events = [] };
  subscribers = new_subscriber "acc" "active" ∷ [];
  webhook_events = [];
}

abbrev same_case : String → String
same_case s = s

abbrev purchase : Event
purchase = record {
  id = some "evt";
  app_user_id = some "acc";
  original_app_user_id = none;
  event_type = some "RENEWAL";
  expiration_at_ms = some 1000;
  store = some "play_store";
  product_id = some "pro_month";
  original_transaction_id = some "tx";
  transaction_id = none;
}

program : Unit {0}
unfolding billing_webhook sync_account_from_webhook effect update_subscription ensure_account modify
    mark_evaluation_paid insert_event subscription_state evaluation_access_state billing_guard
    under_folder
program = tt

purchased :
    (billing_guard "/api/v1/alerts"
      (some "acc")
      500
      (billing_webhook same_case same_case true "d" purchase 3 known).1).0
    ≡ none
unfolding program
purchased = refl

billing_webhook_idempotent_example :
    billing_webhook same_case same_case true "d" purchase 9
      (billing_webhook same_case same_case true "d" purchase 3 known).1
    ≡ (200, (billing_webhook same_case same_case true "d" purchase 3 known).1)
billing_webhook_idempotent_example =
    billing_webhook_idempotent same_case same_case "d" "d" purchase purchase 3 9 known refl

abbrev pro : Update
pro = record {
  plan = "pro";
  subscription_status = "active";
  entitlement_expires_at = some (at 1000);
  store = some "play_store";
  product_id = none;
  original_transaction_id = none;
}

update_subscription-access_example :
    billing_guard "/api/v1/alerts" (some "acc") 500 (update_subscription "acc" pro 3 known)
    ≡ (none, update_subscription "acc" pro 3 known)
update_subscription-access_example =
    update_subscription-access "acc" "/api/v1/alerts" pro 3 500 1000 known
      {a = new_account "acc" "expired" 0} {b = new_subscriber "acc" "active"} refl refl refl refl
      refl (omega arith)

-- ===== src/Billing/Replay.antt =====
-- A second delivery of an accepted event.
use obrasignal.Base.{
  ◌≡◌, refl, String, Option, none, some, List, [], ◌∷◌, ◌++◌, Bool, true, false, arith, ==_iff,
}
use obrasignal.Base.Text.{opt_eq_refl, eq_refl}
use obrasignal.Base.Json.{Json}
use obrasignal.Base.Result.{ok, >>=-returns}
use obrasignal.Billing.{BillingState, Row, Receipt, Store, Incoming, parse}
use obrasignal.Billing.Projection.{
  Verdict, keep, advance, reject, judge, next_row, projected, receipt, settle, project, replay,
  transact, transact_on, same_event, apply_verified_event, find_row, find_receipt, upsert,
  row_to_state,
}
use obrasignal.Billing.Rows.{find_row-upsert, find_receipt-append_none}

same_event-receipt : (e : Incoming) (applied : Bool) → same_event (receipt e applied) e ≡ true
same_event-receipt e applied = ground (
  arith,
  eq_refl e.event_type,
  eq_refl e.account_id,
  (==_iff e.event_created e.event_created).1 refl,
  opt_eq_refl (some e.fingerprint),
)

-- What a transaction of a new event leaves: its receipt behind the others, and a row whose state
-- is the result.
pub record Recorded (s : Store) (e : Incoming) (st : BillingState) (t : Store) : Type 0 where
  pub applied : Bool
  pub events : t.events ≡ s.events ++ receipt e applied ∷ []
  pub row : Row
  pub found : find_row e.account_id t.states ≡ some row
  pub result : row_to_state row ≡ st

find_row-upsert_self :
    (rows : List Row) (r : Row) (a : String)
    → r.account_id ≡ a
    → find_row a (upsert r rows) ≡ some r
find_row-upsert_self rows r a h = rw (find_row-upsert, h, eq_refl)

settle-Recorded :
    (s : Store) (e : Incoming) (r : Row) (v : Verdict) (st : BillingState) (t : Store)
    → find_row e.account_id s.states ≡ some r
    → settle s e r v ≡ ok (st, t)
    → Recorded s e st t
settle-Recorded s e r keep st t f h = record {
  applied = false;
  events = ground arith;
  row = r;
  found = ground arith;
  result = cc;
}
settle-Recorded s e r (reject x) st t f h = cc
settle-Recorded s e r advance st t f h = record {
  applied = true;
  events = ground arith;
  row = next_row r e;
  found = ground (arith, find_row-upsert_self s.states (next_row r e) e.account_id refl);
  result = ground arith;
}

project-Recorded :
    (s : Store) (e : Incoming) (o : Option Row) (st : BillingState) (t : Store)
    → find_row e.account_id s.states ≡ o
    → project s e o ≡ ok (st, t)
    → Recorded s e st t
unfolding project
project-Recorded s e none st t f h =
    let r : Row = projected e e.customer_id e.subscription_id in
    record {
      applied = true;
      events = ground arith;
      row = r;
      found = ground (arith, find_row-upsert_self s.states r e.account_id refl);
      result = ground arith;
    }
project-Recorded s e (some r) st t f h = settle-Recorded s e r (judge r e) st t f h

Recorded-transact :
    (s : Store) (e : Incoming) (st : BillingState) (t : Store)
    → find_receipt e.event_id s.events ≡ none
    → Recorded s e st t
    → transact t e ≡ ok (st, t)
unfolding transact replay
Recorded-transact s e st t fresh rec =
    let seen : find_receipt e.event_id t.events ≡ some (receipt e rec.applied) = rw (
      rec.events,
      find_receipt-append_none e.event_id s.events (receipt e rec.applied) fresh,
      eq_refl,
    ) in
    rw (seen, same_event-receipt e rec.applied, rec.found, rec.result)

pub replay-same :
    (s : Store) (e : Incoming) (seen : Receipt) (st : BillingState) (t : Store)
    → replay s e seen ≡ ok (st, t)
    → t ≡ s
unfolding replay
replay-same s e seen st t h = ground arith

transact_again :
    (s : Store) (e : Incoming) (o : Option Receipt) (st : BillingState) (t : Store)
    → find_receipt e.event_id s.events ≡ o
    → transact_on s e o ≡ ok (st, t)
    → transact t e ≡ ok (st, t)
unfolding transact
transact_again s e none st t f h = Recorded-transact s e st t f (project-Recorded s e _ st t refl h)
transact_again s e (some seen) st t f h =
    let still : t ≡ s = replay-same s e seen st t h in rw still (rw f (rw still at h))

-- Delivering an accepted event a second time gives the same result and changes no table.
pub apply_verified_event_idempotent :
    (repr : Json → String) (fingerprint : Json → Option String) (s : Store) (event : Json)
    (st : BillingState) (t : Store)
    → apply_verified_event repr fingerprint s event ≡ ok (st, t)
    → apply_verified_event repr fingerprint t event ≡ ok (st, t)
unfolding apply_verified_event transact
apply_verified_event_idempotent repr fingerprint s event st t h =
    let (e, parsed, run) = >>=-returns (parse repr fingerprint event) (transact s) h in
    rw parsed (transact_again s e _ st t refl run)

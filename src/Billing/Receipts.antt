-- ===== src/Billing/Receipts.antt =====
-- The receipts: never rewritten, and behind every projected row.
use obrasignal.Base.{
  ◌≡◌, refl, String, Option, none, some, List, [], ◌∷◌, ◌++◌, Bool, true, false, arith, sym, ◌⊎◌,
  inl, inr, Bool-cases,
}
use obrasignal.Base.Text.{eq_refl, ◌==◌}
use obrasignal.Base.Json.{Json}
use obrasignal.Base.Result.{Result, ok, err, >>=-returns}
use obrasignal.Billing.{BillingError, BillingState, Row, Receipt, Store, Incoming, parse}
use obrasignal.Billing.Projection.{
  Verdict, keep, advance, reject, judge, next_row, receipt, settle, project, transact, transact_on,
  committed, apply_verified_event, find_row, find_receipt, advance_to, insert_receipt, projected,
}
use mathlib.Core.Path.{subst}
use mathlib.Core.Option.{some-injective}
use obrasignal.Billing.Rows.{find_row-upsert, find_receipt-append_none, find_receipt-append_some}
use obrasignal.Billing.Replay.{replay-same}
use obrasignal.Billing.Order.{deliver, deliver_all}

-- A projected row rests on a receipt of its account that was applied, with its time.
pub record IsBacked (s : Store) (r : Row) : Type 0 where
  pub receipt : Receipt
  pub found : find_receipt r.last_event_id s.events ≡ some receipt
  pub account : receipt.account_id ≡ r.account_id
  pub created : receipt.event_created ≡ r.last_event_created
  pub applied : receipt.applied_to_projection ≡ true

abbrev pub IsConsistent : Store → Type 0
IsConsistent s = (a : String) (r : Row) → find_row a s.states ≡ some r → IsBacked s r

-- What every transaction keeps, and adds for a row that it writes.
record Keeps (s t : Store) : Type 0 where
  receipts :
      (i : String) (q : Receipt)
      → find_receipt i s.events ≡ some q
      → find_receipt i t.events ≡ some q
  rows :
      (a : String) (r : Row)
      → find_row a t.states ≡ some r
      → (find_row a s.states ≡ some r) ⊎ IsBacked t r

Keeps-refl : (s : Store) → Keeps s s
Keeps-refl s = record { receipts = λ i q f. f; rows = λ a r f. inl f }

IsBacked-Keeps : {s t : Store} {r : Row} → Keeps s t → IsBacked s r → IsBacked t r
IsBacked-Keeps {s} {t} {r} k b = record {
  receipt = b.receipt;
  found = k.receipts r.last_event_id b.receipt b.found;
  account = b.account;
  created = b.created;
  applied = b.applied;
}

new_receipt :
    (s : Store) (e : Incoming) (b : Bool)
    → find_receipt e.event_id s.events ≡ none
    → find_receipt e.event_id (s.events ++ receipt e b ∷ []) ≡ some (receipt e b)
new_receipt s e b fresh =
    rw (find_receipt-append_none e.event_id s.events (receipt e b) fresh, eq_refl)

advance-IsBacked :
    (s : Store) (e : Incoming) (r : Row)
    → find_receipt e.event_id s.events ≡ none
    → r.account_id ≡ e.account_id
    → r.last_event_id ≡ e.event_id
    → r.last_event_created ≡ e.event_created
    → IsBacked (advance_to s e r).1 r
advance-IsBacked s e r fresh a i c = record {
  receipt = receipt e true;
  found = rw i (new_receipt s e true fresh);
  account = sym a;
  created = sym c;
  applied = refl;
}

advance-Keeps :
    (s : Store) (e : Incoming) (r : Row)
    → find_receipt e.event_id s.events ≡ none
    → r.account_id ≡ e.account_id
    → r.last_event_id ≡ e.event_id
    → r.last_event_created ≡ e.event_created
    → Keeps s (advance_to s e r).1
advance-Keeps s e r fresh a i c = record {
  receipts = λ j q f. find_receipt-append_some j s.events (receipt e true) q f;
  rows = λ b q f. elim (Bool-cases (r.account_id == b)) [
    | inl hit ↦
        let same : some r ≡ some q = rw (find_row-upsert, hit) at f in
        inr (
          subst (IsBacked (advance_to s e r).1) (some-injective r q same)
            (advance-IsBacked s e r fresh a i c))
    | inr other ↦ inl (rw (find_row-upsert, other) at f)
  ];
}

settle-Keeps :
    (s : Store) (e : Incoming) (r : Row) (v : Verdict) (st : BillingState) (t : Store)
    → find_receipt e.event_id s.events ≡ none
    → settle s e r v ≡ ok (st, t)
    → Keeps s t
settle-Keeps s e r keep st t fresh h =
    let still : t ≡ insert_receipt s e false = ground arith in
    rw still (record {
      receipts = λ j q f. find_receipt-append_some j s.events (receipt e false) q f;
      rows = λ a q f. inl f;
    })
settle-Keeps s e r (reject x) st t fresh h = cc
settle-Keeps s e r advance st t fresh h =
    let moved : t ≡ (advance_to s e (next_row r e)).1 = ground arith in
    rw moved (advance-Keeps s e (next_row r e) fresh refl refl refl)

project-Keeps :
    (s : Store) (e : Incoming) (o : Option Row) (st : BillingState) (t : Store)
    → find_receipt e.event_id s.events ≡ none
    → project s e o ≡ ok (st, t)
    → Keeps s t
unfolding project
project-Keeps s e none st t fresh h =
    let r : Row = projected e e.customer_id e.subscription_id in
    let moved : t ≡ (advance_to s e r).1 = ground arith in
    rw moved (advance-Keeps s e r fresh refl refl refl)
project-Keeps s e (some r) st t fresh h = settle-Keeps s e r (judge r e) st t fresh h

transact_on-Keeps :
    (s : Store) (e : Incoming) (o : Option Receipt) (st : BillingState) (t : Store)
    → find_receipt e.event_id s.events ≡ o
    → transact_on s e o ≡ ok (st, t)
    → Keeps s t
transact_on-Keeps s e (some seen) st t f h = rw (replay-same s e seen st t h) (Keeps-refl s)
transact_on-Keeps s e none st t f h = project-Keeps s e _ st t f h

module _ (repr : Json → String) (fingerprint : Json → Option String) where
  apply-Keeps :
      (s : Store) (event : Json) (result : Result BillingError (BillingState × Store))
      → apply_verified_event repr fingerprint s event ≡ result
      → Keeps s (committed s result)
  unfolding apply_verified_event transact
  apply-Keeps s event (err x) h = Keeps-refl s
  apply-Keeps s event (ok (st, t)) h =
      let (e, parsed, run) = >>=-returns (parse repr fingerprint event) (transact s) h in
      transact_on-Keeps s e _ st t refl run

  -- No delivery rewrites or removes a receipt: what an event id finds, it finds afterwards.
  pub deliver_all-find_receipt :
      (events : List Json) (s : Store) (i : String) (q : Receipt)
      → find_receipt i s.events ≡ some q
      → find_receipt i (deliver_all repr fingerprint s events).events ≡ some q
  deliver_all-find_receipt [] s i q f = f
  deliver_all-find_receipt (event ∷ events) s i q f =
      deliver_all-find_receipt events (deliver repr fingerprint s event) i q
        ((apply-Keeps s event _ refl).receipts i q f)

  deliver-IsConsistent :
      (event : Json) (s : Store) → IsConsistent s → IsConsistent (deliver repr fingerprint s event)
  deliver-IsConsistent event s c a r f =
      let k = apply-Keeps s event _ refl in
      elim (k.rows a r f) [ inl old ↦ IsBacked-Keeps k (c a r old) | inr new ↦ new ]

  -- Any sequence of deliveries keeps the projection backed: each row names an applied receipt of
  -- its own account, with its time.
  pub deliver_all-IsConsistent :
      (events : List Json) (s : Store)
      → IsConsistent s
      → IsConsistent (deliver_all repr fingerprint s events)
  deliver_all-IsConsistent [] s c = c
  deliver_all-IsConsistent (event ∷ events) s c =
      deliver_all-IsConsistent events (deliver repr fingerprint s event)
        (deliver-IsConsistent event s c)

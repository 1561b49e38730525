-- ===== src/Billing/Order.antt =====
-- What a delivery, and a sequence of deliveries, may do to the row of an account.
use obrasignal.Base.{
  ◌≡◌, refl, String, Option, some, List, [], ◌∷◌, true, false, arith, ◌≤◌, ◌⊎◌, inl, inr, ◌≢◌, ◌∙◌,
  sym, Bool-cases,
}
use obrasignal.Base.Text.{present, opt_eq, opt_eq→≡, opt_eq_refl}
use native.Mathlib.Nat.{le_trans}
use mathlib.Core.Path.{subst}
use mathlib.Core.Option.{some-injective}
use obrasignal.Base.Json.{Json}
use obrasignal.Base.Result.{Result, ok, err, >>=-returns}
use obrasignal.Billing.{
  BillingError, BillingState, State, pending_payment_confirmation, active, past_due, cancelled,
  refunded, Row, Store, Incoming, parse, transition,
}
use obrasignal.Billing.Projection.{
  advance, judge, next_row, transact, apply_verified_event, committed, find_row, is_terminal,
  rebinds, ignore_without_regression,
}
use obrasignal.Billing.Steps.{RowStep, same, first, move, transact-RowStep, parse-transition}

-- The diagram of the states of one subscription.
pub data Follows : State → State → Type 0 where
  from_pending : {t : State} → Follows pending_payment_confirmation t
  from_active : {t : State} → t ≢ pending_payment_confirmation → Follows active t
  from_past_due : {t : State} → t ≢ pending_payment_confirmation → Follows past_due t
  cancel_again : Follows cancelled cancelled
  refund_cancelled : Follows cancelled refunded
  refund_again : Follows refunded refunded

-- A closed subscription is replaced by another one, which begins by a checkout or a payment.
pub record Restarts (r r' : Row) : Type 0 where
  pub closed : is_terminal r.state ≡ true
  pub had : present r.subscription_id ≡ true
  pub other : r'.subscription_id ≢ r.subscription_id
  pub opens : (r'.state ≡ pending_payment_confirmation) ⊎ (r'.state ≡ active)

-- What every delivery keeps of a row.
pub record Extends (r r' : Row) : Type 0 where
  pub account : r'.account_id ≡ r.account_id
  pub later : r.last_event_created ≤ r'.last_event_created
  pub customer : present r.customer_id ≡ true → r'.customer_id ≡ r.customer_id

opt_ne : (a b : Option String) → opt_eq a b ≡ false → a ≢ b
opt_ne a b h e = ground (arith, opt_eq_refl b)

next_row-Extends :
    (r : Row) (e : Incoming)
    → r.account_id ≡ e.account_id
    → judge r e ≡ advance
    → Extends r (next_row r e)
unfolding judge
next_row-Extends r e a j = record {
  account = sym a;
  later = ground arith;
  customer = λ p. ground (arith, opt_eq→≡ e.customer_id r.customer_id);
}

not_ignored-Follows :
    (c n : State) (current incoming : Option String)
    → rebinds current incoming ≡ false
    → ignore_without_regression c current incoming n ≡ false
    → Follows c n
unfolding ignore_without_regression
not_ignored-Follows pending_payment_confirmation n current incoming b i = from_pending
not_ignored-Follows active n current incoming b i = from_active (ground arith)
not_ignored-Follows past_due n current incoming b i = from_past_due (ground arith)
not_ignored-Follows cancelled cancelled current incoming b i = cancel_again
not_ignored-Follows cancelled refunded current incoming b i = refund_cancelled
not_ignored-Follows cancelled n current incoming b i = absurd (ground arith)
not_ignored-Follows refunded refunded current incoming b i = refund_again
not_ignored-Follows refunded n current incoming b i = absurd (ground arith)

judge-not_ignored :
    (r : Row) (e : Incoming)
    → judge r e ≡ advance
    → ignore_without_regression r.state r.subscription_id e.subscription_id e.next_state ≡ false
unfolding judge
judge-not_ignored r e j = ground arith

next_row-Restarts :
    (r : Row) (e : Incoming)
    → transition e.event_type ≡ some e.next_state
    → judge r e ≡ advance
    → rebinds r.subscription_id e.subscription_id ≡ true
    → Restarts r (next_row r e)
unfolding judge transition
next_row-Restarts r e t j b = record {
  closed = ground arith;
  had = ground arith;
  other = ground (arith, opt_ne e.subscription_id r.subscription_id);
  opens = ground arith;
}

next_row-cases :
    (r : Row) (e : Incoming)
    → transition e.event_type ≡ some e.next_state
    → judge r e ≡ advance
    → Follows r.state e.next_state ⊎ Restarts r (next_row r e)
next_row-cases r e t j = elim (Bool-cases (rebinds r.subscription_id e.subscription_id)) [
  | inl b ↦ inr (next_row-Restarts r e t j b)
  | inr b ↦ inl (not_ignored-Follows _ _ _ _ b (judge-not_ignored r e j))
]

-- What one delivery does to a row that is there.
pub record Delivered (r : Row) (o : Option Row) : Type 0 where
  pub row : Row
  pub found : o ≡ some row
  pub extends : Extends r row
  pub change : (row ≡ r) ⊎ (Follows r.state row.state ⊎ Restarts r row)

Extends-refl : (r : Row) → Extends r r
Extends-refl r = record { account = refl; later = omega arith; customer = λ p. refl }

Extends-trans : (r q p : Row) → Extends r q → Extends q p → Extends r p
Extends-trans r q p a b = record {
  account = b.account ∙ a.account;
  later = le_trans a.later b.later;
  customer = λ h. b.customer (rw (a.customer h) h) ∙ a.customer h;
}

move-Delivered :
    (e : Incoming) (r : Row)
    → transition e.event_type ≡ some e.next_state
    → r.account_id ≡ e.account_id
    → judge r e ≡ advance
    → Delivered r (some (next_row r e))
move-Delivered e r t a j = record {
  row = next_row r e;
  found = refl;
  extends = next_row-Extends r e a j;
  change = inr (next_row-cases r e t j);
}

RowStep-Delivered :
    {e : Incoming} {o p : Option Row} (r : Row)
    → transition e.event_type ≡ some e.next_state
    → o ≡ some r
    → RowStep e o p
    → Delivered r p
RowStep-Delivered r t h same = record {
  row = r;
  found = h;
  extends = Extends-refl r;
  change = inl refl;
}
RowStep-Delivered r t h first = cc
RowStep-Delivered {e} r t h (move q a j) =
    subst (λ k. Delivered k (some (next_row q e))) (some-injective q r h) (move-Delivered e q t a j)

module _ (repr : Json → String) (fingerprint : Json → Option String) where
  -- The tables after one delivery.
  abbrev pub deliver : Store → Json → Store
  deliver s event = committed s (apply_verified_event repr fingerprint s event)

  abbrev pub deliver_all : Store → List Json → Store
  deliver_all s [] = s
  deliver_all s (event ∷ events) = deliver_all (deliver s event) events

  apply_cases :
      (s : Store) (event : Json) (result : Result BillingError (BillingState × Store)) (a : String)
      (r : Row)
      → apply_verified_event repr fingerprint s event ≡ result
      → find_row a s.states ≡ some r
      → Delivered r (find_row a (committed s result).states)
  unfolding apply_verified_event
  apply_cases s event (err x) a r h f = record {
    row = r;
    found = f;
    extends = Extends-refl r;
    change = inl refl;
  }
  apply_cases s event (ok (st, t)) a r h f =
      let (e, parsed, run) = >>=-returns (parse repr fingerprint event) (transact s) h in
      RowStep-Delivered r (parse-transition repr fingerprint event e parsed) f
        (transact-RowStep s e st t a run)

  -- One delivery of any event, accepted or not, keeps the row of every account: its account, its
  -- customer once there is one, and its place in time; its state is left alone, or moves along the
  -- diagram `Follows`, or a closed subscription is replaced by another that opens.
  pub deliver-Delivered :
      (s : Store) (event : Json) (a : String) (r : Row)
      → find_row a s.states ≡ some r
      → Delivered r (find_row a (deliver s event).states)
  deliver-Delivered s event a r f =
      apply_cases s event (apply_verified_event repr fingerprint s event) a r refl f

  -- Over any sequence of deliveries a row stays, its `last_event_created` never falls, and a
  -- customer once bound is never replaced.
  pub deliver_all-Extends :
      (events : List Json) (s : Store) (a : String) (r : Row)
      → find_row a s.states ≡ some r
      → (q : Row) × (find_row a (deliver_all s events).states ≡ some q) × Extends r q
  deliver_all-Extends [] s a r f = (r, f, Extends-refl r)
  deliver_all-Extends (event ∷ events) s a r f =
      let d = deliver-Delivered s event a r f in
      let (q, g, x) = deliver_all-Extends events (deliver s event) a d.row d.found in
      (q, g, Extends-trans r d.row q d.extends x)

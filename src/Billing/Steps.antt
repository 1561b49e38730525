-- ===== src/Billing/Steps.antt =====
-- One delivery, seen from the row of one account.
use obrasignal.Base.{
  ◌≡◌, refl, String, Option, none, some, List, arith, inl, inr, sym, ◌∙◌, Bool-cases,
}
use obrasignal.Base.Text.{◌==◌, eq_iff}
use obrasignal.Base.Json.{Json}
use obrasignal.Base.Result.{ok}
use obrasignal.Billing.{Receipt, Row, Store, Incoming, BillingState, parse, transition}
use obrasignal.Billing.Projection.{
  Verdict, keep, advance, reject, judge, next_row, projected, settle, project, replay, transact,
  transact_on, find_row, upsert,
}
use obrasignal.Billing.Rows.{find_row-upsert, find_row-account}

-- How a delivery `e` may change the row of an account.
pub data RowStep (e : Incoming) : Option Row → Option Row → Type 0 where
  same : {before : Option Row} → RowStep e before before
  first : RowStep e none (some (projected e e.customer_id e.subscription_id))
  move :
      (r : Row)
      → r.account_id ≡ e.account_id
      → judge r e ≡ advance
      → RowStep e (some r) (some (next_row r e))

RowStep-of_eq : {e : Incoming} {o p : Option Row} → p ≡ o → RowStep e o p
RowStep-of_eq {e} {o} {p} h = rw h same

upsert-RowStep :
    (e : Incoming) (rows : List Row) (o : Option Row) (r : Row) (a : String)
    → r.account_id ≡ e.account_id
    → find_row e.account_id rows ≡ o
    → RowStep e o (some r)
    → RowStep e (find_row a rows) (find_row a (upsert r rows))
upsert-RowStep e rows o r a same_account found st = elim (Bool-cases (r.account_id == a)) [
  | inl hit ↦
      let here : e.account_id ≡ a = sym same_account ∙ (eq_iff r.account_id a).0 hit in
      rw (find_row-upsert, hit, ← here, found) st
  | inr other ↦ rw (find_row-upsert, other) same
]

settle-RowStep :
    (s : Store) (e : Incoming) (r : Row) (v : Verdict) (st : BillingState) (t : Store) (a : String)
    → judge r e ≡ v
    → find_row e.account_id s.states ≡ some r
    → settle s e r v ≡ ok (st, t)
    → RowStep e (find_row a s.states) (find_row a t.states)
settle-RowStep s e r keep st t a j f h = RowStep-of_eq (ground arith)
settle-RowStep s e r (reject x) st t a j f h = cc
settle-RowStep s e r advance st t a j f h =
    let up : t.states ≡ upsert (next_row r e) s.states = ground arith in
    rw up (
      upsert-RowStep e s.states (some r) (next_row r e) a refl f
        (move r (find_row-account e.account_id s.states r f) j))

project-RowStep :
    (s : Store) (e : Incoming) (o : Option Row) (st : BillingState) (t : Store) (a : String)
    → find_row e.account_id s.states ≡ o
    → project s e o ≡ ok (st, t)
    → RowStep e (find_row a s.states) (find_row a t.states)
unfolding project
project-RowStep s e none st t a f h =
    let r : Row = projected e e.customer_id e.subscription_id in
    let up : t.states ≡ upsert r s.states = ground arith in
    rw up (upsert-RowStep e s.states none r a refl f first)
project-RowStep s e (some r) st t a f h = settle-RowStep s e r (judge r e) st t a refl f h

transact_on-RowStep :
    (s : Store) (e : Incoming) (o : Option Receipt) (st : BillingState) (t : Store) (a : String)
    → transact_on s e o ≡ ok (st, t)
    → RowStep e (find_row a s.states) (find_row a t.states)
unfolding replay
transact_on-RowStep s e none st t a h = project-RowStep s e _ st t a refl h
transact_on-RowStep s e (some seen) st t a h = RowStep-of_eq (ground arith)

pub transact-RowStep :
    (s : Store) (e : Incoming) (st : BillingState) (t : Store) (a : String)
    → transact s e ≡ ok (st, t)
    → RowStep e (find_row a s.states) (find_row a t.states)
unfolding transact
transact-RowStep s e st t a h = transact_on-RowStep s e _ st t a h

pub parse-transition :
    (repr : Json → String) (fingerprint : Json → Option String) (event : Json) (e : Incoming)
    → parse repr fingerprint event ≡ ok e
    → transition e.event_type ≡ some e.next_state
unfolding parse
parse-transition repr fingerprint event e h = ground arith

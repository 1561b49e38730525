-- ===== src/Evaluation/Dates.antt =====
-- evaluation_policy.py: sequences of operations, and the dates that they keep.
use obrasignal.Base.{
  ◌≡◌, ℕ, String, Bool, true, false, refl, any, Option, none, some, List, [], ◌∷◌, arith, All, inl,
  inr, Option-cases, Bool-cases,
}
use obrasignal.Base.Int.{ℤ}
use obrasignal.Base.Text.{◌==◌, strip}
use obrasignal.Base.Result.{Result, ok, err, Result-cases}
use obrasignal.Evaluation.{
  Account, Event, Store, EvaluationError, find_account, modify, advance_row,
  record_evaluation_event, insert_event, stored, has_event, paid, onboarding, event_of,
}
use obrasignal.Evaluation.Grants.{
  configure_enterprise_pilot, grant_evaluation_extension, extension_end, extended,
  mark_evaluation_paid, mark_post_conversion_churn, wanted_days, can_pay,
}
use obrasignal.Evaluation.Lifecycle.{
  IsTimed, before, after, modify-All, advance_row-IsTimed, extended-IsTimed,
}
use obrasignal.Evaluation.Kept.{
  KeepsDates, Pairs, Pairs-refl, Pairs-trans, modify-Pairs, advance_row-KeepsDates,
  extended-KeepsDates,
}

-- One operation on the store. A call that raises changes nothing.
pub data Operation : Type 0 where
  record_event : (account_id event_name metadata : String) (now : ℕ) → Operation
  configure : (account_id : String) → Operation
  extend :
      (account_id reason : String)
      → Option ℤ
      → (real_usage insufficient_value_exposure user_inactive : Bool) → Operation
  pay : (account_id metadata : String) (now : ℕ) → Operation
  churn : (account_id metadata : String) (now : ℕ) → Operation

abbrev pub keep_on_error : Store → Result EvaluationError Store → Store
keep_on_error s (ok t) = t
keep_on_error s (err e) = s

unfoldable pub step : Store → Operation → Store
step s (record_event account_id event_name metadata now) =
    keep_on_error s (record_evaluation_event account_id event_name metadata now s)
step s (configure account_id) = keep_on_error s (configure_enterprise_pilot account_id s)
step s (extend account_id reason days real insufficient inactive) =
    keep_on_error s (grant_evaluation_extension account_id reason days real insufficient inactive s)
step s (pay account_id metadata now) = mark_evaluation_paid account_id metadata now s
step s (churn account_id metadata now) = mark_post_conversion_churn account_id metadata now s

unfoldable pub run : Store → List Operation → Store
run s [] = s
run s (o ∷ os) = run (step s o) os

-- Whether an operation asks for an extension.
abbrev pub is_extension : Operation → Bool
is_extension (record_event account_id event_name metadata now) = false
is_extension (configure account_id) = false
is_extension (extend account_id reason days real insufficient inactive) = true
is_extension (pay account_id metadata now) = false
is_extension (churn account_id metadata now) = false

-- What an operation does to the accounts: nothing, or one change of the row that it found.
data Touches (extending : Bool) (s : Store) (accounts : List Account) : Type 0 where
  untouched : accounts ≡ s.accounts → Touches extending s accounts
  touched :
      (account_id : String) (f : Account → Account) (a : Account)
      → find_account account_id s.accounts ≡ some a
      → (IsTimed a → IsTimed (f a))
      → KeepsDates extending a (f a)
      → accounts ≡ modify account_id f s.accounts
      → Touches extending s accounts

record_event-Touches :
    (s : Store) (account_id event_name metadata : String) (now : ℕ)
    → Touches false s (step s (record_event account_id event_name metadata now)).accounts
unfolding step record_evaluation_event
record_event-Touches s account_id event_name metadata now =
    elim (Option-cases (event_of (strip event_name))) [
      | inl unknown ↦ untouched (ground arith)
      | inr (event, known) ↦ elim (Option-cases (find_account account_id s.accounts)) [
        | inl missing ↦ untouched (ground arith)
        | inr (a, found) ↦
            let has : Event → Bool =
              has_event account_id (insert_event account_id event now metadata s.events) in
            touched account_id (advance_row event has now) a found
              (advance_row-IsTimed event has now a) (advance_row-KeepsDates event has now a)
              (ground arith)
      ]
    ]

configured : Account → Account
configured b = record b {
  evaluation_type = some "enterprise";
  evaluation_status = elim b.evaluation_status [ none ↦ some onboarding | some x ↦ some x ];
}

configured-IsTimed :
    (a : Account) → stored a.evaluation_activated_at ≡ false → IsTimed a → IsTimed (configured a)
unfolding configured
configured-IsTimed a h (before p q r) = before p q r
configured-IsTimed a h (after t p q r) = absurd (ground arith)

configured-KeepsDates :
    (a : Account) → stored a.evaluation_activated_at ≡ false → KeepsDates false a (configured a)
unfolding configured
configured-KeepsDates a fresh = record {
  ident = refl;
  extension = omega arith;
  unextended = λ h. refl;
  activation = λ t h. absurd (ground arith);
  end = λ t e h g. absurd (ground arith);
}

configure-Touches :
    (s : Store) (account_id : String) → Touches false s (step s (configure account_id)).accounts
unfolding step configure_enterprise_pilot configured
configure-Touches s account_id = elim (Option-cases (find_account account_id s.accounts)) [
  | inl missing ↦ untouched (ground arith)
  | inr (a, found) ↦ elim (Bool-cases (stored a.evaluation_activated_at)) [
    | inl already ↦ untouched (ground arith)
    | inr fresh ↦ elim (Bool-cases (a.plan == "pro")) [
      | inl pro ↦ untouched (ground arith)
      | inr other ↦
          touched account_id configured a found (configured-IsTimed a fresh)
            (configured-KeepsDates a fresh) (ground arith)
    ]
  ]
]

extend-Touches :
    (s : Store) (account_id reason : String) (days : Option ℤ) (real insufficient inactive : Bool)
    → Touches true s (step s (extend account_id reason days real insufficient inactive)).accounts
unfolding step grant_evaluation_extension
extend-Touches s account_id reason days real insufficient inactive =
    elim (Option-cases (wanted_days days)) [
      | inl invalid ↦ untouched (ground arith)
      | inr (n, valid) ↦ elim (Option-cases (find_account account_id s.accounts)) [
        | inl missing ↦ untouched (ground arith)
        | inr (a, found) ↦ elim (Result-cases (extension_end n real insufficient inactive a)) [
          | inl (ends, granted) ↦
              touched account_id (extended n ends reason) a found
                (extended-IsTimed n ends reason real insufficient inactive a granted)
                (extended-KeepsDates n ends reason real insufficient inactive a granted)
                (ground arith)
          | inr (e, refused) ↦ untouched (ground arith)
        ]
      ]
    ]

pay_row : Account → Account
pay_row b = record b { evaluation_status = some paid }

pay_row-IsTimed : (a : Account) → IsTimed a → IsTimed (pay_row a)
unfolding pay_row
pay_row-IsTimed a (before p q r) = before p q r
pay_row-IsTimed a (after t p q r) = after t p q r

pay_row-KeepsDates : (a : Account) → KeepsDates false a (pay_row a)
unfolding pay_row
pay_row-KeepsDates a = record {
  ident = refl;
  extension = omega arith;
  unextended = λ h. refl;
  activation = λ t h. (h, refl);
  end = λ t e h g. ground arith;
}

pay-Touches :
    (s : Store) (account_id metadata : String) (now : ℕ)
    → Touches false s (step s (pay account_id metadata now)).accounts
unfolding step mark_evaluation_paid pay_row
pay-Touches s account_id metadata now = elim (Option-cases (find_account account_id s.accounts)) [
  | inl missing ↦ untouched (ground arith)
  | inr (a, found) ↦ elim (Bool-cases (can_pay a.evaluation_status)) [
    | inl can ↦
        touched account_id pay_row a found (pay_row-IsTimed a) (pay_row-KeepsDates a) (ground arith)
    | inr cannot ↦ untouched (ground arith)
  ]
]

churn-Touches :
    (s : Store) (account_id metadata : String) (now : ℕ)
    → Touches false s (step s (churn account_id metadata now)).accounts
unfolding step mark_post_conversion_churn
churn-Touches s account_id metadata now = untouched (ground arith)

step-Touches : (s : Store) (o : Operation) → Touches (is_extension o) s (step s o).accounts
step-Touches s (record_event account_id event_name metadata now) =
    record_event-Touches s account_id event_name metadata now
step-Touches s (configure account_id) = configure-Touches s account_id
step-Touches s (extend account_id reason days real insufficient inactive) =
    extend-Touches s account_id reason days real insufficient inactive
step-Touches s (pay account_id metadata now) = pay-Touches s account_id metadata now
step-Touches s (churn account_id metadata now) = churn-Touches s account_id metadata now

Touches-IsTimed :
    {extending : Bool} {s : Store} {accounts : List Account}
    → Touches extending s accounts
    → All IsTimed s.accounts
    → All IsTimed accounts
Touches-IsTimed (untouched e) h = rw e h
Touches-IsTimed (touched account_id f a found k d e) h =
    rw e (modify-All IsTimed account_id f _ a found k h)

Touches-Pairs :
    {extending : Bool} {s : Store} {accounts : List Account}
    → Touches extending s accounts
    → Pairs (KeepsDates extending) s.accounts accounts
Touches-Pairs (untouched e) = rw e (Pairs-refl _ _)
Touches-Pairs (touched account_id f a found k d e) = rw e (modify-Pairs _ account_id f _ a found d)

-- Over any sequence of operations, whatever their order and their errors, if the dates of the accounts
-- keep to the formula of `IsTimed`, they still do, with seven days of extension in all at most. Each
-- account is still there; an evaluation that is active keeps its activation and its
-- type; its end moves by the days of extension that were added and by nothing else, and there are none
-- of these unless one of the operations is an extension: no event, pilot, payment or churn moves it.
pub run-IsTimed :
    (operations : List Operation) (s : Store)
    → All IsTimed s.accounts
    → All IsTimed (run s operations).accounts
      × Pairs (KeepsDates (any is_extension operations)) s.accounts (run s operations).accounts
unfolding run
run-IsTimed [] s h = (h, Pairs-refl false s.accounts)
run-IsTimed (o ∷ os) s h =
    let touches = step-Touches s o in
    let (timed, kept) = run-IsTimed os (step s o) (Touches-IsTimed touches h) in
    (
      timed,
      Pairs-trans (is_extension o) (any is_extension os) s.accounts (step s o).accounts
          (run (step s o) os).accounts (Touches-Pairs touches) kept,
    )

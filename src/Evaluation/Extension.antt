-- ===== src/Evaluation/Extension.antt =====
-- evaluation_policy.py: what one recorded event does, and what an extension gives.
use obrasignal.Base.{
  ◌≡◌, refl, ℕ, ◌+◌, ◌≤◌, ◌<◌, String, Bool, true, false, Option, none, some, List, [], ◌∷◌, arith,
  inl, inr, ◌↔◌, ◌⊎◌, ◌≢◌, Option-cases, Bool-cases,
}
use obrasignal.Base.Int.{ℤ}
use obrasignal.Base.Text.{◌==◌}
use obrasignal.Base.Result.{ok, Result-cases}
use obrasignal.FactoryCloud.Stamp.{at}
use obrasignal.Evaluation.{
  Account, Event, Store, find_account, modify, advance, advance_row, with_exposure, days_of,
  duration_days, max_value_extension_days, is_settled, profile_ready, market_data_available,
  first_shortlist_generated, evaluation_active, is_value_exposure, ValueStatus, exposure_pending,
  exposed, other_value, expose,
}
use obrasignal.Evaluation.Grants.{
  grant_evaluation_extension, extension_end, extended, is_paid, wanted_days,
}
use obrasignal.Evaluation.Access.{Access, access_of, evaluation_access_state}

-- What an activation leaves in the row: the end is the duration of the type of the account away.
pub record IsActivated (now : ℕ) (a b : Account) : Type 0 where
  pub status : b.evaluation_status ≡ some evaluation_active
  pub ends : b.evaluation_ends_at ≡ some (at (now + days_of (duration_days a.evaluation_type)))
  pub extension : b.evaluation_extension_days ≡ a.evaluation_extension_days

-- An event activates an evaluation that is open and not yet active if, and only if, the profile, the
-- market data and the shortlist are all recorded. If it does, the evaluation is active and its end is
-- the duration of its type away; if it does not, the dates stay as they were.
pub advance_row-activates_iff :
    (event : Event) (has : Event → Bool) (now : ℕ) (a : Account)
    → is_settled a.evaluation_status ≡ false
    → a.evaluation_activated_at ≡ none
    → (((advance_row event has now a).evaluation_activated_at ≡ some (at now)) ↔ (
        (has profile_ready ≡ true)
        × (has market_data_available ≡ true)
        × (has first_shortlist_generated ≡ true)))
      × ((advance_row event has now a).evaluation_activated_at ≡ some (at now)
          → IsActivated now a (advance_row event has now a))
      × ((advance_row event has now a).evaluation_activated_at ≢ some (at now)
          → ((advance_row event has now a).evaluation_activated_at ≡ none)
            × ((advance_row event has now a).evaluation_ends_at ≡ a.evaluation_ends_at))
unfolding advance_row advance
advance_row-activates_iff event has now a s f = (
  ground arith,
  (λ set. record { status = ground arith; ends = ground arith; extension = ground arith }),
  (λ unset. ground arith),
)

pub find_account-modify :
    (account_id : String) (f : Account → Account) (accounts : List Account) (a : Account)
    → find_account account_id accounts ≡ some a
    → (f a).account_id ≡ a.account_id
    → find_account account_id (modify account_id f accounts) ≡ some (f a)
unfolding modify
find_account-modify account_id f [] a found k = absurd (ground arith)
find_account-modify account_id f (b ∷ accounts) a found k =
    elim (Bool-cases (b.account_id == account_id)) [
      | inl hit ↦ ground arith
      | inr miss ↦ ground (arith, find_account-modify account_id f accounts a)
    ]

-- What a granted extension gives.
pub record IsExtended (account_id : String) (n : ℕ) (s t : Store) : Type 0 where
  pub account : Account
  pub found : find_account account_id s.accounts ≡ some account
  pub ends : ℕ
  pub had_end : account.evaluation_ends_at ≡ some (at ends)
  pub not_pro : (account.plan == "pro") ≡ false
  pub unpaid : is_paid account.evaluation_status ≡ false
  pub within : account.evaluation_extension_days + n ≤ max_value_extension_days
  pub after : Account
  pub found_after : find_account account_id t.accounts ≡ some after
  pub days : after.evaluation_extension_days ≡ account.evaluation_extension_days + n
  pub new_end : after.evaluation_ends_at ≡ some (at (ends + days_of n))
  pub access :
      (now : ℕ)
      → now < ends + days_of n
      → (x : Access) × (evaluation_access_state after now ≡ some x) × (x.active ≡ true)

extension_end_facts :
    (n ends : ℕ) (real insufficient inactive : Bool) (a : Account)
    → extension_end n real insufficient inactive a ≡ ok ends
    → (a.evaluation_ends_at ≡ some (at ends))
      × ((a.plan == "pro") ≡ false)
      × (is_paid a.evaluation_status ≡ false)
      × (a.evaluation_extension_days + n ≤ max_value_extension_days)
      × (real ≡ true)
      × (insufficient ≡ true)
      × (inactive ≡ false)
unfolding extension_end
extension_end_facts n ends real insufficient inactive a h = ground arith

extended-active :
    (n ends now : ℕ) (reason : String) (a : Account)
    → now < ends + days_of n
    → (x : Access) × (evaluation_access_state (extended n ends reason a) now ≡ some x)
      × (x.active ≡ true)
unfolding evaluation_access_state
extended-active n ends now reason a early =
    (access_of (extended n ends reason a) evaluation_active now, refl, ground arith)

granted-IsExtended :
    (account_id reason : String) (n ends : ℕ) (real insufficient inactive : Bool) (s t : Store)
    (a : Account)
    → find_account account_id s.accounts ≡ some a
    → extension_end n real insufficient inactive a ≡ ok ends
    → t.accounts ≡ modify account_id (extended n ends reason) s.accounts
    → IsExtended account_id n s t
granted-IsExtended account_id reason n ends real insufficient inactive s t a found granted e =
    let (had, not_pro, unpaid, within, _, _, _) =
      extension_end_facts n ends real insufficient inactive a granted in
    record {
      account = a;
      found = found;
      ends = ends;
      had_end = had;
      not_pro = not_pro;
      unpaid = unpaid;
      within = within;
      after = extended n ends reason a;
      found_after =
          rw e (find_account-modify account_id (extended n ends reason) s.accounts a found refl);
      days = refl;
      new_end = refl;
      access = λ now early. extended-active n ends now reason a early;
    }

-- An extension that is granted was asked for by more than no days, for real usage with too little
-- exposure by a user who is not inactive, and found an account with an end whose plan is not "pro"
-- and whose status is not PAID. Its days are added to those of the account, which stay within seven
-- in all, the end moves by exactly these days, and there is access until then.
pub grant_evaluation_extension-IsExtended :
    (account_id reason : String) (days : Option ℤ) (real insufficient inactive : Bool) (s t : Store)
    → grant_evaluation_extension account_id reason days real insufficient inactive s ≡ ok t
    → (n : ℕ) × (wanted_days days ≡ some n)
      × (real ≡ true)
      × (insufficient ≡ true)
      × (inactive ≡ false)
      × IsExtended account_id n s t
unfolding grant_evaluation_extension
grant_evaluation_extension-IsExtended account_id reason days real insufficient inactive s t h =
    elim (Option-cases (wanted_days days)) [
      | inl invalid ↦ absurd (ground arith)
      | inr (n, valid) ↦ elim (Option-cases (find_account account_id s.accounts)) [
        | inl missing ↦ absurd (ground arith)
        | inr (a, found) ↦ elim (Result-cases (extension_end n real insufficient inactive a)) [
          | inl (ends, granted) ↦
              let (_, _, _, _, used, unexposed, live) =
                extension_end_facts n ends real insufficient inactive a granted in
              (
                n,
                valid,
                used,
                unexposed,
                live,
                granted-IsExtended account_id reason n ends real insufficient inactive s t a found
                    granted (ground arith),
              )
          | inr (e, refused) ↦ absurd (ground arith)
        ]
      ]
    ]

advance-value_status :
    (has : Event → Bool) (now : ℕ) (a : Account)
    → (advance has now a).evaluation_value_status ≡ a.evaluation_value_status
unfolding advance
advance-value_status has now a = ground arith

expose_kept : (v : Option ValueStatus) → v ≢ some exposure_pending → expose v ≡ v
expose_kept none h = refl
expose_kept (some exposure_pending) h = absurd (h refl)
expose_kept (some exposed) h = refl
expose_kept (some (other_value s)) h = refl

with_exposure_kept :
    (event : Event) (a : Account)
    → (is_settled a.evaluation_status ≡ true)
      ⊎ (is_value_exposure event ≡ false)
      ⊎ (a.evaluation_value_status ≢ some exposure_pending)
    → (is_settled a.evaluation_status ≡ false)
    → (with_exposure event a).evaluation_value_status ≡ a.evaluation_value_status
with_exposure_kept event a (inl settled) o = absurd (ground arith)
with_exposure_kept event a (inr (inl other)) o = rw other refl
with_exposure_kept event a (inr (inr h)) o = elim (Bool-cases (is_value_exposure event)) [
  | inl e ↦ rw e (expose_kept a.evaluation_value_status h)
  | inr e ↦ rw e refl
]

advance_row_kept :
    (event : Event) (has : Event → Bool) (now : ℕ) (a : Account)
    → (is_settled a.evaluation_status ≡ true)
      ⊎ (is_value_exposure event ≡ false)
      ⊎ (a.evaluation_value_status ≢ some exposure_pending)
    → (advance_row event has now a).evaluation_value_status ≡ a.evaluation_value_status
unfolding advance_row
advance_row_kept event has now a k = elim (Bool-cases (is_settled a.evaluation_status)) [
  | inl settled ↦ rw settled refl
  | inr o ↦
      rw (o, advance-value_status has now (with_exposure event a)) (with_exposure_kept event a k o)
]

advance_row_exposed :
    (event : Event) (has : Event → Bool) (now : ℕ) (a : Account)
    → (is_settled a.evaluation_status ≡ false)
    → (is_value_exposure event ≡ true)
    → (a.evaluation_value_status ≡ some exposure_pending)
    → (advance_row event has now a).evaluation_value_status ≡ some exposed
unfolding advance_row
advance_row_exposed event has now a o e p =
    rw (o, advance-value_status has now (with_exposure event a)) (ground arith)

-- What a recorded event does to the value status of an account: in an open evaluation an exposure
-- event turns EXPOSURE_PENDING into EXPOSED; any other event, an account that is settled, and any
-- other status, NULL among them, leave it as it is.
pub advance_row-value_status :
    (event : Event) (has : Event → Bool) (now : ℕ) (a : Account)
    → ((is_settled a.evaluation_status ≡ false)
        → (is_value_exposure event ≡ true)
        → (a.evaluation_value_status ≡ some exposure_pending)
        → (advance_row event has now a).evaluation_value_status ≡ some exposed)
      × ((is_settled a.evaluation_status ≡ true)
            ⊎ (is_value_exposure event ≡ false)
            ⊎ (a.evaluation_value_status ≢ some exposure_pending)
          → (advance_row event has now a).evaluation_value_status ≡ a.evaluation_value_status)
advance_row-value_status event has now a =
    (advance_row_exposed event has now a, advance_row_kept event has now a)

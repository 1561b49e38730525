-- ===== src/Evaluation/Lifecycle.antt =====
-- The dates of an evaluation, over any sequence of the operations.
use obrasignal.Base.{
  ◌≡◌, ap, ℕ, ◌+◌, ◌≤◌, String, Bool, none, some, List, [], ◌∷◌, arith, All, inl, inr, Bool-cases,
  ◌&&◌,
}
use obrasignal.Base.Text.{◌==◌}
use obrasignal.Base.Result.{ok}
use obrasignal.FactoryCloud.Stamp.{at}
use obrasignal.Evaluation.{
  Account, Event, find_account, modify, advance, advance_row, with_exposure, days_of, duration_days,
  max_value_extension_days, is_settled, profile_ready, market_data_available,
  first_shortlist_generated,
}
use obrasignal.Evaluation.Grants.{extension_end, extended}

-- Before its activation an evaluation has no dates and no extension; after it, its end is the
-- activation, the days of its type and the days of its extensions, of which there are seven at most.
pub data IsTimed (a : Account) : Type 0 where
  before :
      a.evaluation_activated_at ≡ none
      → a.evaluation_ends_at ≡ none
      → a.evaluation_extension_days ≡ 0
      → IsTimed a
  after :
      (t : ℕ)
      → a.evaluation_activated_at ≡ some (at t)
      → a.evaluation_ends_at
        ≡ some (at (t + days_of (duration_days a.evaluation_type + a.evaluation_extension_days)))
      → a.evaluation_extension_days ≤ max_value_extension_days
      → IsTimed a

with_exposure-IsTimed : (event : Event) (a : Account) → IsTimed a → IsTimed (with_exposure event a)
with_exposure-IsTimed event a (before p q r) = before (ground arith) (ground arith) (ground arith)
with_exposure-IsTimed event a (after t p q r) = after t (ground arith) (ground arith) (ground arith)

advance_cases :
    (has : Event → Bool) (now : ℕ) (a : Account)
    → a.evaluation_activated_at ≡ none
    → a.evaluation_ends_at ≡ none
    → a.evaluation_extension_days ≡ 0
    → IsTimed (advance has now a)
unfolding advance
advance_cases has now a p q r =
    elim (Bool-cases
      (has profile_ready && (has market_data_available && has first_shortlist_generated))) [
        | inl all ↦ after now (ground arith) (ground arith) (ground arith)
        | inr some_missing ↦ before (ground arith) (ground arith) (ground arith)
      ]

advance-IsTimed :
    (has : Event → Bool) (now : ℕ) (a : Account) → IsTimed a → IsTimed (advance has now a)
unfolding advance
advance-IsTimed has now a (before p q r) = advance_cases has now a p q r
advance-IsTimed has now a (after t p q r) = after t (ground arith) (ground arith) (ground arith)

pub advance_row-IsTimed :
    (event : Event) (has : Event → Bool) (now : ℕ) (a : Account)
    → IsTimed a
    → IsTimed (advance_row event has now a)
unfolding advance_row
advance_row-IsTimed event has now a h = elim (Bool-cases (is_settled a.evaluation_status)) [
  | inl s ↦ rw s h
  | inr s ↦ rw s (advance-IsTimed has now (with_exposure event a) (with_exposure-IsTimed event a h))
]

pub extended-IsTimed :
    (n ends : ℕ) (reason : String) (real insufficient inactive : Bool) (a : Account)
    → extension_end n real insufficient inactive a ≡ ok ends
    → IsTimed a
    → IsTimed (extended n ends reason a)
unfolding extension_end
extended-IsTimed n ends reason real insufficient inactive a e (before p q r) = absurd (ground arith)
extended-IsTimed n ends reason real insufficient inactive a e (after t p q r) =
    let base : ends ≡ t + days_of (duration_days a.evaluation_type + a.evaluation_extension_days) =
      ground arith in
    after t p (ap (λ (x : ℕ). some (at x)) (omega (arith, base))) (ground arith)

-- An update of the row of an account that is there.
pub modify-All :
    (P : Account → Type 0) (account_id : String) (f : Account → Account) (accounts : List Account)
    (a : Account)
    → find_account account_id accounts ≡ some a
    → (P a → P (f a))
    → All P accounts
    → All P (modify account_id f accounts)
unfolding modify
modify-All P account_id f [] a found k h = tt
modify-All P account_id f (b ∷ accounts) a found k (h, hs) =
    elim (Bool-cases (b.account_id == account_id)) [
      | inl e ↦ let same : a ≡ b = ground arith in rw (e, All) (rw same at k h, hs)
      | inr e ↦ rw (e, All) (h, modify-All P account_id f accounts a (ground arith) k hs)
    ]

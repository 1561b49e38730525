-- ===== src/Claims/Recovery/Totals.antt =====
-- What the totals of a portfolio add up to, and which records they hold.
use mathlib.Core.Path.{subst}
use obrasignal.Base.{
  ◌≡◌, refl, sym, ap, ◌∙◌, ℕ, ◌+◌, ◌<◌, String, true, List, [], ◌∷◌, arith, All, length, inl, inr,
  Bool-cases,
}
use obrasignal.Base.Text.{eq_iff, eq_refl, strip, member}
use obrasignal.Base.Result.{ok, Result-cases}
use obrasignal.Claims.Recovery.{Snapshot}
use obrasignal.Claims.Recovery.Store.{Reconciliation}
use obrasignal.Claims.Recovery.Balance.{limit}
use obrasignal.Claims.Recovery.Portfolio.{
  Amounts, Sums, Rollup, add_amounts, no_sums, add_once, one_currency, add_record, add_records,
  rollup_recovery_portfolio,
}

-- `_AMOUNT_FIELDS`
pub data AmountField : Type 0 where
  net_documented_exposure evidence_supported claimed approved settled : AmountField
  unsupported_exposure supported_unclaimed claimed_unapproved : AmountField
  approved_unsettled supported_unsettled : AmountField

-- `totals[field]`
abbrev pub total_of : AmountField → Amounts → ℕ
total_of net_documented_exposure a = a.net_documented_exposure
total_of evidence_supported a = a.evidence_supported
total_of claimed a = a.claimed
total_of approved a = a.approved
total_of settled a = a.settled
total_of unsupported_exposure a = a.unsupported_exposure
total_of supported_unclaimed a = a.supported_unclaimed
total_of claimed_unapproved a = a.claimed_unapproved
total_of approved_unsettled a = a.approved_unsettled
total_of supported_unsettled a = a.supported_unsettled

-- `payload[field]`
abbrev pub amount_of : AmountField → Snapshot → ℕ
amount_of net_documented_exposure s = s.net_documented_exposure
amount_of evidence_supported s = s.evidence_supported
amount_of claimed s = s.claimed
amount_of approved s = s.approved
amount_of settled s = s.settled
amount_of unsupported_exposure s = s.unsupported_exposure
amount_of supported_unclaimed s = s.supported_unclaimed
amount_of claimed_unapproved s = s.claimed_unapproved
amount_of approved_unsettled s = s.approved_unsettled
amount_of supported_unsettled s = s.supported_unsettled

-- The exact sum of one field over the records.
abbrev pub sum_of : AmountField → List Reconciliation → ℕ
sum_of field [] = 0
sum_of field (r ∷ rs) = amount_of field r.snapshot + sum_of field rs

total_of-add_amounts :
    (plus : ℕ → ℕ → ℕ) (field : AmountField) (a : Amounts) (s : Snapshot)
    → total_of field (add_amounts plus a s) ≡ plus (total_of field a) (amount_of field s)
total_of-add_amounts plus net_documented_exposure a s = refl
total_of-add_amounts plus evidence_supported a s = refl
total_of-add_amounts plus claimed a s = refl
total_of-add_amounts plus approved a s = refl
total_of-add_amounts plus settled a s = refl
total_of-add_amounts plus unsupported_exposure a s = refl
total_of-add_amounts plus supported_unclaimed a s = refl
total_of-add_amounts plus claimed_unapproved a s = refl
total_of-add_amounts plus approved_unsettled a s = refl
total_of-add_amounts plus supported_unsettled a s = refl

total_of-nothing : (field : AmountField) → total_of field no_sums.totals ≡ 0
total_of-nothing net_documented_exposure = refl
total_of-nothing evidence_supported = refl
total_of-nothing claimed = refl
total_of-nothing approved = refl
total_of-nothing settled = refl
total_of-nothing unsupported_exposure = refl
total_of-nothing supported_unclaimed = refl
total_of-nothing claimed_unapproved = refl
total_of-nothing approved_unsettled = refl
total_of-nothing supported_unsettled = refl

add_once-member :
    (x s : String) (ss : List String) → member x ss ≡ true → member x (add_once s ss) ≡ true
add_once-member x s ss h = elim (Bool-cases (member s ss)) [
  | inl e ↦ rw (e) h
  | inr e ↦ ground (arith, e, h)
]

add_once_self : (s : String) (ss : List String) → member s (add_once s ss) ≡ true
add_once_self s ss = elim (Bool-cases (member s ss)) [
  | inl e ↦ rw (e) e
  | inr e ↦ rw (e, eq_refl s) refl
]

one_currency-ok :
    (currencies : List String) (c : String) → one_currency currencies ≡ ok c → currencies ≡ c ∷ []
one_currency-ok [] c h = absurd (ground (arith, h))
one_currency-ok (d ∷ []) c h = cc
one_currency-ok (d ∷ e ∷ currencies) c h = absurd (ground (arith, h))

module _ (plus : ℕ → ℕ → ℕ) (upper : String → String) where
  -- A record of the tenant with one of the currencies.
  abbrev pub IsOf : (tenant : String) → List String → Reconciliation → Type 0
  IsOf tenant currencies r =
      (r.tenant_id ≡ tenant) × (member (upper (strip r.snapshot.currency)) currencies ≡ true)

  record IsAdded (tenant : String) (sums : Sums) (r : Reconciliation) (sums' : Sums) : Type 0 where
    pub totals : sums'.totals ≡ add_amounts plus sums.totals r.snapshot
    pub currencies : sums'.currencies ≡ add_once (upper (strip r.snapshot.currency)) sums.currencies
    pub tenant_is : r.tenant_id ≡ tenant

  add_record-IsAdded :
      (tenant : String) (sums : Sums) (r : Reconciliation) (sums' : Sums)
      → add_record plus upper tenant sums r ≡ ok sums'
      → IsAdded tenant sums r sums'
  unfolding add_record
  add_record-IsAdded tenant sums r sums' h = record {
    totals = ground (arith, h);
    currencies = ground (arith, h);
    tenant_is = (eq_iff r.tenant_id tenant).0 (ground (arith, h));
  }

  add_records_steps :
      (tenant : String) (sums : Sums) (r : Reconciliation) (rs : List Reconciliation) (sums' : Sums)
      → add_records plus upper tenant sums (r ∷ rs) ≡ ok sums'
      → (next : Sums) × IsAdded tenant sums r next
        × (add_records plus upper tenant next rs ≡ ok sums')
  unfolding add_records
  add_records_steps tenant sums r rs sums' h =
      elim (Result-cases (add_record plus upper tenant sums r)) [
        | inr (e, failed) ↦ absurd (ground (arith, failed, h))
        | inl (next, added) ↦
            (next, add_record-IsAdded tenant sums r next added, ground (arith, added, h))
      ]

  add_records-kept :
      (tenant : String) (sums : Sums) (rs : List Reconciliation) (sums' : Sums) (c : String)
      → add_records plus upper tenant sums rs ≡ ok sums'
      → member c sums.currencies ≡ true
      → member c sums'.currencies ≡ true
  unfolding add_records
  add_records-kept tenant sums [] sums' c h m = ground (arith, h, m)
  add_records-kept tenant sums (r ∷ rs) sums' c h m =
      let (next, a, later) = add_records_steps tenant sums r rs sums' h in
      let here : member c next.currencies ≡ true =
        rw (a.currencies)
          (add_once-member c (upper (strip r.snapshot.currency)) sums.currencies m) in
      add_records-kept tenant next rs sums' c later here

  add_records-IsOf :
      (tenant : String) (sums : Sums) (rs : List Reconciliation) (sums' : Sums)
      → add_records plus upper tenant sums rs ≡ ok sums'
      → All (IsOf tenant sums'.currencies) rs
  add_records-IsOf tenant sums [] sums' h = tt
  add_records-IsOf tenant sums (r ∷ rs) sums' h =
      let (next, a, later) = add_records_steps tenant sums r rs sums' h in
      let code = upper (strip r.snapshot.currency) in
      let mine : member code next.currencies ≡ true =
        rw (a.currencies) (add_once_self code sums.currencies) in
      (
        (a.tenant_is, add_records-kept tenant next rs sums' code later mine),
        add_records-IsOf tenant next rs sums' later,
      )

  module _ (exact : (a b : ℕ) → a + b < limit → plus a b ≡ a + b) where
    add_records-total :
        (field : AmountField) (tenant : String) (sums : Sums) (rs : List Reconciliation)
        (sums' : Sums)
        → add_records plus upper tenant sums rs ≡ ok sums'
        → total_of field sums.totals + sum_of field rs < limit
        → total_of field sums'.totals ≡ total_of field sums.totals + sum_of field rs
    unfolding add_records
    add_records-total field tenant sums [] sums' h small =
        let same : sums ≡ sums' = ground (arith, h) in rw (← same) (omega arith)
    add_records-total field tenant sums (r ∷ rs) sums' h small =
        let (next, a, later) = add_records_steps tenant sums r rs sums' h in
        let added : total_of field next.totals
            ≡ total_of field sums.totals + amount_of field r.snapshot =
          ap (total_of field) a.totals
          ∙ total_of-add_amounts plus field sums.totals r.snapshot
          ∙ exact (total_of field sums.totals) (amount_of field r.snapshot)
              (omega (arith, small)) in
        let rest =
          add_records-total field tenant next rs sums' later (omega (arith, added, small)) in
        omega (arith, added, rest)

    module _ (sha256 : String → String → List (String × String) → Amounts → String) where
      -- A portfolio that is rolled up holds, for each of the ten amounts, the exact sum of that amount over
      -- all of its records, if this sum has 28 digits at most; its records are all of the tenant and of the
      -- one currency that it names; and it counts each of them. What is used of Decimal is that a sum of 28
      -- digits at most is exact.
      pub rollup_recovery_portfolio-totals :
          (field : AmountField) (tenant_id : String) (records : List Reconciliation)
          (rollup : Rollup)
          → rollup_recovery_portfolio plus upper sha256 tenant_id records ≡ ok rollup
          → sum_of field records < limit
          → (total_of field rollup.amounts ≡ sum_of field records)
            × All (IsOf rollup.tenant_id (rollup.currency ∷ [])) records
            × (rollup.case_count ≡ length records)
      unfolding rollup_recovery_portfolio
      rollup_recovery_portfolio-totals field tenant_id [] rollup h small =
          absurd (ground (arith, h))
      rollup_recovery_portfolio-totals field tenant_id (r ∷ rs) rollup h small =
          elim (Result-cases (add_records plus upper (strip tenant_id) no_sums (r ∷ rs))) [
            | inr (e, failed) ↦ absurd (ground (arith, failed, h))
            | inl (sums, added) ↦
                let none_yet = total_of-nothing field in
                let total =
                  add_records-total field (strip tenant_id) no_sums (r ∷ rs) sums added
                    (omega (arith, none_yet, small)) in
                let of_all = add_records-IsOf (strip tenant_id) no_sums (r ∷ rs) sums added in
                let amounts : rollup.amounts ≡ sums.totals = ground (arith, added, h) in
                let tenant : rollup.tenant_id ≡ strip tenant_id = ground (arith, added, h) in
                let one : one_currency sums.currencies ≡ ok rollup.currency =
                  ground (arith, added, h) in
                let of_sums : All (IsOf rollup.tenant_id sums.currencies) (r ∷ rs) =
                  subst (λ t. All (IsOf t sums.currencies) (r ∷ rs)) (sym tenant) of_all in
                (
                  rw amounts (omega (arith, total, none_yet)),
                  subst (λ cs. All (IsOf rollup.tenant_id cs) (r ∷ rs))
                      (one_currency-ok sums.currencies rollup.currency one) of_sums,
                  ground (arith, added, h),
                )
          ]

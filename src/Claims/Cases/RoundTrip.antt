-- ===== src/Claims/Cases/RoundTrip.antt =====
-- A case that is stored is read back as it was validated.
use obrasignal.Base.{
  ◌≡◌, refl, ◌∙◌, ap, String, true, Option, some, List, [], ◌∷◌, ◌++◌, arith, inl, inr, Bool-cases,
  Option-cases, find?, find?-append_miss,
}
use obrasignal.Base.Text.{eq_iff, eq_refl}
use obrasignal.Base.Result.{ok, Result-cases}
use obrasignal.Claims.Cases.{
  Case, CaseRow, validate, has_case_id, is_case_of, row_eq, values, put_row, put, case_of, get,
}
use obrasignal.Claims.Cases.Checks.{validate-again}

row_eq→≡ : (a b : CaseRow) → row_eq a b ≡ true → a ≡ b
row_eq→≡ a b h =
    let e_finding_id : a.finding_id ≡ b.finding_id =
      (eq_iff a.finding_id b.finding_id).0 (ground (arith, h)) in
    let e_tenant_id : a.tenant_id ≡ b.tenant_id =
      (eq_iff a.tenant_id b.tenant_id).0 (ground (arith, h)) in
    let e_claim_family : a.claim_family ≡ b.claim_family =
      (eq_iff a.claim_family b.claim_family).0 (ground (arith, h)) in
    let e_customer_ref : a.customer_ref ≡ b.customer_ref =
      (eq_iff a.customer_ref b.customer_ref).0 (ground (arith, h)) in
    let e_program_ref : a.program_ref ≡ b.program_ref =
      (eq_iff a.program_ref b.program_ref).0 (ground (arith, h)) in
    let e_event_ref : a.event_ref ≡ b.event_ref =
      (eq_iff a.event_ref b.event_ref).0 (ground (arith, h)) in
    let e_entitlement_id : a.entitlement_id ≡ b.entitlement_id =
      (eq_iff a.entitlement_id b.entitlement_id).0 (ground (arith, h)) in
    let e_deadline_id : a.deadline_id ≡ b.deadline_id =
      (eq_iff a.deadline_id b.deadline_id).0 (ground (arith, h)) in
    let e_recovery_fingerprint : a.recovery_fingerprint ≡ b.recovery_fingerprint =
      (eq_iff a.recovery_fingerprint b.recovery_fingerprint).0 (ground (arith, h)) in
    let e_notice_deadline_state : a.notice_deadline_state ≡ b.notice_deadline_state =
      (eq_iff a.notice_deadline_state b.notice_deadline_state).0 (ground (arith, h)) in
    let e_missing_evidence_json : a.missing_evidence_json ≡ b.missing_evidence_json =
      (eq_iff a.missing_evidence_json b.missing_evidence_json).0 (ground (arith, h)) in
    cc

is_case_of-find? :
    (t f : String) (rows : List CaseRow) (r : CaseRow)
    → find? (has_case_id f) rows ≡ some r
    → is_case_of t f r ≡ true
    → find? (is_case_of t f) rows ≡ some r
is_case_of-find? t f [] r e h = absurd (ground (arith, e))
is_case_of-find? t f (q ∷ rows) r e h = elim (Bool-cases (has_case_id f q)) [
  | inl hit ↦
      let same : q ≡ r = ground (arith, e, hit) in
      let mine : is_case_of t f q ≡ true = rw (same) h in ground (arith, same, mine)
  | inr miss ↦ ground (arith, miss, is_case_of-find? t f rows r (ground (arith, e, miss)) h)
]

module _ (dumps : List String → String) (loads : String → Option (List String)) where
  put_row-found :
      (row : CaseRow) (rows rows' : List CaseRow)
      → put_row dumps loads row rows ≡ ok rows'
      → find? (has_case_id row.finding_id) rows' ≡ some row
  unfolding put_row
  put_row-found row rows rows' h = elim (Option-cases (find? (has_case_id row.finding_id) rows)) [
    | inl e ↦
        let grown : rows' ≡ rows ++ row ∷ [] = ground (arith, e, h) in
        rw (grown)
          (find?-append_miss (has_case_id row.finding_id) rows row e (eq_refl row.finding_id))
    | inr (existing, e) ↦
        let kept : rows' ≡ rows = ground (arith, e, h) in
        let same = row_eq→≡ existing row (ground (arith, e, h)) in rw (kept) (e ∙ ap some same)
  ]

  case_of-values :
      (v : Case)
      → loads (dumps v.missing_evidence) ≡ some v.missing_evidence
      → validate v ≡ ok v
      → case_of dumps loads (values dumps loads v) ≡ ok v
  unfolding case_of
  case_of-values v reads valid = rw (reads, case_of) valid

  -- A case that `put` accepts is read back as it was validated, by its own tenant and finding, where
  -- JSON reads back the lists that it writes.
  pub get-put :
      (reads : (xs : List String) → loads (dumps xs) ≡ some xs) (c : Case)
      (rows rows' : List CaseRow)
      → put dumps loads c rows ≡ ok rows'
      → (v : Case) × (validate c ≡ ok v) × (get dumps loads c.tenant_id c.finding_id rows' ≡ ok v)
  unfolding put get
  get-put reads c rows rows' h = elim (Result-cases (validate c)) [
    | inr (e, failed) ↦ absurd (ground (arith, failed, h))
    | inl (v, valid) ↦
        let (checked, again) = validate-again c v valid in
        let stored : put_row dumps loads (values dumps loads v) rows ≡ ok rows' =
          ground (arith, valid, h) in
        let mine : is_case_of v.tenant_id v.finding_id (values dumps loads v) ≡ true =
          rw (eq_refl v.tenant_id, eq_refl v.finding_id) refl in
        let found =
          is_case_of-find? v.tenant_id v.finding_id rows' (values dumps loads v)
            (put_row-found (values dumps loads v) rows rows' stored) mine in
        let back = case_of-values v (reads v.missing_evidence) again in
        (v, valid, rw (checked.tenant, checked.finding) (ground (arith, found, back)))
  ]

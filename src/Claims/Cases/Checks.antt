-- ===== src/Claims/Cases/Checks.antt =====
-- A case that has passed the validation passes it as it is.
use obrasignal.Base.{
  ◌≡◌, refl, sym, ap, ◌∙◌, ℕ, String, false, some, List, [], ◌∷◌, arith, inl, inr, Bool-cases,
  Option-cases,
}
use obrasignal.Base.Text.{strip, nonempty}
use obrasignal.Base.Result.{ok}
use obrasignal.Claims.Fields.{required, tenant_of, any_char, is_control}
use obrasignal.Claims.Stripped.{strip-strip, strip-any_char, required-again, tenant_of-again}
use obrasignal.Claims.Cases.{
  Case, checked, checked_tenant, missing_items, checked_missing, checked_notice, validate,
}

pub checked-again :
    (value label : String) (max_chars : ℕ) (text : String)
    → checked value label max_chars ≡ ok text
    → checked text label max_chars ≡ ok text
unfolding checked
checked-again value label max_chars text h = elim (Option-cases (required max_chars value)) [
  | inl e ↦ absurd (ground (arith, e, h))
  | inr (found, e) ↦
      let same : found ≡ text = ground (arith, e, h) in
      let again = required-again max_chars value found e in rw (← same, checked, again) refl
]

checked_tenant-again : (value t : String) → checked_tenant value ≡ ok t → checked_tenant t ≡ ok t
unfolding checked_tenant
checked_tenant-again value t h = elim (Option-cases (tenant_of value)) [
  | inl e ↦ absurd (ground (arith, e, h))
  | inr (found, e) ↦
      let same : found ≡ t = ground (arith, e, h) in
      let again = tenant_of-again value found e in rw (← same, checked_tenant, again) refl
]

missing_items-again :
    (raws texts : List String) → missing_items raws ≡ some texts → missing_items texts ≡ some texts
unfolding missing_items
missing_items-again [] texts h = let same : texts ≡ [] = ground (arith, h) in rw (same) refl
missing_items-again (raw ∷ raws) texts h = elim (Option-cases (missing_items raws)) [
  | inl e ↦ absurd (ground (arith, e, h))
  | inr (ts, e) ↦
      let later = missing_items-again raws ts e in
      let clear : any_char is_control raw ≡ false = ground (arith, e, h) in
      let cleared = strip-any_char is_control raw clear in
      elim (Bool-cases (nonempty (strip raw))) [
        | inl full ↦
            let same : texts ≡ strip raw ∷ ts = ground (arith, e, h, clear, full) in
            rw (same, missing_items, cleared, later, strip-strip raw, full) refl
        | inr blank ↦ let same : texts ≡ ts = ground (arith, e, h, clear, blank) in rw (same) later
      ]
]

checked_missing-again :
    (raws texts : List String) → checked_missing raws ≡ ok texts → checked_missing texts ≡ ok texts
unfolding checked_missing
checked_missing-again raws texts h = elim (Option-cases (missing_items raws)) [
  | inl e ↦ absurd (ground (arith, e, h))
  | inr (ts, e) ↦
      let same : ts ≡ texts = ground (arith, e, h) in
      let again : missing_items texts ≡ some texts = rw (← same) (missing_items-again raws ts e) in
      ground (arith, e, h, again, same)
]

checked_notice-again :
    (value state : String) → checked_notice value ≡ ok state → checked_notice state ≡ ok state
unfolding checked_notice
checked_notice-again value state h =
    let same : strip value ≡ state = ground (arith, h) in
    let again : strip state ≡ state = ap strip (sym same) ∙ strip-strip value ∙ same in
    ground (arith, h, again, same)

-- The fields of one case are those of another, as the checks leave them.
pub record IsChecked (c v : Case) : Type 0 where
  pub missing : checked_missing c.missing_evidence ≡ ok v.missing_evidence
  pub notice : checked_notice c.notice_deadline_state ≡ ok v.notice_deadline_state
  pub finding : checked c.finding_id "finding_id" 2048 ≡ ok v.finding_id
  pub tenant : checked_tenant c.tenant_id ≡ ok v.tenant_id
  pub claim : checked c.claim_family "claim_family" 128 ≡ ok v.claim_family
  pub customer : checked c.customer_ref "customer_ref" 512 ≡ ok v.customer_ref
  pub program : checked c.program_ref "program_ref" 512 ≡ ok v.program_ref
  pub event : checked c.event_ref "event_ref" 512 ≡ ok v.event_ref
  pub entitlement : checked c.entitlement_id "entitlement_id" 2048 ≡ ok v.entitlement_id
  pub deadline : checked c.deadline_id "deadline_id" 2048 ≡ ok v.deadline_id
  pub fingerprint :
      checked c.recovery_fingerprint "recovery_fingerprint" 256 ≡ ok v.recovery_fingerprint

validate-IsChecked : (c v : Case) → validate c ≡ ok v → IsChecked c v
unfolding validate
validate-IsChecked c v h = record {
  missing = ground (arith, h);
  notice = ground (arith, h);
  finding = ground (arith, h);
  tenant = ground (arith, h);
  claim = ground (arith, h);
  customer = ground (arith, h);
  program = ground (arith, h);
  event = ground (arith, h);
  entitlement = ground (arith, h);
  deadline = ground (arith, h);
  fingerprint = ground (arith, h);
}

IsChecked-again : (c v : Case) → IsChecked c v → IsChecked v v
IsChecked-again c v k = record {
  missing = checked_missing-again c.missing_evidence v.missing_evidence (k.missing);
  notice = checked_notice-again c.notice_deadline_state v.notice_deadline_state (k.notice);
  finding = checked-again c.finding_id "finding_id" 2048 v.finding_id (k.finding);
  tenant = checked_tenant-again c.tenant_id v.tenant_id (k.tenant);
  claim = checked-again c.claim_family "claim_family" 128 v.claim_family (k.claim);
  customer = checked-again c.customer_ref "customer_ref" 512 v.customer_ref (k.customer);
  program = checked-again c.program_ref "program_ref" 512 v.program_ref (k.program);
  event = checked-again c.event_ref "event_ref" 512 v.event_ref (k.event);
  entitlement =
      checked-again c.entitlement_id "entitlement_id" 2048 v.entitlement_id (k.entitlement);
  deadline = checked-again c.deadline_id "deadline_id" 2048 v.deadline_id (k.deadline);
  fingerprint =
      checked-again c.recovery_fingerprint "recovery_fingerprint" 256 v.recovery_fingerprint
        (k.fingerprint);
}

IsChecked-validate : (v : Case) → IsChecked v v → validate v ≡ ok v
unfolding validate
IsChecked-validate v k = ground (
  arith, k.missing, k.notice, k.finding, k.tenant, k.claim, k.customer, k.program, k.event,
  k.entitlement, k.deadline, k.fingerprint,
)

pub validate-again : (c v : Case) → validate c ≡ ok v → IsChecked c v × (validate v ≡ ok v)
validate-again c v h =
    let k = validate-IsChecked c v h in (k, IsChecked-validate v (IsChecked-again c v k))

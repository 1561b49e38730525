-- ===== src/Claims/Cases.antt =====
-- vertical_apps/industrial_claims/case_store.py: the table industrial_claim_cases. Each call is one
-- transaction; a call that raises leaves the table.
pub mod Checks
pub mod RoundTrip
pub mod Tests
use Prim.Native.String
use obrasignal.Base.{
  ℕ, String, Bool, true, false, not, ◌&&◌, ◌||◌, Option, none, some, List, [], ◌∷◌, ◌++◌, any,
  find?, count_if, length, ltb, if◌then◌else◌,
}
use obrasignal.Base.Text.{◌==◌, nonempty, strip, member}
use obrasignal.Base.Result.{Result, ok, err, ◌>>=◌, ◌>>◌, raise_if}
use obrasignal.Claims.Fields.{required, tenant_of, any_char, is_control}

pub record Case : Type 0 where
  pub finding_id : String
  pub tenant_id : String
  pub claim_family : String
  pub customer_ref : String
  pub program_ref : String
  pub event_ref : String
  pub entitlement_id : String
  pub deadline_id : String
  pub recovery_fingerprint : String
  pub notice_deadline_state : String
  pub missing_evidence : List String

pub record CaseRow : Type 0 where
  pub finding_id : String
  pub tenant_id : String
  pub claim_family : String
  pub customer_ref : String
  pub program_ref : String
  pub event_ref : String
  pub entitlement_id : String
  pub deadline_id : String
  pub recovery_fingerprint : String
  pub notice_deadline_state : String
  pub missing_evidence_json : String

pub data CaseError : Type 0 where
  invalid : (label : String) → CaseError
  invalid_missing_evidence invalid_notice_state collision not_found : CaseError

unfoldable pub checked : (value label : String) (max_chars : ℕ) → Result CaseError String
checked value label max_chars = elim (required max_chars value) [
  | none ↦ err (invalid label)
  | some text ↦ ok text
]

unfoldable pub checked_tenant : String → Result CaseError String
checked_tenant value = elim (tenant_of value) [ none ↦ err (invalid "tenant_id") | some t ↦ ok t ]

-- The items of the missing evidence, stripped, but for the blank ones; `none` for one with controls.
unfoldable pub missing_items : List String → Option (List String)
missing_items [] = some []
missing_items (raw ∷ raws) =
    let rest = missing_items raws in
    let text = strip raw in
    if any_char is_control raw then none else elim rest [
      | none ↦ none
      | some texts ↦ some (if nonempty text then text ∷ texts else texts)
    ]

abbrev notice_states : List String
notice_states = "UNKNOWN" ∷ "DECLARED_DATE_FOR_REVIEW" ∷ "DECLARED_NONE_FOR_REVIEW" ∷ []

abbrev is_too_long : String → Bool
is_too_long s = ltb 128 (String.count s)

unfoldable pub checked_missing : List String → Result CaseError (List String)
unfolding missing_items
checked_missing raws = elim (missing_items raws) [
  | none ↦ err invalid_missing_evidence
  | some texts ↦
      if ltb 100 (length texts) || any is_too_long texts
      then err invalid_missing_evidence
      else ok texts
]

unfoldable pub checked_notice : String → Result CaseError String
checked_notice value =
    let state = strip value in
    if member state notice_states then ok state else err invalid_notice_state

-- `_validate`
unfoldable pub validate : Case → Result CaseError Case
unfolding checked checked_tenant checked_missing checked_notice
validate c = do
  missing ← checked_missing c.missing_evidence
  notice ← checked_notice c.notice_deadline_state
  finding ← checked c.finding_id "finding_id" 2048
  tenant ← checked_tenant c.tenant_id
  family ← checked c.claim_family "claim_family" 128
  customer ← checked c.customer_ref "customer_ref" 512
  program ← checked c.program_ref "program_ref" 512
  event ← checked c.event_ref "event_ref" 512
  entitlement ← checked c.entitlement_id "entitlement_id" 2048
  deadline ← checked c.deadline_id "deadline_id" 2048
  fingerprint ← checked c.recovery_fingerprint "recovery_fingerprint" 256
  ok (record {
    finding_id = finding;
    tenant_id = tenant;
    claim_family = family;
    customer_ref = customer;
    program_ref = program;
    event_ref = event;
    entitlement_id = entitlement;
    deadline_id = deadline;
    recovery_fingerprint = fingerprint;
    notice_deadline_state = notice;
    missing_evidence = missing;
  })

abbrev pub has_case_id : String → CaseRow → Bool
has_case_id id r = r.finding_id == id

abbrev pub is_case_of : (tenant finding : String) → CaseRow → Bool
is_case_of t f r = r.tenant_id == t && r.finding_id == f

abbrev pub row_eq : CaseRow → CaseRow → Bool
row_eq a b =
    a.finding_id == b.finding_id
    && a.tenant_id == b.tenant_id
    && a.claim_family == b.claim_family
    && a.customer_ref == b.customer_ref
    && a.program_ref == b.program_ref
    && a.event_ref == b.event_ref
    && a.entitlement_id == b.entitlement_id
    && a.deadline_id == b.deadline_id
    && a.recovery_fingerprint == b.recovery_fingerprint
    && a.notice_deadline_state == b.notice_deadline_state
    && a.missing_evidence_json == b.missing_evidence_json

-- `dumps` writes a list of texts as JSON; `loads` gives the texts of a JSON list, and `none` for what is
-- none.
module _ (dumps : List String → String) (loads : String → Option (List String)) where
  -- `_values` of a valid case
  abbrev pub values : Case → CaseRow
  values c = record {
    finding_id = c.finding_id;
    tenant_id = c.tenant_id;
    claim_family = c.claim_family;
    customer_ref = c.customer_ref;
    program_ref = c.program_ref;
    event_ref = c.event_ref;
    entitlement_id = c.entitlement_id;
    deadline_id = c.deadline_id;
    recovery_fingerprint = c.recovery_fingerprint;
    notice_deadline_state = c.notice_deadline_state;
    missing_evidence_json = dumps c.missing_evidence;
  }

  -- `_put` of the values of a case
  unfoldable pub put_row : CaseRow → List CaseRow → Result CaseError (List CaseRow)
  put_row row rows = elim (find? (has_case_id row.finding_id) rows) [
    | some existing ↦ if row_eq existing row then ok rows else err collision
    | none ↦ ok (rows ++ row ∷ [])
  ]

  unfoldable pub put : Case → List CaseRow → Result CaseError (List CaseRow)
  unfolding put_row
  put c rows = validate c >>= λ v. put_row (values v) rows

  unfoldable pub case_of : CaseRow → Result CaseError Case
  case_of r = elim (loads r.missing_evidence_json) [
    | none ↦ err invalid_missing_evidence
    | some missing ↦ validate (record {
      finding_id = r.finding_id;
      tenant_id = r.tenant_id;
      claim_family = r.claim_family;
      customer_ref = r.customer_ref;
      program_ref = r.program_ref;
      event_ref = r.event_ref;
      entitlement_id = r.entitlement_id;
      deadline_id = r.deadline_id;
      recovery_fingerprint = r.recovery_fingerprint;
      notice_deadline_state = r.notice_deadline_state;
      missing_evidence = missing;
    })
  ]

  unfoldable pub get : (tenant_id finding_id : String) → List CaseRow → Result CaseError Case
  unfolding case_of
  get tenant_id finding_id rows = do
    t ← checked_tenant tenant_id
    f ← checked finding_id "finding_id" 2048
    elim (find? (is_case_of t f) rows) [ none ↦ err not_found | some r ↦ case_of r ]

  unfoldable pub count : (tenant_id : String) → List CaseRow → Result CaseError ℕ
  count tenant_id rows = do t ← checked_tenant tenant_id; ok (count_if (λ r. r.tenant_id == t) rows)

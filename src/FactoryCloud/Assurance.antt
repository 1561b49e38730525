-- ===== src/FactoryCloud/Assurance.antt =====
-- factory_cloud/assurance_kernel.py: evidence, calculations, deadlines and findings of a tenant.
-- `sha256` digests content and `payload_hash` is `_sha256` of a payload; a date is its ordinal, and
-- an identity that is given is a text.
pub mod Evidence
pub mod Review
pub mod Tests
use obrasignal.Base.{
  ℕ, String, Bool, true, false, not, ◌&&◌, ◌||◌, Option, none, some, List, [], ◌∷◌, ◌++◌, any,
  length, ltb, select, sort_by, if◌then◌else◌, ◌==◌ as nat_eq,
}
use obrasignal.Base.Text.{◌==◌, nonempty, strip, member, leb_text, or_text}
use obrasignal.Base.Json.{Fields, end, field, str, arr, Items, nil, cons, obj}
use obrasignal.Base.Result.{Result, ok, err, ◌>>=◌, ◌>>◌, raise_if}
use obrasignal.FactoryCloud.Adapters.{texts, text_json}

pub data AssuranceError : Type 0 where
  evidence_identity_required calculation_identity_required inputs_required : AssuranceError
  deadline_evidence_required finding_identity_required finding_evidence_required : AssuranceError
  not_ready_for_review reviewer_required cross_tenant : AssuranceError
  invalid_state : String → AssuranceError

-- The texts of a list, each once.
unfoldable pub distinct : List String → List String
distinct [] = []
distinct (x ∷ xs) = elim (member x xs) [ true ↦ distinct xs | false ↦ x ∷ distinct xs ]

-- `sorted({…})`
unfoldable pub sorted_set : List String → List String
sorted_set xs = sort_by leb_text (distinct xs)

-- `tuple(sorted({str(x) for x in values if str(x)}))`
abbrev identifiers : List String → List String
identifiers xs = sorted_set (select nonempty xs)

pub record EvidenceEnvelope : Type 0 where
  pub evidence_id : String
  pub tenant_id : String
  pub source_type : String
  pub source_ref : String
  pub received_at : String
  pub content_hash : String
  pub metadata : Fields

abbrev is_blank : String → Bool
is_blank s = not (nonempty (strip s))

module _ (sha256 : String → String) where
  -- `EvidenceEnvelope.create`; `now` is the clock as text.
  unfoldable create_evidence :
      (evidence_id tenant_id source_type source_ref content : String) (metadata : Fields)
      (received_at : Option String) (now : String)
      → Result AssuranceError EvidenceEnvelope
  create_evidence evidence_id tenant_id source_type source_ref content metadata received_at now =
      if any is_blank (evidence_id ∷ tenant_id ∷ source_type ∷ source_ref ∷ [])
      then err evidence_identity_required
      else ok (record {
        evidence_id = evidence_id;
        tenant_id = tenant_id;
        source_type = source_type;
        source_ref = source_ref;
        received_at = or_text received_at now;
        content_hash = sha256 content;
        metadata = metadata;
      })

pub record CalculationInput : Type 0 where
  pub name : String
  pub value : String
  pub unit : Option String
  pub evidence_ids : List String

pub record CalculationRecord : Type 0 where
  pub calculation_id : String
  pub tenant_id : String
  pub formula_id : String
  pub formula_version : String
  pub inputs : List CalculationInput
  pub output_value : String
  pub output_unit : Option String
  pub evidence_ids : List String
  pub reproducibility_hash : String

-- `item.__dict__`
abbrev input_json : CalculationInput → Fields
input_json i = field "name" (str i.name) (
    field "value" (str i.value)
      (field "unit" (text_json i.unit) (field "evidence_ids" (arr (texts i.evidence_ids)) end)))

inputs_json : List CalculationInput → Items
inputs_json [] = nil
inputs_json (i ∷ is) = cons (obj (input_json i)) (inputs_json is)

unfoldable pub payload :
    (formula_id formula_version : String) (inputs : List CalculationInput) (output_value : String)
    (output_unit : Option String)
    → Fields
unfolding inputs_json
payload formula_id formula_version inputs output_value output_unit =
    field "formula_id" (str formula_id) (
      field "formula_version" (str formula_version) (
        field "inputs" (arr (inputs_json inputs)) (
          field "output_value" (str output_value)
            (field "output_unit" (text_json output_unit) end))))

unfoldable pub all_evidence : List CalculationInput → List String
all_evidence [] = []
all_evidence (i ∷ is) = i.evidence_ids ++ all_evidence is

abbrev has_inputs : List CalculationInput → Bool
has_inputs [] = false
has_inputs (i ∷ is) = true

module _ (payload_hash : Fields → String) where
  -- `CalculationRecord.create`
  unfoldable pub create_calculation :
      (calculation_id tenant_id formula_id formula_version : String)
      (inputs : List CalculationInput) (output_value : String) (output_unit : Option String)
      → Result AssuranceError CalculationRecord
  create_calculation calculation_id tenant_id formula_id version inputs output_value output_unit =
      do
        raise_if
            (not (nonempty calculation_id)
              || not (nonempty tenant_id)
              || not (nonempty formula_id)
              || not (nonempty version))
            calculation_identity_required
        raise_if (not (has_inputs inputs)) inputs_required
        ok (record {
          calculation_id = calculation_id;
          tenant_id = tenant_id;
          formula_id = formula_id;
          formula_version = version;
          inputs = inputs;
          output_value = output_value;
          output_unit = output_unit;
          evidence_ids = sorted_set (all_evidence inputs);
          reproducibility_hash =
              payload_hash (payload formula_id version inputs output_value output_unit);
        })

pub record DeadlineWindow : Type 0 where
  pub deadline_id : String
  pub tenant_id : String
  pub due_date : ℕ
  pub basis_evidence_ids : List String
  pub timezone_name : String

abbrev pub is_nil : List String → Bool
is_nil [] = true
is_nil (x ∷ xs) = false

-- `DeadlineWindow.create`
unfoldable create_deadline :
    (deadline_id tenant_id : String) (due_date : ℕ) (basis_evidence_ids : List String)
    (timezone_name : String)
    → Result AssuranceError DeadlineWindow
create_deadline deadline_id tenant_id due_date basis timezone_name =
    let evidence = identifiers basis in
    if not (nonempty deadline_id) || not (nonempty tenant_id) || is_nil evidence
    then err deadline_evidence_required
    else ok (record {
      deadline_id = deadline_id;
      tenant_id = tenant_id;
      due_date = due_date;
      basis_evidence_ids = evidence;
      timezone_name = timezone_name;
    })

pub data DeadlineState : Type 0 where
  still_open due_today expired : DeadlineState

-- `state_on`
unfoldable pub state_on : DeadlineWindow → (on_date : ℕ) → DeadlineState
state_on w on_date =
    if ltb on_date w.due_date
    then still_open
    else if nat_eq on_date w.due_date
    then due_today
    else expired

-- ALLOWED_FINDING_STATES
abbrev allowed_finding_states : List String
allowed_finding_states =
    "UNRESOLVED_EVIDENCE" ∷ "READY_FOR_REVIEW" ∷ "APPROVED" ∷ "REJECTED" ∷ "ACTIONED" ∷ "RECOVERED"
    ∷ "CLOSED_NO_RECOVERY" ∷ []

pub record FindingRecord : Type 0 where
  pub finding_id : String
  pub tenant_id : String
  pub finding_type : String
  pub state : String
  pub evidence_ids : List String
  pub calculation_ids : List String
  pub reviewer : Option String
  pub decision_reason : Option String

-- `FindingRecord.create`
unfoldable pub create_finding :
    (finding_id tenant_id finding_type : String) (evidence_ids calculation_ids : List String)
    (state : String)
    → Result AssuranceError FindingRecord
create_finding finding_id tenant_id finding_type evidence_ids calculation_ids state = do
  raise_if (not (nonempty finding_id) || not (nonempty tenant_id) || not (nonempty finding_type))
      finding_identity_required
  raise_if (not (member state allowed_finding_states)) (invalid_state state)
  raise_if (not (state == "UNRESOLVED_EVIDENCE") && is_nil (identifiers evidence_ids))
      finding_evidence_required
  ok (record {
    finding_id = finding_id;
    tenant_id = tenant_id;
    finding_type = finding_type;
    state = state;
    evidence_ids = identifiers evidence_ids;
    calculation_ids = identifiers calculation_ids;
    reviewer = none;
    decision_reason = none;
  })

-- `FindingRecord.review`
unfoldable pub review :
    FindingRecord
    → (reviewer : String) (approved : Bool) (reason : String) → Result AssuranceError FindingRecord
review f reviewer approved reason = do
  raise_if (not (f.state == "READY_FOR_REVIEW")) not_ready_for_review
  raise_if (not (nonempty reviewer) || not (nonempty reason)) reviewer_required
  ok (record f {
    state = if approved then "APPROVED" else "REJECTED";
    reviewer = some reviewer;
    decision_reason = some reason;
  })

abbrev first_text : List String → String
first_text [] = ""
first_text (x ∷ xs) = x

-- `assert_same_tenant`, on the tenants of the objects; an object without one has the empty text.
unfoldable pub assert_same_tenant : List String → Result AssuranceError String
assert_same_tenant tenants =
    let ts = distinct tenants in
    if member "" ts || not (nat_eq (length ts) 1) then err cross_tenant else ok (first_text ts)

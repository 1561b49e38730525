-- ===== src/FactoryCloud/Assurance/Tests.antt =====
-- A calculation, a review, a deadline and a composition.
use obrasignal.Base.{◌≡◌, refl, ℕ, String, true, none, some, [], ◌∷◌, sort_by}
use obrasignal.Base.Text.{leb_text}
use obrasignal.Base.Json.{Fields}
use obrasignal.Base.Result.{ok}
use obrasignal.FactoryCloud.Assurance.{
  CalculationInput, CalculationRecord, create_calculation, payload, sorted_set, distinct,
  all_evidence, FindingRecord, create_finding, review, DeadlineWindow, assert_same_tenant,
}
use obrasignal.FactoryCloud.Assurance.Review.{IsReviewed, review-IsReviewed}

abbrev price : CalculationInput
price = record {
  name = "price";
  value = "12.5";
  unit = some "EUR";
  evidence_ids = "e2" ∷ "e1" ∷ [];
}

abbrev amount : CalculationInput
amount = record { name = "amount"; value = "4"; unit = none; evidence_ids = "e1" ∷ [] }

abbrev hash : Fields → String
hash fs = "digest"

abbrev total : CalculationRecord
total = record {
  calculation_id = "c1";
  tenant_id = "t1";
  formula_id = "total";
  formula_version = "1";
  inputs = price ∷ amount ∷ [];
  output_value = "50";
  output_unit = some "EUR";
  evidence_ids = sorted_set ("e2" ∷ "e1" ∷ "e1" ∷ []);
  reproducibility_hash = "digest";
}

evidence_test : total.evidence_ids ≡ "e1" ∷ "e2" ∷ []
unfolding sorted_set distinct sort_by leb_text
evidence_test = refl

total_created :
    create_calculation hash "c1" "t1" "total" "1" (price ∷ amount ∷ []) "50" (some "EUR") ≡ ok total
unfolding create_calculation payload all_evidence
total_created = refl

abbrev finding : FindingRecord
finding = record {
  finding_id = "f1";
  tenant_id = "t1";
  finding_type = "overcharge";
  state = "READY_FOR_REVIEW";
  evidence_ids = "e1" ∷ [];
  calculation_ids = [];
  reviewer = none;
  decision_reason = none;
}

abbrev approved : FindingRecord
approved = record finding {
  state = "APPROVED";
  reviewer = some "ana";
  decision_reason = some "invoice";
}

finding_created :
    create_finding "f1" "t1" "overcharge" ("e1" ∷ "" ∷ []) [] "READY_FOR_REVIEW" ≡ ok finding
unfolding create_finding sorted_set distinct sort_by leb_text
finding_created = refl

approval : review finding "ana" true "invoice" ≡ ok approved
unfolding review
approval = refl

review-IsReviewed_example : IsReviewed finding "ana" true "invoice" approved
review-IsReviewed_example =
    review-IsReviewed "f1" "t1" "overcharge" ("e1" ∷ "" ∷ []) [] "READY_FOR_REVIEW" "ana" true
      "invoice" finding_created approval

abbrev deadline : DeadlineWindow
deadline = record {
  deadline_id = "d1";
  tenant_id = "t1";
  due_date = 100;
  basis_evidence_ids = "e1" ∷ [];
  timezone_name = "UTC";
}

abbrev day : ℕ
day = 101

same_tenant : assert_same_tenant ("t1" ∷ "t1" ∷ []) ≡ ok "t1"
unfolding assert_same_tenant distinct
same_tenant = refl

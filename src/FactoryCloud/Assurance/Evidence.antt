-- ===== src/FactoryCloud/Assurance/Evidence.antt =====
-- Which evidence a calculation carries, and whose objects may be composed.
use obrasignal.Base.{
  ◌≡◌, refl, String, ◌||◌, Option, List, [], ◌∷◌, ◌++◌, arith, any, sort_by, insert_by,
  insert_by-nil, insert_by-here, insert_by-later, inl, inr, Bool-cases,
}
use obrasignal.Base.Text.{◌==◌, eq_iff, member, leb_text}
use obrasignal.Base.Json.{Fields}
use obrasignal.Base.Result.{ok}
use obrasignal.FactoryCloud.Assurance.{
  CalculationInput, CalculationRecord, distinct, sorted_set, all_evidence, create_calculation,
}

member-insert_by :
    (e x : String) (ys : List String) → member e (insert_by leb_text x ys) ≡ (e == x || member e ys)
member-insert_by e x [] = rw (insert_by-nil leb_text x) refl
member-insert_by e x (y ∷ ys) = elim (Bool-cases (leb_text x y)) [
  | inl h ↦ rw (insert_by-here leb_text x y ys h) refl
  | inr h ↦ rw (insert_by-later leb_text x y ys h) (ground (arith, member-insert_by e x ys))
]

member-sort_by : (e : String) (xs : List String) → member e (sort_by leb_text xs) ≡ member e xs
unfolding sort_by
member-sort_by e [] = refl
member-sort_by e (x ∷ xs) =
    ground (arith, member-insert_by e x (sort_by leb_text xs), member-sort_by e xs)

member-distinct : (e : String) (xs : List String) → member e (distinct xs) ≡ member e xs
unfolding distinct
member-distinct e [] = refl
member-distinct e (x ∷ xs) = elim (Bool-cases (member x xs)) [
  | inl h ↦ ground (arith, eq_iff e x, member-distinct e xs)
  | inr h ↦ ground (arith, member-distinct e xs)
]

member-append :
    (e : String) (xs ys : List String) → member e (xs ++ ys) ≡ (member e xs || member e ys)
member-append e [] ys = refl
member-append e (x ∷ xs) ys = ground (arith, member-append e xs ys)

member-all_evidence :
    (e : String) (is : List CalculationInput)
    → member e (all_evidence is) ≡ any (λ i. member e i.evidence_ids) is
unfolding all_evidence
member-all_evidence e [] = refl
member-all_evidence e (i ∷ is) =
    ground (arith, member-append e i.evidence_ids (all_evidence is), member-all_evidence e is)

-- A calculation that is created carries exactly the evidence of its inputs.
create_calculation-evidence :
    (payload_hash : Fields → String) (id tenant formula version : String)
    (inputs : List CalculationInput) (value : String) (unit : Option String) (e : String)
    {c : CalculationRecord}
    → create_calculation payload_hash id tenant formula version inputs value unit ≡ ok c
    → member e c.evidence_ids ≡ any (λ i. member e i.evidence_ids) inputs
unfolding create_calculation sorted_set
create_calculation-evidence payload_hash id tenant formula version inputs value unit e {c} h =
    ground (
      arith,
      member-sort_by e (distinct (all_evidence inputs)),
      member-distinct e (all_evidence inputs),
      member-all_evidence e inputs,
    )

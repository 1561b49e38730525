-- ===== src/FactoryCloud/Assurance/Review.antt =====
-- Findings and their review, deadlines, and the tenants of what is composed.
use obrasignal.Base.{
  ◌≡◌, refl, ℕ, ◌≤◌, ◌<◌, String, Bool, true, false, some, List, [], ◌∷◌, arith, All, length, ◌↔◌,
  inl, inr, Bool-cases, if◌then◌else◌, ◌∙◌,
}
use obrasignal.Base.Text.{◌==◌, eq_iff, member, nonempty}
use obrasignal.Base.Result.{ok, err}
use obrasignal.FactoryCloud.Assurance.{
  FindingRecord, create_finding, review, not_ready_for_review, cross_tenant, is_nil, DeadlineWindow,
  still_open, due_today, expired, state_on, distinct, assert_same_tenant, first_text,
}

-- What a review that is accepted leaves: a decided finding of the same tenant on the same evidence,
-- of which there is some, with a reviewer and a reason; it takes no second review.
pub record IsReviewed (f : FindingRecord) (reviewer : String) (approved : Bool) (reason : String)
    (g : FindingRecord) : Type 0 where
  pub decided : g.state ≡ (if approved then "APPROVED" else "REJECTED")
  pub tenant_kept : g.tenant_id ≡ f.tenant_id
  pub evidence_kept : g.evidence_ids ≡ f.evidence_ids
  pub calculations_kept : g.calculation_ids ≡ f.calculation_ids
  pub has_evidence : is_nil g.evidence_ids ≡ false
  pub has_reviewer : (g.reviewer ≡ some reviewer) × (nonempty reviewer ≡ true)
  pub has_reason : (g.decision_reason ≡ some reason) × (nonempty reason ≡ true)
  pub is_final :
      (other : String) (again : Bool) (why : String)
      → review g other again why ≡ err not_ready_for_review

review-final :
    (g : FindingRecord) (approved : Bool) (other : String) (again : Bool) (why : String)
    → g.state ≡ (if approved then "APPROVED" else "REJECTED")
    → review g other again why ≡ err not_ready_for_review
unfolding review
review-final g true other again why h = rw h refl
review-final g false other again why h = rw h refl

create_finding-ready :
    (id tenant kind : String) (evidence calculations : List String) (state : String)
    {f : FindingRecord}
    → create_finding id tenant kind evidence calculations state ≡ ok f
    → (f.state == "READY_FOR_REVIEW") ≡ true
    → is_nil f.evidence_ids ≡ false
unfolding create_finding
create_finding-ready id tenant kind evidence calculations state {f} h ready =
    elim (Bool-cases (state == "UNRESOLVED_EVIDENCE")) [
      | inr e ↦ ground arith
      | inl e ↦
          let kept : f.state ≡ state = ground arith in
          let unresolved = (eq_iff state "UNRESOLVED_EVIDENCE").0 e in
          let not_ready : (f.state == "READY_FOR_REVIEW") ≡ false = rw (kept ∙ unresolved) refl in
          ground arith
    ]

-- A finding that was created and whose review is accepted is decided, on evidence.
pub review-IsReviewed :
    (id tenant kind : String) (evidence calculations : List String) (state : String)
    (reviewer : String) (approved : Bool) (reason : String) {f g : FindingRecord}
    → create_finding id tenant kind evidence calculations state ≡ ok f
    → review f reviewer approved reason ≡ ok g
    → IsReviewed f reviewer approved reason g
unfolding review
review-IsReviewed id tenant kind evidence calculations state reviewer approved reason {f} {g} h r =
    let ready : (f.state == "READY_FOR_REVIEW") ≡ true = ground arith in
    let supported = create_finding-ready id tenant kind evidence calculations state h ready in
    let decided : g.state ≡ (if approved then "APPROVED" else "REJECTED") = ground arith in
    record {
      decided = decided;
      tenant_kept = ground arith;
      evidence_kept = ground arith;
      calculations_kept = ground arith;
      has_evidence = ground (arith, supported);
      has_reviewer = ground arith;
      has_reason = ground arith;
      is_final = λ other again why. review-final g approved other again why decided;
    }

-- A deadline is open before its day, due on it and expired after it; once expired it stays so.
state_on-expired_iff :
    (w : DeadlineWindow) (day later : ℕ)
    → day ≤ later
    → ((state_on w day ≡ still_open) ↔ (day < w.due_date))
      × ((state_on w day ≡ due_today) ↔ (day ≡ w.due_date))
      × ((state_on w day ≡ expired) ↔ (w.due_date < day))
      × (state_on w day ≡ expired → state_on w later ≡ expired)
unfolding state_on
state_on-expired_iff w day later h = ground arith

distinct-cons : (x : String) (xs : List String) → is_nil (distinct (x ∷ xs)) ≡ false
unfolding distinct
distinct-cons x [] = refl
distinct-cons x (y ∷ ys) = elim (Bool-cases (member x (y ∷ ys))) [
  | inl e ↦ ground (arith, distinct-cons y ys)
  | inr e ↦ ground arith
]

member-same : (t x : String) (xs : List String) → All (λ u. u ≡ t) xs → member x xs ≡ true → x ≡ t
member-same t x [] all h = absurd (ground arith)
member-same t x (y ∷ ys) (a, all) h = elim (Bool-cases (x == y)) [
  | inl e ↦ (eq_iff x y).0 e ∙ a
  | inr e ↦ member-same t x ys all (ground arith)
]

same_tenants :
    (t x : String) (xs : List String) → distinct (x ∷ xs) ≡ t ∷ [] → All (λ u. u ≡ t) (x ∷ xs)
unfolding distinct
same_tenants t x [] h = ground arith
same_tenants t x (y ∷ ys) h = elim (Bool-cases (member x (y ∷ ys))) [
  | inl e ↦ let same = same_tenants t y ys (ground arith) in (member-same t x (y ∷ ys) same e, same)
  | inr e ↦ absurd (ground (arith, distinct-cons y ys))
]

one_text : (xs : List String) → length xs ≡ 1 → xs ≡ first_text xs ∷ []
one_text [] h = absurd (omega (arith, h))
one_text (x ∷ []) h = refl
one_text (x ∷ y ∷ ys) h = absurd (omega (arith, h))

not_blank : (t : String) → member "" (t ∷ []) ≡ false → nonempty t ≡ true
not_blank String.[] h = absurd (ground arith)
not_blank (String.◌∷◌ c t) h = refl

assert_same_tenant-nil : assert_same_tenant [] ≡ err cross_tenant
unfolding assert_same_tenant distinct
assert_same_tenant-nil = refl

-- Objects that may be composed all have the tenant that is returned, and it is not the empty text.
assert_same_tenant-same :
    (tenants : List String) {t : String}
    → assert_same_tenant tenants ≡ ok t
    → All (λ u. u ≡ t) tenants × (nonempty t ≡ true)
unfolding assert_same_tenant
assert_same_tenant-same [] {t} h = absurd (ground (arith, assert_same_tenant-nil))
assert_same_tenant-same (x ∷ xs) {t} h =
    let one : length (distinct (x ∷ xs)) ≡ 1 = ground arith in
    let first : first_text (distinct (x ∷ xs)) ≡ t = ground arith in
    let only : distinct (x ∷ xs) ≡ t ∷ [] = ground (arith, one_text (distinct (x ∷ xs)) one) in
    let apart : member "" (distinct (x ∷ xs)) ≡ false = ground arith in
    let here : member "" (t ∷ []) ≡ false = rw only at apart in
    (same_tenants t x xs only, not_blank t here)

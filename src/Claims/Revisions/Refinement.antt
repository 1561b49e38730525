-- ===== src/Claims/Revisions/Refinement.antt =====
-- The table refines a map from each tenant and fingerprint to a history of findings: a registration
-- starts a history, and an amendment is a push on one history.
use mathlib.Core.Path.{subst}
use obrasignal.Base.{
  ◌≡◌, refl, String, Bool, true, false, none, some, List, [], ◌∷◌, arith, inl, inr, Bool-cases,
  find?, count_if, sym,
}
use obrasignal.Base.Text.{◌==◌, eq_iff, eq_refl}
use obrasignal.Base.Result.{ok, err}
use obrasignal.Claims.Revisions.{
  Table, tenant, finding, fingerprint, has_id, is_current_of, supersede, supersede_rows,
  not_current_target,
}
use obrasignal.Claims.Revisions.Chains.{row, find?-narrow, validate_lineage-Chain}
use obrasignal.Claims.Revisions.Histories.{
  Histories, same_key, push, Holds, HoldsAll, Refines, amended, insert-amended, amended-Holds,
  amended-HoldsAll,
}

found_apart :
    {A : Type 0} (p q : A → Bool) (xs : List A) {x : A}
    → find? p xs ≡ some x
    → count_if q xs ≡ 0
    → q x ≡ false
found_apart p q [] f c = absurd (ground arith)
found_apart p q (y ∷ ys) {x} f c = elim (Bool-cases (p y)) [
  | inl e ↦
      let same : y ≡ x = ground (arith, e) in
      elim (Bool-cases (q y)) [ inl g ↦ absurd (ground (arith, g)) | inr g ↦ rw (← same) g ]
  | inr e ↦ elim (Bool-cases (q y)) [
    | inl g ↦ absurd (ground (arith, g))
    | inr g ↦ found_apart p q ys {x = x} (ground (arith, e)) (ground (arith, g))
  ]
]

pub none_found : {A : Type 0} (p : A → Bool) (xs : List A) → count_if p xs ≡ 0 → find? p xs ≡ none
none_found p [] c = refl
none_found p (y ∷ ys) c = elim (Bool-cases (p y)) [
  | inl e ↦ absurd (ground (arith, e))
  | inr e ↦ ground (arith, e, none_found p ys)
]

module _ (rows : Table) (t p current : String) (older : List String) (valid_t : tenant t ≡ ok t)
    (valid_p : fingerprint p ≡ ok p) (holds : Holds rows t p current older) where
  current_row : find? (is_current_of t p) rows ≡ some (row t p true current older)
  current_row =
      find?-narrow (has_id current) (is_current_of t p) rows holds.one_current holds.chain.0
        (rw (eq_refl t, eq_refl p) refl)

  supersede-target :
      (target new : String)
      → finding target ≡ ok target
      → finding new ≡ ok new
      → (target == new) ≡ false
      → (current == target) ≡ false
      → supersede t p target new rows ≡ err not_current_target
  unfolding supersede supersede_rows
  supersede-target target new valid_target valid_new apart other =
      let lineage =
        validate_lineage-Chain rows t p true current older valid_t valid_p holds.chain in
      rw (valid_t, valid_p, valid_target, valid_new, apart, current_row, lineage, other) refl

  supersede-amended :
      (new : String)
      → finding new ≡ ok new
      → count_if (has_id new) rows ≡ 0
      → (current == new) ≡ false
      → supersede t p current new rows
        ≡ ok (row t p true new (current ∷ older), amended rows t p current new older)
  unfolding supersede supersede_rows
  supersede-amended new valid_new fresh apart =
      let lineage =
        validate_lineage-Chain rows t p true current older valid_t valid_p holds.chain in
      let valid_current = holds.chain.1 in
      let inserted = insert-amended rows t p current new older valid_new fresh apart holds in
      rw
        (
          valid_t,
          valid_p,
          valid_current,
          valid_new,
          apart,
          current_row,
          lineage,
          eq_refl current,
          fresh,
        )
        (ground (arith, inserted))

pub moved :
    (rows : Table) (h : Histories) (new t p t' p' : String)
    → same_key t p t' p' ≡ true
    → HoldsAll rows t p (new ∷ h t p)
    → HoldsAll rows t' p' (new ∷ h t' p')
moved rows h new t p t' p' e holds =
    let et : t ≡ t' = (eq_iff t t').0 (ground (arith, e)) in
    let ep : p ≡ p' = (eq_iff p p').0 (ground (arith, e)) in
    subst (λ x. HoldsAll rows x p' (new ∷ h x p')) et
      (subst (λ y. HoldsAll rows t y (new ∷ h t y)) ep holds)

-- An amendment of the newest finding of a history by a new id is accepted, and pushes the id on that
-- history and on no other.
pub supersede-Refines :
    (rows : Table) (h : Histories) (t p current new : String) (older : List String)
    → Refines rows h
    → h t p ≡ current ∷ older
    → tenant t ≡ ok t
    → fingerprint p ≡ ok p
    → finding new ≡ ok new
    → count_if (has_id new) rows ≡ 0
    → (rows' : Table) × (supersede t p current new rows
        ≡ ok (row t p true new (current ∷ older), rows'))
      × Refines rows' (push t p new h)
supersede-Refines rows h t p current new older refines newest valid_t valid_p valid_new fresh =
    let holds : Holds rows t p current older = subst (HoldsAll rows t p) newest (refines t p) in
    let apart : (current == new) ≡ false =
      found_apart (has_id current) (has_id new) rows holds.chain.0 fresh in
    let rows' = amended rows t p current new older in
    (
      rows',
      supersede-amended rows t p current older valid_t valid_p holds new valid_new fresh apart,
      λ t' p'. elim (Bool-cases (same_key t p t' p')) [
        | inl e ↦
            let pushed : push t p new h t' p' ≡ new ∷ h t' p' = rw e refl in
            let here : HoldsAll rows' t p (new ∷ h t p) =
              subst (λ ids. HoldsAll rows' t p (new ∷ ids)) (sym newest)
                (amended-Holds rows t p current new older valid_new fresh apart holds) in
            subst (HoldsAll rows' t' p') (sym pushed) (moved rows' h new t p t' p' e here)
        | inr e ↦
            let kept : push t p new h t' p' ≡ h t' p' = rw e refl in
            subst (HoldsAll rows' t' p') (sym kept) (
              amended-HoldsAll rows t p current new older valid_new fresh apart holds t' p'
                (h t' p') e (refines t' p'))
      ],
    )

-- An amendment of any other finding than the newest of a history is refused.
pub supersede-refuses :
    (rows : Table) (h : Histories) (t p current target new : String) (older : List String)
    → Refines rows h
    → h t p ≡ current ∷ older
    → tenant t ≡ ok t
    → fingerprint p ≡ ok p
    → finding target ≡ ok target
    → finding new ≡ ok new
    → (target == new) ≡ false
    → (current == target) ≡ false
    → supersede t p target new rows ≡ err not_current_target
supersede-refuses rows h t p current target new older refines newest valid_t valid_p =
    supersede-target rows t p current older valid_t valid_p
      (subst (HoldsAll rows t p) newest (refines t p)) target new

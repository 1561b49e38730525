-- ===== src/Claims/Revisions/Registration.antt =====
-- A registration starts a history.
use mathlib.Core.Path.{subst}
use obrasignal.Base.{
  ◌≡◌, refl, suc, ◌≤◌, String, Bool, true, false, none, List, [], ◌∷◌, ◌++◌, arith, All, inl, inr,
  Bool-cases, find?, count_if, length, sym,
}
use obrasignal.Base.Text.{eq_refl}
use obrasignal.Base.Result.{ok}
use obrasignal.FactoryCloud.WorkQueue.Counts.{All-append_one}
use obrasignal.Claims.Revisions.{
  Revision, Table, tenant, finding, fingerprint, has_id, in_lineage, is_current_of, same_number,
  insert, initial, register_row, register_initial,
}
use obrasignal.Claims.Revisions.Chains.{Chain, row-validated}
use obrasignal.Claims.Revisions.Histories.{
  Histories, same_key, push, Holds, HoldsAll, Refines, find?-append, find?-append_new,
  count_if-none,
}
use obrasignal.Claims.Revisions.Refinement.{none_found, moved}

Chain-append :
    (rows : Table) (y : Revision) (t p : String) (is_current : Bool) (ids : List String)
    → Chain rows t p is_current ids
    → Chain (rows ++ y ∷ []) t p is_current ids
Chain-append rows y t p is_current [] c = tt
Chain-append rows y t p is_current (id ∷ older) (f, v, apart, c) =
    (find?-append (has_id id) rows y f, v, apart, Chain-append rows y t p false older c)

out_of_lineage :
    (q : Revision → Bool) (t p : String) (rows : Table)
    → ((r : Revision) → in_lineage t p r ≡ false → q r ≡ false)
    → All (λ r. in_lineage t p r ≡ false) rows
    → All (λ r. q r ≡ false) rows
out_of_lineage q t p [] implied all = tt
out_of_lineage q t p (r ∷ rows) implied (a, all) =
    (implied r a, out_of_lineage q t p rows implied all)

vacuous :
    (q : Revision → Bool) (P : Revision → Type 0) (rows : Table)
    → All (λ r. q r ≡ false) rows
    → All (λ r. q r ≡ true → P r) rows
vacuous q P [] all = tt
vacuous q P (r ∷ rows) (a, all) = ((λ h. absurd (ground (arith, a, h))), vacuous q P rows all)

module _ (rows : Table) (t p id : String) where
  abbrev pub registered : Table
  registered = rows ++ initial t p id ∷ []

  registered-HoldsAll :
      (t' p' : String) (ids : List String)
      → same_key t p t' p' ≡ false
      → HoldsAll rows t' p' ids
      → HoldsAll registered t' p' ids
  registered-HoldsAll t' p' [] other all =
      All-append_one (λ r. in_lineage t' p' r ≡ false) rows (initial t p id) all other
  registered-HoldsAll t' p' (x ∷ xs) other holds = record {
    chain = Chain-append rows (initial t p id) t' p' true (x ∷ xs) holds.chain;
    one_current =
        All-append_one (λ r. is_current_of t' p' r ≡ true → has_id x r ≡ true) rows (initial t p id)
          holds.one_current (λ c. absurd (ground (arith, other, c)));
    numbered =
        All-append_one (λ r. in_lineage t' p' r ≡ true → r.revision ≤ suc (length xs)) rows
          (initial t p id) holds.numbered (λ c. absurd (ground (arith, other, c)));
  }

  registered-Holds :
      finding id ≡ ok id
      → count_if (has_id id) rows ≡ 0
      → All (λ r. in_lineage t p r ≡ false) rows
      → Holds registered t p id []
  registered-Holds valid fresh all = record {
    chain =
        (find?-append_new (has_id id) rows (initial t p id) fresh (eq_refl id), valid, refl, tt);
    one_current =
        All-append_one (λ r. is_current_of t p r ≡ true → has_id id r ≡ true) rows (initial t p id)
          (vacuous (is_current_of t p) (λ r. has_id id r ≡ true) rows
            (out_of_lineage (is_current_of t p) t p rows (λ r a. ground (arith, a)) all))
          (λ c. eq_refl id);
    numbered =
        All-append_one (λ r. in_lineage t p r ≡ true → r.revision ≤ 1) rows (initial t p id)
          (vacuous (in_lineage t p) (λ r. r.revision ≤ 1) rows all) (λ c. omega arith);
  }

register_row-new :
    (rows : Table) (t p id : String)
    → find? (has_id id) rows ≡ none
    → find? (is_current_of t p) rows ≡ none
    → count_if (has_id id) rows ≡ 0
    → count_if (same_number (initial t p id)) rows ≡ 0
    → count_if (is_current_of t p) rows ≡ 0
    → register_row (initial t p id) rows ≡ ok (initial t p id, registered rows t p id)
unfolding register_row insert
register_row-new rows t p id unknown no_row fresh no_number no_current = ground arith

pub registered-Refines :
    (rows : Table) (h : Histories) (t p id : String)
    → Refines rows h
    → h t p ≡ []
    → finding id ≡ ok id
    → count_if (has_id id) rows ≡ 0
    → Refines (registered rows t p id) (push t p id h)
registered-Refines rows h t p id refines empty valid fresh t' p' =
    let all : All (λ r. in_lineage t p r ≡ false) rows =
      subst (HoldsAll rows t p) empty (refines t p) in
    elim (Bool-cases (same_key t p t' p')) [
      | inl e ↦
          let pushed : push t p id h t' p' ≡ id ∷ h t' p' = rw e refl in
          let here : HoldsAll (registered rows t p id) t p (id ∷ h t p) =
            subst (λ ids. HoldsAll (registered rows t p id) t p (id ∷ ids)) (sym empty)
              (registered-Holds rows t p id valid fresh all) in
          subst (HoldsAll (registered rows t p id) t' p') (sym pushed)
            (moved (registered rows t p id) h id t p t' p' e here)
      | inr e ↦
          let kept : push t p id h t' p' ≡ h t' p' = rw e refl in
          subst (HoldsAll (registered rows t p id) t' p') (sym kept)
            (registered-HoldsAll rows t p id t' p' (h t' p') e (refines t' p'))
    ]

-- A registration of a new id under a key without a history is accepted, and starts that history; no
-- other history changes.
pub register_initial-Refines :
    (rows : Table) (h : Histories) (t p id : String)
    → Refines rows h
    → h t p ≡ []
    → tenant t ≡ ok t
    → fingerprint p ≡ ok p
    → finding id ≡ ok id
    → count_if (has_id id) rows ≡ 0
    → (rows' : Table) × (register_initial (initial t p id) rows ≡ ok (initial t p id, rows'))
      × Refines rows' (push t p id h)
unfolding register_initial
register_initial-Refines rows h t p id refines empty valid_t valid_p valid fresh =
    let all : All (λ r. in_lineage t p r ≡ false) rows =
      subst (HoldsAll rows t p) empty (refines t p) in
    let valid_row = row-validated t p true id [] valid_t valid_p valid refl tt in
    let no_current =
      count_if-none (is_current_of t p) rows
        (out_of_lineage (is_current_of t p) t p rows (λ r a. ground (arith, a)) all) in
    let no_number =
      count_if-none (same_number (initial t p id)) rows
        (out_of_lineage (same_number (initial t p id)) t p rows (λ r a. ground (arith, a)) all) in
    let unknown = none_found (has_id id) rows fresh in
    let no_row = none_found (is_current_of t p) rows no_current in
    (
      registered rows t p id,
      rw valid_row (register_row-new rows t p id unknown no_row fresh no_number no_current),
      registered-Refines rows h t p id refines empty valid fresh,
    )

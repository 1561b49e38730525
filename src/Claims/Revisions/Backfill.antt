-- ===== src/Claims/Revisions/Backfill.antt =====
-- `_backfill_existing_cases` of vertical_apps/industrial_claims/revision_store.py: a history for each
-- tenant and fingerprint of the cases that were stored before there were revisions.
use obrasignal.Base.{
  Bool, true, false, not, ◌&&◌, ◌||◌, List, [], ◌∷◌, any, count_if, sort_by, if◌then◌else◌,
  ◌==◌ as nat_eq,
}
use obrasignal.Base.Text.{◌==◌, leb_text}
use obrasignal.Base.Result.{Result, ok, err, ◌>>=◌}
use obrasignal.Claims.Cases.{CaseRow}
use obrasignal.Claims.Revisions.{
  RevisionError, Table, ambiguous, in_lineage, initial, validated, register_row,
}

abbrev same_lineage : CaseRow → CaseRow → Bool
same_lineage c d = c.tenant_id == d.tenant_id && c.recovery_fingerprint == d.recovery_fingerprint

-- `ORDER BY tenant_id, recovery_fingerprint, finding_id`
abbrev by_lineage : CaseRow → CaseRow → Bool
by_lineage c d =
    if c.tenant_id == d.tenant_id
    then if c.recovery_fingerprint == d.recovery_fingerprint
      then leb_text c.finding_id d.finding_id
      else leb_text c.recovery_fingerprint d.recovery_fingerprint
    else leb_text c.tenant_id d.tenant_id

-- The groups in the order of their first cases; `seen` holds the first case of each group before.
unfoldable pub backfill_groups :
    (all_cases seen : List CaseRow) → List CaseRow → Table → Result RevisionError Table
backfill_groups all_cases seen [] rows = ok rows
backfill_groups all_cases seen (c ∷ cs) rows =
    elim (any (same_lineage c) seen
      || not (nat_eq (count_if (in_lineage c.tenant_id c.recovery_fingerprint) rows) 0)) [
        | true ↦ backfill_groups all_cases (c ∷ seen) cs rows
        | false ↦ elim (nat_eq (count_if (same_lineage c) all_cases) 1) [
          | false ↦ err ambiguous
          | true ↦
              elim (validated (initial c.tenant_id c.recovery_fingerprint c.finding_id) >>= λ item.
              register_row item rows) [
                | err e ↦ err e
                | ok (item, rows') ↦ backfill_groups all_cases (c ∷ seen) cs rows'
              ]
        ]
      ]

unfoldable pub backfill : List CaseRow → Table → Result RevisionError Table
unfolding backfill_groups
backfill cases rows =
    let all_cases = sort_by by_lineage cases in backfill_groups all_cases [] all_cases rows

-- ===== src/Claims/Revisions/Termination.antt =====
-- The walk down a lineage ends, whatever the table holds.
use obrasignal.Base.{
  ◌≡◌, ℕ, zero, suc, ◌-◌, ◌≤◌, ◌<◌, String, List, ◌∷◌, arith, inl, inr, Bool-cases, ltb, ◌≢◌,
}
use obrasignal.Base.Result.{ok, err, Result-cases}
use obrasignal.Claims.Revisions.{
  Revision, Table, predecessor_of, walk, validated, validated_supersedes, out_of_fuel,
}

predecessor_of-revision :
    (rows : Table) (original : String) (visited : List String) (r : Revision) {p : Revision}
    → predecessor_of rows original visited r ≡ ok p
    → p.revision ≡ r.revision - 1
unfolding predecessor_of
predecessor_of-revision rows original visited r {p} h = ground arith

predecessor_of-fuel :
    (rows : Table) (original : String) (visited : List String) (r : Revision)
    → predecessor_of rows original visited r ≢ err out_of_fuel
unfolding predecessor_of validated validated_supersedes
predecessor_of-fuel rows original visited r h = ground arith

-- On any table, with any ids visited and any record, the walk with a fuel that is not below the number
-- of the record does not run out of fuel, and more fuel gives the same result.
pub walk-terminates :
    (rows : Table) (original : String) (fuel more : ℕ) (visited : List String) (r : Revision)
    → r.revision ≤ fuel
    → 0 < fuel
    → fuel ≤ more
    → (walk fuel rows original visited r ≢ err out_of_fuel)
      × (walk more rows original visited r ≡ walk fuel rows original visited r)
unfolding walk
walk-terminates rows original zero more visited r enough some le = absurd (omega (arith, some))
walk-terminates rows original (suc fuel) zero visited r enough some le = absurd (omega (arith, le))
walk-terminates rows original (suc fuel) (suc more) visited r enough some le =
    elim (Bool-cases (ltb 1 r.revision)) [
      | inr e ↦ ground (arith, e)
      | inl e ↦ elim (Result-cases (predecessor_of rows original visited r)) [
        | inr (x, f) ↦ ground (arith, e, f, predecessor_of-fuel rows original visited r)
        | inl (p, f) ↦
            let down = predecessor_of-revision rows original visited r f in
            ground (
              arith,
              e,
              f,
              down,
              walk-terminates rows original fuel more (p.finding_id ∷ visited) p
                  (ground (arith, e, down)) (ground (arith, e)) (omega (arith, le)),
            )
      ]
    ]

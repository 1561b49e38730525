-- ===== src/Claims/Recovery/Histories.antt =====
-- The history of a finding in the table of reconciliations, and what an append does to it.
use mathlib.Core.Path.{subst}
use obrasignal.Base.{
  ◌≡◌, refl, ℕ, suc, ◌+◌, ◌≤◌, String, true, false, Option, none, some, List, [], ◌∷◌, ◌++◌, arith,
  inl, inr, ◌⊎◌, Bool-cases, length, select, ltb, select-append_one, select-append_other,
}
use obrasignal.Base.Text.{eq_iff, present}
use obrasignal.Claims.Recovery.{Snapshot, is_empty}
use obrasignal.Claims.Recovery.Store.{Reconciliation, is_of, newest, decreased}

-- No material amount falls.
pub record Grows (p s : Snapshot) : Type 0 where
  pub net : p.net_documented_exposure ≤ s.net_documented_exposure
  pub supported : p.evidence_supported ≤ s.evidence_supported
  pub claimed : p.claimed ≤ s.claimed
  pub approved : p.approved ≤ s.approved
  pub settled : p.settled ≤ s.settled

abbrev pub Explained : Option Reconciliation → Reconciliation → Type 0
Explained none r = Unit
Explained (some p) r = Grows p.snapshot r.snapshot ⊎ (present r.reversal_reason ≡ true)

-- Rows that are numbered from `suc n` on, in order, each of which grows or gives a reason.
abbrev IsHistory : ℕ → Option Reconciliation → List Reconciliation → Type 0
IsHistory n previous [] = Unit
IsHistory n previous (r ∷ rs) =
    (r.sequence ≡ suc n) × Explained previous r × IsHistory (suc n) (some r) rs

abbrev pub IsRecorded : List Reconciliation → Type 0
IsRecorded rows = (t f : String) → IsHistory 0 none (select (is_of t f) rows)

abbrev last_of : Option Reconciliation → List Reconciliation → Option Reconciliation
last_of previous [] = previous
last_of previous (r ∷ rs) = last_of (some r) rs

pub decreased-Grows : (p s : Snapshot) → is_empty (decreased p s) ≡ true → Grows p s
unfolding decreased
decreased-Grows p s h = record {
  net = ground (arith, h);
  supported = ground (arith, h);
  claimed = ground (arith, h);
  approved = ground (arith, h);
  settled = ground (arith, h);
}

newest-IsHistory :
    (n : ℕ) (previous : Option Reconciliation) (r : Reconciliation) (rs : List Reconciliation)
    → IsHistory n previous (r ∷ rs)
    → (p : Reconciliation) × (newest (r ∷ rs) ≡ some p)
      × (last_of previous (r ∷ rs) ≡ some p)
      × (p.sequence ≡ n + suc (length rs))
newest-IsHistory n previous r [] (number, explained, rest) = (r, refl, refl, omega (arith, number))
newest-IsHistory n previous r (q ∷ qs) (number, explained, rest) =
    let (p, found, last, count) = newest-IsHistory (suc n) (some r) q qs rest in
    let later : ltb p.sequence r.sequence ≡ false = ground (arith, number, count) in
    (p, rw (found, later) refl, last, omega (arith, count))

IsHistory-append :
    (n : ℕ) (previous : Option Reconciliation) (rs : List Reconciliation) (r : Reconciliation)
    → IsHistory n previous rs
    → r.sequence ≡ suc (n + length rs)
    → Explained (last_of previous rs) r
    → IsHistory n previous (rs ++ r ∷ [])
IsHistory-append n previous [] r history number explained = (omega (arith, number), explained, tt)
IsHistory-append n previous (q ∷ rs) r (first, why, rest) number explained =
    (first, why, IsHistory-append (suc n) (some q) rs r rest (omega (arith, number)) explained)

-- A row that is numbered after the newest row of its finding, and explained against it.
abbrev pub Next : Option Reconciliation → Reconciliation → Type 0
Next previous r =
    Explained previous r × (r.sequence ≡ elim previous [ none ↦ 1 | some p ↦ p.sequence + 1 ])

abbrev pub Follows : List Reconciliation → Reconciliation → Type 0
Follows rows r = Next (newest (select (is_of r.tenant_id r.finding_id) rows)) r

IsHistory-Follows :
    (rs : List Reconciliation) (r : Reconciliation)
    → IsHistory 0 none rs
    → Explained (newest rs) r
    → r.sequence ≡ elim (newest rs) [ none ↦ 1 | some p ↦ p.sequence + 1 ]
    → IsHistory 0 none (rs ++ r ∷ [])
IsHistory-Follows [] r history explained number = (number, tt, tt)
IsHistory-Follows (q ∷ qs) r history explained number =
    let (p, found, last, count) = newest-IsHistory 0 none q qs history in
    IsHistory-append 0 none (q ∷ qs) r history (ground (arith, found, number, count))
      (rw (last) (subst (λ o. Explained o r) found explained))

pub Follows-IsRecorded :
    (rows : List Reconciliation) (r : Reconciliation)
    → IsRecorded rows
    → Follows rows r
    → IsRecorded (rows ++ r ∷ [])
Follows-IsRecorded rows r recorded (explained, number) t f = elim (Bool-cases (is_of t f r)) [
  | inr e ↦ rw (select-append_other (is_of t f) rows r e) (recorded t f)
  | inl e ↦
      let mine =
        IsHistory-Follows (select (is_of r.tenant_id r.finding_id) rows) r
          (recorded r.tenant_id r.finding_id) explained number in
      let same_t : r.tenant_id ≡ t = (eq_iff r.tenant_id t).0 (ground (arith, e)) in
      let same_f : r.finding_id ≡ f = (eq_iff r.finding_id f).0 (ground (arith, e)) in
      rw (select-append_one (is_of t f) rows r e) (
        subst (λ x. IsHistory 0 none (select (is_of x f) rows ++ r ∷ [])) same_t
          (subst (λ y. IsHistory 0 none (select (is_of r.tenant_id y) rows ++ r ∷ [])) same_f mine))
]

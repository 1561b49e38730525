-- ===== src/Claims/Revisions.antt =====
-- vertical_apps/industrial_claims/revision_store.py: the table industrial_claim_revisions. Each call
-- is one transaction; a call that raises leaves the table.
pub mod Backfill
pub mod Chains
pub mod Histories
pub mod Refinement
pub mod Registration
pub mod Termination
pub mod Tests
use obrasignal.Base.{
  ℕ, zero, suc, ◌+◌, ◌-◌, String, Bool, true, false, not, ◌&&◌, ◌||◌, Option, none, some, List, [],
  ◌∷◌, ◌++◌, find?, select, update, count_if, length, ltb, if◌then◌else◌, ◌==◌ as nat_eq,
}
use obrasignal.Base.Text.{◌==◌, opt_eq, member}
use obrasignal.Base.Result.{Result, ok, err, ◌>>=◌, ◌>>◌, raise_if}
use obrasignal.Claims.Fields.{required, tenant_of}

pub record Revision : Type 0 where
  pub finding_id : String
  pub tenant_id : String
  pub recovery_fingerprint : String
  pub revision : ℕ
  pub supersedes_finding_id : Option String
  pub is_current : Bool

pub data RevisionError : Type 0 where
  invalid_tenant invalid_finding invalid_fingerprint invalid_number : RevisionError
  supersedes_itself initial_supersedes predecessor_required : RevisionError
  predecessor_missing lineage_cycle fingerprint_inconsistent chronology_invalid : RevisionError
  predecessor_current invalid_initial collision already_current same_finding : RevisionError
  not_found not_current_target already_exists superseded not_one_current ambiguous : RevisionError
  constraint out_of_fuel : RevisionError

abbrev pub Table : Type 0
Table = List Revision

abbrev or_raise : {A : Type 0} → Option A → RevisionError → Result RevisionError A
or_raise none e = err e
or_raise (some a) e = ok a

abbrev pub tenant : String → Result RevisionError String
tenant t = or_raise (tenant_of t) invalid_tenant

-- `_required` of a finding id and of a fingerprint, with MAX_FINDING_ID_CHARS and
-- MAX_FINGERPRINT_CHARS.
abbrev pub finding : String → Result RevisionError String
finding f = or_raise (required 2048 f) invalid_finding

abbrev pub fingerprint : String → Result RevisionError String
fingerprint f = or_raise (required 256 f) invalid_fingerprint

unfoldable pub validated_supersedes : String → Option String → Result RevisionError (Option String)
validated_supersedes id none = ok none
validated_supersedes id (some raw) = do
  s ← finding raw
  raise_if (s == id) supersedes_itself
  ok (some s)

abbrev is_none : Option String → Bool
is_none none = true
is_none (some s) = false

-- `_validated`
unfoldable pub validated : Revision → Result RevisionError Revision
unfolding validated_supersedes
validated r = do
  t ← tenant r.tenant_id
  f ← finding r.finding_id
  p ← fingerprint r.recovery_fingerprint
  raise_if (ltb r.revision 1) invalid_number
  s ← validated_supersedes f r.supersedes_finding_id
  raise_if (nat_eq r.revision 1 && not (is_none s)) initial_supersedes
  raise_if (ltb 1 r.revision && is_none s) predecessor_required
  ok (record {
    finding_id = f;
    tenant_id = t;
    recovery_fingerprint = p;
    revision = r.revision;
    supersedes_finding_id = s;
    is_current = r.is_current;
  })

abbrev pub has_id : String → Revision → Bool
has_id id r = r.finding_id == id

abbrev pub is_of : (tenant_id finding_id : String) → Revision → Bool
is_of t id r = r.tenant_id == t && r.finding_id == id

abbrev pub in_lineage : (tenant_id fingerprint : String) → Revision → Bool
in_lineage t p r = r.tenant_id == t && r.recovery_fingerprint == p

abbrev pub is_current_of : (tenant_id fingerprint : String) → Revision → Bool
is_current_of t p r = in_lineage t p r && r.is_current

-- The checks of one round of the loop of `_validate_lineage`, on the row of the predecessor.
unfoldable pub predecessor_of :
    Table → (original : String) (visited : List String) → Revision → Result RevisionError Revision
predecessor_of rows original visited r = do
  id ← or_raise r.supersedes_finding_id predecessor_missing
  row ← or_raise (find? (is_of r.tenant_id id) rows) predecessor_missing
  p ← validated row
  raise_if (member p.finding_id visited) lineage_cycle
  raise_if (not (p.recovery_fingerprint == original)) fingerprint_inconsistent
  raise_if (not (nat_eq p.revision (r.revision - 1))) chronology_invalid
  raise_if p.is_current predecessor_current
  ok p

-- The loop of `_validate_lineage`; `original` is the fingerprint of its first record.
unfoldable pub walk :
    (fuel : ℕ)
    → Table
    → (original : String) (visited : List String) → Revision
    → Result RevisionError (Unit {0})
walk zero rows original visited r = err out_of_fuel
walk (suc fuel) rows original visited r = elim (ltb 1 r.revision) [
  | false ↦ ok tt
  | true ↦ elim (predecessor_of rows original visited r) [
    | err e ↦ err e
    | ok p ↦ walk fuel rows original (p.finding_id ∷ visited) p
  ]
]

-- `_validate_lineage`: each round goes one revision down, so as many rounds as revisions are enough.
unfoldable pub validate_lineage : Table → Revision → Result RevisionError Revision
unfolding walk
validate_lineage rows item = do
  r ← validated item
  walk (suc r.revision) rows r.recovery_fingerprint (r.finding_id ∷ []) r
  ok r

abbrev pub same_number : Revision → Revision → Bool
same_number r q = in_lineage r.tenant_id r.recovery_fingerprint q && nat_eq q.revision r.revision

-- An INSERT under the primary key, the unique number and the one current row of a lineage.
unfoldable pub insert : Revision → Table → Result RevisionError Table
insert r rows =
    if not (nat_eq (count_if (has_id r.finding_id) rows) 0)
      || not (nat_eq (count_if (same_number r) rows) 0)
      || r.is_current
        && not (nat_eq (count_if (is_current_of r.tenant_id r.recovery_fingerprint) rows) 0)
    then err constraint
    else ok (rows ++ r ∷ [])

abbrev revision_eq : Revision → Revision → Bool
revision_eq a b =
    a.finding_id == b.finding_id
    && a.tenant_id == b.tenant_id
    && a.recovery_fingerprint == b.recovery_fingerprint
    && nat_eq a.revision b.revision
    && opt_eq a.supersedes_finding_id b.supersedes_finding_id
    && (if a.is_current then b.is_current else not b.is_current)

abbrev pub initial : (tenant_id fingerprint finding_id : String) → Revision
initial t p id = record {
  finding_id = id;
  tenant_id = t;
  recovery_fingerprint = p;
  revision = 1;
  supersedes_finding_id = none;
  is_current = true;
}

-- `_register_initial`
unfoldable pub register_row : Revision → Table → Result RevisionError (Revision × Table)
unfolding insert
register_row item rows = elim (find? (has_id item.finding_id) rows) [
  | some row ↦ do
    current ← validated row
    raise_if (not (revision_eq current item)) collision
    ok (current, rows)
  | none ↦ elim (find? (is_current_of item.tenant_id item.recovery_fingerprint) rows) [
    | some row ↦ err already_current
    | none ↦
        (insert (initial item.tenant_id item.recovery_fingerprint item.finding_id) rows >>= λ rows'.
        ok (item, rows'))
  ]
]

unfoldable pub register_initial : Revision → Table → Result RevisionError (Revision × Table)
register_initial item rows = do
  r ← validated item
  raise_if (not (nat_eq r.revision 1) || not (is_none r.supersedes_finding_id) || not r.is_current)
      invalid_initial
  register_row r rows

abbrev pub retired : Revision → Revision
retired r = record r { is_current = false }

abbrev next_of : Revision → (id : String) → Revision
next_of r id = record {
  finding_id = id;
  tenant_id = r.tenant_id;
  recovery_fingerprint = r.recovery_fingerprint;
  revision = r.revision + 1;
  supersedes_finding_id = some r.finding_id;
  is_current = true;
}

-- `_supersede`
unfoldable pub supersede_rows :
    (t p current_key new_key : String) → Table → Result RevisionError (Revision × Table)
unfolding insert
supersede_rows t p current_key new_key rows = do
  row ← or_raise (find? (is_current_of t p) rows) not_found
  current ← validate_lineage rows row
  raise_if (not (current.finding_id == current_key)) not_current_target
  raise_if (not (nat_eq (count_if (has_id new_key) rows) 0)) already_exists
  rows' ←
      insert
        (record (next_of current new_key) {
          tenant_id = t;
          recovery_fingerprint = p;
          supersedes_finding_id = some current_key;
        })
        (update (has_id current_key) retired rows)
  ok (
    record (next_of current new_key) {
      tenant_id = t;
      recovery_fingerprint = p;
      supersedes_finding_id = some current_key;
    },
    rows',
  )

unfoldable pub supersede :
    (tenant_id recovery_fingerprint current_finding_id new_finding_id : String)
    → Table
    → Result RevisionError (Revision × Table)
supersede tenant_id recovery_fingerprint current_finding_id new_finding_id rows = do
  t ← tenant tenant_id
  p ← fingerprint recovery_fingerprint
  current_key ← finding current_finding_id
  new_key ← finding new_finding_id
  raise_if (current_key == new_key) same_finding
  supersede_rows t p current_key new_key rows

unfoldable pub get : (tenant_id finding_id : String) → Table → Result RevisionError Revision
get tenant_id finding_id rows = do
  t ← tenant tenant_id
  f ← finding finding_id
  row ← or_raise (find? (is_of t f) rows) not_found
  validate_lineage rows row

unfoldable pub require_current :
    (tenant_id finding_id : String) → Table → Result RevisionError Revision
unfolding get
require_current tenant_id finding_id rows = do
  r ← get tenant_id finding_id rows
  raise_if (not r.is_current) superseded
  ok r

abbrev one_row : List Revision → Result RevisionError Revision
one_row (r ∷ []) = ok r
one_row _ = err not_one_current

unfoldable pub current_for_fingerprint :
    (tenant_id recovery_fingerprint : String) → Table → Result RevisionError Revision
current_for_fingerprint tenant_id recovery_fingerprint rows = do
  t ← tenant tenant_id
  p ← fingerprint recovery_fingerprint
  row ← one_row (select (is_current_of t p) rows)
  validate_lineage rows row

-- `count`
unfoldable count_of : (tenant_id : String) → Table → Result RevisionError ℕ
count_of tenant_id rows = do t ← tenant tenant_id; ok (count_if (λ r. r.tenant_id == t) rows)

-- ===== src/Claims/Recovery/Store.antt =====
-- vertical_apps/industrial_claims/recovery_reconciliation_store.py: the table
-- industrial_recovery_reconciliations, with each snapshot as it was decoded. Each call is one
-- transaction.
use Prim.Native.String
use obrasignal.Base.{
  ℕ, ◌+◌, String, Bool, true, false, not, ◌&&◌, ◌||◌, Option, none, some, List, [], ◌∷◌, ◌++◌, any,
  find?, select, sort_by, ltb, leb, if◌then◌else◌, ◌==◌ as nat_eq,
}
use obrasignal.Base.Text.{◌==◌, nonempty, opt_eq, present, or_none, strip}
use obrasignal.Base.Result.{Result, ok, err, ◌>>=◌, ◌>>◌, raise_if}
use obrasignal.Claims.Fields.{any_char, is_forbidden}
use obrasignal.Claims.Recovery.{Snapshot, is_empty}

pub record Reconciliation : Type 0 where
  pub tenant_id : String
  pub finding_id : String
  pub sequence : ℕ
  pub reconciliation_hash : String
  pub snapshot : Snapshot
  pub actor_id : String
  pub evidence_ref : String
  pub reversal_reason : Option String
  pub created_at : String

pub data StoreError : Type 0 where
  is_required exceeds forbidden_controls : (label : String) → StoreError
  replay_differs constraint : StoreError
  decrease_needs_reason : (decreased : List String) → StoreError

-- `_text`
unfoldable pub checked_text :
    (value label : String) (max_chars : ℕ) (required : Bool) → Result StoreError String
checked_text value label max_chars required =
    let text = strip value in
    if required && not (nonempty text)
    then err (is_required label)
    else if ltb max_chars (String.count text)
    then err (exceeds label)
    else if any_char is_forbidden text
    then err (forbidden_controls label)
    else ok text

abbrev pub is_of : (tenant finding : String) → Reconciliation → Bool
is_of t f r = r.tenant_id == t && r.finding_id == f

-- `ORDER BY sequence DESC LIMIT 1`
abbrev pub newest : List Reconciliation → Option Reconciliation
newest [] = none
newest (r ∷ rs) = elim (newest rs) [
  | none ↦ some r
  | some s ↦ if ltb s.sequence r.sequence then some r else some s
]

abbrev fell : (before after : ℕ) (label : String) → List String
fell before after label = if ltb after before then label ∷ [] else []

-- `_decreased`, on the fields of `_DECREASE_FIELDS`.
unfoldable pub decreased : (previous current : Snapshot) → List String
decreased p s =
    fell p.net_documented_exposure s.net_documented_exposure "net_documented_exposure"
    ++ fell p.evidence_supported s.evidence_supported "evidence_supported"
    ++ fell p.claimed s.claimed "claimed"
    ++ fell p.approved s.approved "approved"
    ++ fell p.settled s.settled "settled"

-- An INSERT under the primary key and the unique hash.
unfoldable pub insert_row :
    Reconciliation → List Reconciliation → Result StoreError (Reconciliation × List Reconciliation)
insert_row r rows =
    if any
      (λ q.
        is_of r.tenant_id r.finding_id q
        && (nat_eq q.sequence r.sequence || q.reconciliation_hash == r.reconciliation_hash))
      rows
    then err constraint
    else ok (r, rows ++ r ∷ [])

abbrev pub has_hash : (tenant finding hash : String) → Reconciliation → Bool
has_hash t f h r = is_of t f r && r.reconciliation_hash == h

-- The transaction of `append`, after the checks of its texts.
unfoldable pub append_row :
    (tenant finding : String)
    → Snapshot
    → (actor evidence : String) (reason : Option String) (now : String) → List Reconciliation
    → Result StoreError (Reconciliation × List Reconciliation)
unfolding insert_row decreased
append_row t f s actor evidence reason now rows =
    elim (find? (has_hash t f s.reconciliation_hash) rows) [
      | some existing ↦ do
        raise_if
            (not (existing.actor_id == actor)
              || not (existing.evidence_ref == evidence)
              || not (opt_eq existing.reversal_reason reason))
            replay_differs
        ok (existing, rows)
      | none ↦
          let row : ℕ → Reconciliation = (λ n. record {
            tenant_id = t;
            finding_id = f;
            sequence = n;
            reconciliation_hash = s.reconciliation_hash;
            snapshot = s;
            actor_id = actor;
            evidence_ref = evidence;
            reversal_reason = reason;
            created_at = now;
          }) in
          elim (newest (select (is_of t f) rows)) [
            | none ↦ insert_row (row 1) rows
            | some previous ↦ do
              raise_if (not (is_empty (decreased previous.snapshot s)) && not (present reason))
                  (decrease_needs_reason (decreased previous.snapshot s))
              insert_row (row (previous.sequence + 1)) rows
          ]
    ]

unfoldable pub append :
    (tenant_id finding_id : String)
    → Snapshot
    → (actor_id evidence_ref reversal_reason now : String) → List Reconciliation
    → Result StoreError (Reconciliation × List Reconciliation)
unfolding checked_text append_row
append tenant_id finding_id s actor_id evidence_ref reversal_reason now rows = do
  t ← checked_text tenant_id "tenant_id" 64 true
  f ← checked_text finding_id "finding_id" 2048 true
  actor ← checked_text actor_id "actor_id" 256 true
  evidence ← checked_text evidence_ref "evidence_ref" 2048 true
  reason ← checked_text reversal_reason "reversal_reason" 4000 false
  append_row t f s actor evidence (or_none reason) now rows

unfoldable pub latest :
    (tenant_id finding_id : String)
    → List Reconciliation
    → Result StoreError (Option Reconciliation)
unfolding checked_text
latest tenant_id finding_id rows = do
  t ← checked_text tenant_id "tenant_id" 64 true
  f ← checked_text finding_id "finding_id" 2048 true
  ok (newest (select (is_of t f) rows))

unfoldable pub history :
    (tenant_id finding_id : String) → List Reconciliation → Result StoreError (List Reconciliation)
unfolding checked_text
history tenant_id finding_id rows = do
  t ← checked_text tenant_id "tenant_id" 64 true
  f ← checked_text finding_id "finding_id" 2048 true
  ok (sort_by (λ a b. leb a.sequence b.sequence) (select (is_of t f) rows))

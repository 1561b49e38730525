-- ===== src/Claims/Recovery/Appends.antt =====
-- What an accepted append leaves in the table of reconciliations, and what a second one does.
use mathlib.Core.Path.{subst}
use obrasignal.Base.{
  ◌≡◌, refl, sym, String, true, false, Option, none, some, List, [], ◌∷◌, ◌++◌, arith, inl, inr,
  ◌⊎◌, Bool-cases, Option-cases, select, find?, find?-append_miss,
}
use obrasignal.Base.Text.{eq_iff, eq_refl, opt_eq→≡, opt_eq_refl, or_none}
use obrasignal.Base.Result.{err, ok, >>=-returns, Result-cases}
use obrasignal.Claims.Recovery.{Snapshot, is_empty}
use obrasignal.Claims.Recovery.Store.{
  Reconciliation, is_of, has_hash, newest, decreased, insert_row, append_row, append, checked_text,
}
use obrasignal.Claims.Recovery.Histories.{
  Explained, IsRecorded, Next, Follows, decreased-Grows, Follows-IsRecorded,
}

-- What an accepted call leaves: the table as it was, with a row of the same hash, or one row more, with
-- the given fields.
record IsAppended (t f : String) (s : Snapshot) (actor evidence : String) (reason : Option String)
    (rows : List Reconciliation) (r : Reconciliation) (rows' : List Reconciliation) : Type 0 where
  pub found : find? (has_hash t f s.reconciliation_hash) rows' ≡ some r
  pub actor_is : r.actor_id ≡ actor
  pub evidence_is : r.evidence_ref ≡ evidence
  pub reason_is : r.reversal_reason ≡ reason
  pub table : (rows' ≡ rows) ⊎ ((rows' ≡ rows ++ r ∷ []) × Follows rows r)

append_row-replayed :
    (t f : String) (s : Snapshot) (actor evidence : String) (reason : Option String) (now : String)
    (rows : List Reconciliation) (r : Reconciliation) (rows' : List Reconciliation)
    (existing : Reconciliation)
    → find? (has_hash t f s.reconciliation_hash) rows ≡ some existing
    → append_row t f s actor evidence reason now rows ≡ ok (r, rows')
    → IsAppended t f s actor evidence reason rows r rows'
unfolding append_row
append_row-replayed t f s actor evidence reason now rows r rows' existing e h =
    let same : existing ≡ r = ground (arith, e, h) in
    let kept : rows ≡ rows' = ground (arith, e, h) in
    record {
      found = rw (← kept, ← same) e;
      actor_is = (eq_iff r.actor_id actor).0 (ground (arith, e, h, same));
      evidence_is = (eq_iff r.evidence_ref evidence).0 (ground (arith, e, h, same));
      reason_is = opt_eq→≡ r.reversal_reason reason (ground (arith, e, h, same));
      table = inl (sym kept);
    }

append_row-Next :
    (t f : String) (s : Snapshot) (actor evidence : String) (reason : Option String) (now : String)
    (rows : List Reconciliation) (r : Reconciliation) (rows' : List Reconciliation)
    → find? (has_hash t f s.reconciliation_hash) rows ≡ none
    → append_row t f s actor evidence reason now rows ≡ ok (r, rows')
    → Next (newest (select (is_of t f) rows)) r
unfolding append_row insert_row
append_row-Next t f s actor evidence reason now rows r rows' e h =
    elim (Option-cases (newest (select (is_of t f) rows))) [
      | inl none_yet ↦ rw (none_yet) (tt, ground (arith, e, h, none_yet))
      | inr (p, last) ↦
          let given : r.snapshot ≡ s = ground (arith, e, h, last) in
          let why : r.reversal_reason ≡ reason = ground (arith, e, h, last) in
          let explained : Explained (some p) r =
            elim (Bool-cases (is_empty (decreased p.snapshot s))) [
              | inl grown ↦ inl (rw (given) (decreased-Grows p.snapshot s grown))
              | inr fallen ↦ inr (rw (why) (ground (arith, e, h, last, fallen)))
            ] in
          rw (last) (explained, ground (arith, e, h, last))
    ]

append_row-new :
    (t f : String) (s : Snapshot) (actor evidence : String) (reason : Option String) (now : String)
    (rows : List Reconciliation) (r : Reconciliation) (rows' : List Reconciliation)
    → find? (has_hash t f s.reconciliation_hash) rows ≡ none
    → append_row t f s actor evidence reason now rows ≡ ok (r, rows')
    → IsAppended t f s actor evidence reason rows r rows'
unfolding append_row insert_row
append_row-new t f s actor evidence reason now rows r rows' e h =
    let tenant : r.tenant_id ≡ t = ground (arith, e, h) in
    let finding : r.finding_id ≡ f = ground (arith, e, h) in
    let hash : r.reconciliation_hash ≡ s.reconciliation_hash = ground (arith, e, h) in
    let appended : rows' ≡ rows ++ r ∷ [] = ground (arith, e, h) in
    let same : newest (select (is_of t f) rows)
        ≡ newest (select (is_of r.tenant_id r.finding_id) rows) =
      rw (tenant, finding) refl in
    record {
      found = rw (appended) (
          find?-append_miss (has_hash t f s.reconciliation_hash) rows r e
            (rw (tenant, finding, hash, eq_refl t, eq_refl f, eq_refl s.reconciliation_hash) refl));
      actor_is = ground (arith, e, h);
      evidence_is = ground (arith, e, h);
      reason_is = ground (arith, e, h);
      table = inr (
        appended,
        subst (λ o. Next o r) same
            (append_row-Next t f s actor evidence reason now rows r rows' e h),
      );
    }

append_row-IsAppended :
    (t f : String) (s : Snapshot) (actor evidence : String) (reason : Option String) (now : String)
    (rows : List Reconciliation) (r : Reconciliation) (rows' : List Reconciliation)
    → append_row t f s actor evidence reason now rows ≡ ok (r, rows')
    → IsAppended t f s actor evidence reason rows r rows'
append_row-IsAppended t f s actor evidence reason now rows r rows' h =
    elim (Option-cases (find? (has_hash t f s.reconciliation_hash) rows)) [
      | inl e ↦ append_row-new t f s actor evidence reason now rows r rows' e h
      | inr (existing, e) ↦
          append_row-replayed t f s actor evidence reason now rows r rows' existing e h
    ]

-- A call of `append` is one of `append_row` on the texts that pass its checks.
record IsCall (tenant finding : String) (s : Snapshot) (actor evidence reason now : String)
    (rows : List Reconciliation) (r : Reconciliation) (rows' : List Reconciliation) : Type 0 where
  pub t : String
  pub f : String
  pub a : String
  pub e : String
  pub w : String
  pub is_t : checked_text tenant "tenant_id" 64 true ≡ ok t
  pub is_f : checked_text finding "finding_id" 2048 true ≡ ok f
  pub is_a : checked_text actor "actor_id" 256 true ≡ ok a
  pub is_e : checked_text evidence "evidence_ref" 2048 true ≡ ok e
  pub is_w : checked_text reason "reversal_reason" 4000 false ≡ ok w
  pub result : append_row t f s a e (or_none w) now rows ≡ ok (r, rows')

append-IsCall :
    (tenant finding : String) (s : Snapshot) (actor evidence reason now : String)
    (rows : List Reconciliation) (r : Reconciliation) (rows' : List Reconciliation)
    → append tenant finding s actor evidence reason now rows ≡ ok (r, rows')
    → IsCall tenant finding s actor evidence reason now rows r rows'
unfolding append
append-IsCall tenant finding s actor evidence reason now rows r rows' h =
    let (t, is_t, h₁) = >>=-returns (checked_text tenant "tenant_id" 64 true) _ h in
    let (f, is_f, h₂) = >>=-returns (checked_text finding "finding_id" 2048 true) _ h₁ in
    let (a, is_a, h₃) = >>=-returns (checked_text actor "actor_id" 256 true) _ h₂ in
    let (e, is_e, h₄) = >>=-returns (checked_text evidence "evidence_ref" 2048 true) _ h₃ in
    let (w, is_w, h₅) = >>=-returns (checked_text reason "reversal_reason" 4000 false) _ h₄ in
    record {
      t = t;
      f = f;
      a = a;
      e = e;
      w = w;
      is_t = is_t;
      is_f = is_f;
      is_a = is_a;
      is_e = is_e;
      is_w = is_w;
      result = h₅;
    }

append-IsRecorded :
    (tenant finding : String) (s : Snapshot) (actor evidence reason now : String)
    (rows : List Reconciliation) (r : Reconciliation) (rows' : List Reconciliation)
    → append tenant finding s actor evidence reason now rows ≡ ok (r, rows')
    → IsRecorded rows
    → IsRecorded rows'
append-IsRecorded tenant finding s actor evidence reason now rows r rows' h recorded =
    let c = append-IsCall tenant finding s actor evidence reason now rows r rows' h in
    let appended =
      append_row-IsAppended c.t c.f s c.a c.e (or_none c.w) now rows r rows' c.result in
    elim (appended.table) [
      | inl kept ↦ subst IsRecorded (sym kept) recorded
      | inr (grown, follows) ↦
          subst IsRecorded (sym grown) (Follows-IsRecorded rows r recorded follows)
    ]

-- The arguments of a call of `append`, and its time.
pub record Call : Type 0 where
  pub tenant : String
  pub finding : String
  pub snapshot : Snapshot
  pub actor : String
  pub evidence : String
  pub reason : String
  pub now : String

-- A call that raises leaves the table.
abbrev pub after : Call → List Reconciliation → List Reconciliation
after c rows = elim (append c.tenant c.finding c.snapshot c.actor c.evidence c.reason c.now rows) [
  | err e ↦ rows
  | ok (r, rows') ↦ rows'
]

abbrev pub append_all : List Call → List Reconciliation → List Reconciliation
append_all [] rows = rows
append_all (c ∷ calls) rows = append_all calls (after c rows)

after-IsRecorded :
    (c : Call) (rows : List Reconciliation) → IsRecorded rows → IsRecorded (after c rows)
after-IsRecorded c rows recorded =
    elim (Result-cases
      (append c.tenant c.finding c.snapshot c.actor c.evidence c.reason c.now rows)) [
        | inr (e, failed) ↦
            let kept : after c rows ≡ rows = rw (after, failed) refl in
            subst IsRecorded (sym kept) recorded
        | inl ((r, rows'), returned) ↦
            let moved : after c rows ≡ rows' = rw (after, returned) refl in
            subst IsRecorded (sym moved) (
              append-IsRecorded c.tenant c.finding c.snapshot c.actor c.evidence c.reason c.now rows
                r rows' returned recorded)
      ]

-- Any sequence of appends, accepted or not, keeps a table recorded: the rows of each finding are
-- numbered from one without a gap, in the order of the table, and each of them either keeps or raises
-- every material amount of the row before it or gives a reason.
pub append_all-IsRecorded :
    (calls : List Call) (rows : List Reconciliation)
    → IsRecorded rows
    → IsRecorded (append_all calls rows)
append_all-IsRecorded [] rows recorded = recorded
append_all-IsRecorded (c ∷ calls) rows recorded =
    append_all-IsRecorded calls (after c rows) (after-IsRecorded c rows recorded)

append_row-again :
    (t f : String) (s : Snapshot) (actor evidence : String) (reason : Option String)
    (later : String) (rows : List Reconciliation) (r : Reconciliation) (rows' : List Reconciliation)
    → IsAppended t f s actor evidence reason rows r rows'
    → append_row t f s actor evidence reason later rows' ≡ ok (r, rows')
unfolding append_row
append_row-again t f s actor evidence reason later rows r rows' a =
    rw
      (
        a.found,
        append_row,
        a.actor_is,
        a.evidence_is,
        a.reason_is,
        eq_refl actor,
        eq_refl evidence,
        opt_eq_refl reason,
      )
      refl

-- An accepted append that is sent again, at any later time, returns the row that it returned and
-- changes nothing.
pub append_idempotent :
    (tenant finding : String) (s : Snapshot) (actor evidence reason now later : String)
    (rows : List Reconciliation) (r : Reconciliation) (rows' : List Reconciliation)
    → append tenant finding s actor evidence reason now rows ≡ ok (r, rows')
    → append tenant finding s actor evidence reason later rows' ≡ ok (r, rows')
unfolding append
append_idempotent tenant finding s actor evidence reason now later rows r rows' h =
    let c = append-IsCall tenant finding s actor evidence reason now rows r rows' h in
    let appended =
      append_row-IsAppended c.t c.f s c.a c.e (or_none c.w) now rows r rows' c.result in
    let again = append_row-again c.t c.f s c.a c.e (or_none c.w) later rows r rows' appended in
    rw (c.is_t, c.is_f, c.is_a, c.is_e, c.is_w, again) refl

-- ===== src/Claims/Revisions/Tests.antt =====
-- A finding that is registered and amended, and the theorems on it.
use obrasignal.Base.{String, sort_by, insert_by, ◌≡◌, refl, ◌≢◌, true, false, [], ◌∷◌, arith}
use obrasignal.Base.Result.{ok, err}
use obrasignal.Base.Text.{strip, leb_text}
use obrasignal.Claims.Fields.{required, tenant_of, is_tenant_name, any_char}
use obrasignal.Claims.Revisions.{
  Table, not_current_target, predecessor_missing, out_of_fuel, tenant, finding, fingerprint,
  initial, validated, validated_supersedes, predecessor_of, walk, validate_lineage, insert,
  register_row, register_initial, supersede_rows, supersede, get, require_current,
  current_for_fingerprint, superseded, ambiguous,
}
use obrasignal.Claims.Cases.{CaseRow}
use obrasignal.Claims.Revisions.Backfill.{backfill, backfill_groups}
use obrasignal.Claims.Revisions.Chains.{row}
use obrasignal.Claims.Revisions.Histories.{Histories, push, Refines}
use obrasignal.Claims.Revisions.Refinement.{supersede-Refines, supersede-refuses}
use obrasignal.Claims.Revisions.Registration.{registered-Refines, register_initial-Refines}
use obrasignal.Claims.Revisions.Termination.{walk-terminates}

program : Unit {0}
unfolding strip required tenant_of is_tenant_name any_char validated validated_supersedes
    predecessor_of walk validate_lineage insert register_row register_initial supersede_rows
    supersede get require_current current_for_fingerprint
program = tt

abbrev no_history : Histories
no_history t p = []

nothing-Refines : Refines [] no_history
nothing-Refines t p = tt

valid_tenant : tenant "acme" ≡ ok "acme"
unfolding program
valid_tenant = refl

valid_fingerprint : fingerprint "fp" ≡ ok "fp"
unfolding program
valid_fingerprint = refl

valid_first : finding "f1" ≡ ok "f1"
unfolding program
valid_first = refl

valid_second : finding "f2" ≡ ok "f2"
unfolding program
valid_second = refl

valid_third : finding "f3" ≡ ok "f3"
unfolding program
valid_third = refl

abbrev one : Table
one = initial "acme" "fp" "f1" ∷ []

register_initial-Refines_example :
    (rows : Table) × (register_initial (initial "acme" "fp" "f1") []
      ≡ ok (initial "acme" "fp" "f1", rows))
    × Refines rows (push "acme" "fp" "f1" no_history)
register_initial-Refines_example =
    register_initial-Refines [] no_history "acme" "fp" "f1" nothing-Refines refl valid_tenant
      valid_fingerprint valid_first refl

one-Refines : Refines one (push "acme" "fp" "f1" no_history)
one-Refines =
    registered-Refines [] no_history "acme" "fp" "f1" nothing-Refines refl valid_first refl

supersede-Refines_example :
    (rows : Table) × (supersede "acme" "fp" "f1" "f2" one
      ≡ ok (row "acme" "fp" true "f2" ("f1" ∷ []), rows))
    × Refines rows (push "acme" "fp" "f2" (push "acme" "fp" "f1" no_history))
supersede-Refines_example =
    supersede-Refines one (push "acme" "fp" "f1" no_history) "acme" "fp" "f1" "f2" [] one-Refines
      refl valid_tenant valid_fingerprint valid_second refl

supersede-refuses_example : supersede "acme" "fp" "f2" "f3" one ≡ err not_current_target
supersede-refuses_example =
    supersede-refuses one (push "acme" "fp" "f1" no_history) "acme" "fp" "f1" "f2" "f3" []
      one-Refines refl valid_tenant valid_fingerprint valid_second valid_third refl refl

abbrev two : Table
two =
    record (initial "acme" "fp" "f1") { is_current = false }
    ∷ row "acme" "fp" true "f2" ("f1" ∷ [])
    ∷ []

amend_test : supersede "acme" "fp" "f1" "f2" one ≡ ok (row "acme" "fp" true "f2" ("f1" ∷ []), two)
unfolding program
amend_test = refl

old_test : require_current "acme" "f1" two ≡ err superseded
unfolding program
old_test = refl

current_test :
    current_for_fingerprint " acme " "fp" two ≡ ok (row "acme" "fp" true "f2" ("f1" ∷ []))
unfolding program
current_test = refl

lost_test : get "acme" "f2" (row "acme" "fp" true "f2" ("f1" ∷ []) ∷ []) ≡ err predecessor_missing
unfolding program
lost_test = refl

walk-terminates_example :
    (walk 2 two "fp" [] (row "acme" "fp" true "f2" ("f1" ∷ [])) ≢ err out_of_fuel)
    × (walk 9 two "fp" [] (row "acme" "fp" true "f2" ("f1" ∷ []))
        ≡ walk 2 two "fp" [] (row "acme" "fp" true "f2" ("f1" ∷ [])))
walk-terminates_example =
    walk-terminates two "fp" 2 9 [] (row "acme" "fp" true "f2" ("f1" ∷ [])) (omega arith)
      (omega arith) (omega arith)

abbrev old_case : String → CaseRow
old_case id = record {
  finding_id = id;
  tenant_id = "acme";
  claim_family = "DELAY";
  customer_ref = "customer";
  program_ref = "program";
  event_ref = "event";
  entitlement_id = "e1";
  deadline_id = "d1";
  recovery_fingerprint = "fp";
  notice_deadline_state = "UNKNOWN";
  missing_evidence_json = "[]";
}

backfill_test : backfill (old_case "f1" ∷ []) [] ≡ ok one
unfolding program backfill backfill_groups sort_by insert_by
backfill_test = refl

ambiguous_test : backfill (old_case "f2" ∷ old_case "f1" ∷ []) [] ≡ err ambiguous
unfolding program backfill backfill_groups sort_by insert_by leb_text
ambiguous_test = refl

kept_test : backfill (old_case "f2" ∷ old_case "f1" ∷ []) one ≡ ok one
unfolding program backfill backfill_groups sort_by insert_by leb_text
kept_test = refl

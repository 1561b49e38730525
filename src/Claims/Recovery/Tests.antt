-- ===== src/Claims/Recovery/Tests.antt =====
-- A ledger that is reconciled, stored, corrected and added up, and the theorems on it.

use obrasignal.Base.{
  ◌≡◌, refl, ℕ, ◌+◌, ◌-◌, ◌≤◌, ◌<◌, ◌↔◌, String, true, false, Option, none, some, List, [], ◌∷◌,
  All, length, sort_by, insert_by, arith,
}
use obrasignal.Base.Int.{ℤ, pos}
use obrasignal.Base.Json.{Json}
use obrasignal.Base.Text.{strip, ◌==◌, member, leb_text}
use obrasignal.Base.Result.{ok, err}
use obrasignal.Claims.Fields.{any_char}
use obrasignal.Claims.Recovery.{
  Snapshot, amount, currency_of, signals_of, snapshot_of, reconcile_recovery_ledger,
  settled_exceeds,
}
use obrasignal.Claims.Recovery.Store.{
  Reconciliation, checked_text, decreased, insert_row, append_row, append, latest, history,
  decrease_needs_reason, replay_differs,
}
use obrasignal.Claims.Recovery.Portfolio.{
  Amounts, Rollup, count_signal, count_signals, add_record, add_records, rollup_recovery_portfolio,
  cross_currency,
}
use obrasignal.Claims.Recovery.Balance.{
  limit, IsBalanced, reconcile_recovery_ledger-IsBalanced, reconcile_recovery_ledger-returns_iff,
}
use obrasignal.Claims.Recovery.Histories.{IsRecorded}
use obrasignal.Claims.Recovery.Appends.{Call, append_all, append_all-IsRecorded, append_idempotent}
use obrasignal.Claims.Recovery.Totals.{
  unsupported_exposure, total_of, sum_of, IsOf, rollup_recovery_portfolio-totals,
}

program : Unit {0}
unfolding sort_by insert_by strip leb_text any_char amount currency_of signals_of snapshot_of
    reconcile_recovery_ledger checked_text decreased insert_row append_row append latest history
    count_signal count_signals add_record add_records rollup_recovery_portfolio
program = tt

abbrev number : String → Option ℤ
number s = elim (s == "100") [
  | true ↦ some (pos 100)
  | false ↦ elim (s == "80") [
    | true ↦ some (pos 80)
    | false ↦ elim (s == "0") [ true ↦ some (pos 0) | false ↦ none ]
  ]
]

abbrev same : String → String
same s = s

abbrev digest : Json → String
digest j = "h"

abbrev digits : ℕ → String
digits n = "n"

-- Sums and differences that need no rounding.
abbrev minus : ℕ → ℕ → ℕ
minus a b = a - b

abbrev plus : ℕ → ℕ → ℕ
plus a b = a + b

minus-exact : (a b : ℕ) → b ≤ a → a - b < limit → minus a b ≡ a - b
minus-exact a b le small = refl

plus-exact : (a b : ℕ) → a + b < limit → plus a b ≡ a + b
plus-exact a b small = refl

abbrev settled_ledger : Snapshot
settled_ledger = snapshot_of minus digest digits 100 0 80 80 80 80 "EUR"

reconciled :
    reconcile_recovery_ledger minus number same digest digits "100" "0" "80" "80" "80" "80" "EUR"
    ≡ ok settled_ledger
unfolding program
reconciled = refl

small_ledger : settled_ledger.documented_cost - settled_ledger.mitigation < limit
unfolding program
small_ledger = omega arith

reconcile_recovery_ledger-IsBalanced_example :
    IsBalanced settled_ledger
    × ((member "FULLY_RECONCILED" settled_ledger.signals ≡ true) ↔ (
        (0 < settled_ledger.net_documented_exposure)
        × (settled_ledger.settled ≡ settled_ledger.net_documented_exposure)))
reconcile_recovery_ledger-IsBalanced_example =
    reconcile_recovery_ledger-IsBalanced minus minus-exact number same digest digits "100" "0" "80"
      "80" "80" "80" "EUR" settled_ledger reconciled small_ledger

hundred : (label : String) → amount number "100" label ≡ ok 100
unfolding program
hundred label = refl

eighty : (label : String) → amount number "80" label ≡ ok 80
unfolding program
eighty label = refl

nothing : (label : String) → amount number "0" label ≡ ok 0
unfolding program
nothing label = refl

euro : currency_of same "EUR" ≡ ok "EUR"
unfolding program
euro = refl

reconcile_recovery_ledger-returns_iff_example :
    ((snapshot : Snapshot) × (reconcile_recovery_ledger minus number same digest digits "100" "0"
          "80" "80" "80" "80" "EUR"
        ≡ ok snapshot))
    ↔ ((0 ≤ 100) × (80 + 0 ≤ 100) × (80 ≤ 80) × (80 ≤ 80) × (80 ≤ 80))
reconcile_recovery_ledger-returns_iff_example =
    reconcile_recovery_ledger-returns_iff minus minus-exact number same digest digits "100" "0" "80"
      "80" "80" "80" "EUR" "EUR" 100 0 80 80 80 80 (hundred "documented_cost")
      (nothing "mitigation") (eighty "evidence_supported") (eighty "claimed") (eighty "approved")
      (eighty "settled") euro (omega arith)

refused_test :
    reconcile_recovery_ledger minus number same digest digits "100" "0" "80" "80" "0" "80" "EUR"
    ≡ err settled_exceeds
unfolding program
refused_test = refl

abbrev with_hash : String → Snapshot → Snapshot
with_hash h s = record s { reconciliation_hash = h }

abbrev row : ℕ → Snapshot → Option String → Reconciliation
row n s reason = record {
  tenant_id = "acme";
  finding_id = "f1";
  sequence = n;
  reconciliation_hash = s.reconciliation_hash;
  snapshot = s;
  actor_id = "ann";
  evidence_ref = "mail";
  reversal_reason = reason;
  created_at = "now";
}

abbrev full : Snapshot
full = with_hash "a" (snapshot_of minus digest digits 100 0 100 100 100 100 "EUR")

abbrev part : Snapshot
part = with_hash "b" settled_ledger

abbrev two : List Reconciliation
two = row 1 full none ∷ row 2 part (some "refund") ∷ []

part_appended :
    append "acme" "f1" part "ann" "mail" "refund" "now" (row 1 full none ∷ [])
    ≡ ok (row 2 part (some "refund"), two)
unfolding program
part_appended = refl

unexplained_test :
    append "acme" "f1" part "ann" "mail" "" "now" (row 1 full none ∷ [])
    ≡ err (decrease_needs_reason ("evidence_supported" ∷ "claimed" ∷ "approved" ∷ "settled" ∷ []))
unfolding program
unexplained_test = refl

-- A correction back to the figures of an earlier row is taken for a replay of that row.
restored_test :
    append "acme" "f1" full "ann" "second mail" "refund withdrawn" "now" two ≡ err replay_differs
unfolding program
restored_test = refl

latest_test : latest "acme" "f1" two ≡ ok (some (row 2 part (some "refund")))
unfolding program
latest_test = refl

history_test : history " acme" "f1" two ≡ ok two
unfolding program
history_test = refl

nothing-IsRecorded : IsRecorded []
nothing-IsRecorded t f = tt

abbrev call : Snapshot → (reason : String) → Call
call s reason = record {
  tenant = "acme";
  finding = "f1";
  snapshot = s;
  actor = "ann";
  evidence = "mail";
  reason = reason;
  now = "now";
}

-- The second call is refused, as it gives no reason.
abbrev calls : List Call
calls = call full "" ∷ call part "" ∷ call part "refund" ∷ []

calls_test : append_all calls [] ≡ two
unfolding program
calls_test = refl

append_all-IsRecorded_example : IsRecorded (append_all calls [])
append_all-IsRecorded_example = append_all-IsRecorded calls [] nothing-IsRecorded

append_idempotent_example :
    append "acme" "f1" part "ann" "mail" "refund" "later" two ≡ ok (row 2 part (some "refund"), two)
append_idempotent_example =
    append_idempotent "acme" "f1" part "ann" "mail" "refund" "now" "later" (row 1 full none ∷ [])
      (row 2 part (some "refund")) two part_appended

abbrev hash_of_all : String → String → List (String × String) → Amounts → String
hash_of_all t c hs a = "p"

abbrev portfolio : List Reconciliation
portfolio = row 1 full none ∷ record (row 1 part none) { finding_id = "f2" } ∷ []

abbrev rollup : Rollup
rollup = record {
  tenant_id = "acme";
  currency = "EUR";
  case_count = 2;
  amounts = record {
    net_documented_exposure = 200;
    evidence_supported = 180;
    claimed = 180;
    approved = 180;
    settled = 180;
    unsupported_exposure = 20;
    supported_unclaimed = 0;
    claimed_unapproved = 0;
    approved_unsettled = 0;
    supported_unsettled = 0;
  };
  signal_counts = ("EVIDENCE_GAP", 1) ∷ ("FULLY_RECONCILED", 1) ∷ [];
  finding_hashes = ("f1", "a") ∷ ("f2", "b") ∷ [];
  portfolio_hash = "p";
}

rolled_up : rollup_recovery_portfolio plus same hash_of_all "acme" portfolio ≡ ok rollup
unfolding program
rolled_up = refl

unsupported_is_small : sum_of unsupported_exposure portfolio < limit
unfolding program
unsupported_is_small = omega arith

rollup_recovery_portfolio-totals_example :
    (total_of unsupported_exposure rollup.amounts ≡ sum_of unsupported_exposure portfolio)
    × All (IsOf plus same rollup.tenant_id (rollup.currency ∷ [])) portfolio
    × (rollup.case_count ≡ length portfolio)
rollup_recovery_portfolio-totals_example =
    rollup_recovery_portfolio-totals plus same plus-exact hash_of_all unsupported_exposure "acme"
      portfolio rollup rolled_up unsupported_is_small

mixed_test :
    rollup_recovery_portfolio plus same hash_of_all "acme" (
      row 1 full none
      ∷ record (row 1 (record part { currency = "USD" }) none) { finding_id = "f2" }
      ∷ [])
    ≡ err cross_currency
unfolding program
mixed_test = refl

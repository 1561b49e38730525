-- ===== src/Claims/Recovery.antt =====
-- vertical_apps/industrial_claims/leakage_reconciliation.py: one recovery ledger, reconciled. An amount
-- is a number of units of one last place, which all amounts share. A Decimal is read exactly, but the
-- difference of two is rounded to the 28 digits of the default context: `minus` stands for that
-- difference. A context that raises, as beyond the exponent 999999, is left out, and so
-- are the zeros at the end of an amount, which `str` keeps as they were given.
pub mod Store
pub mod Portfolio
pub mod Balance
pub mod Histories
pub mod Appends
pub mod Totals
pub mod Tests
use Prim.Native.Char.{code}
use Prim.Native.String
use obrasignal.Base.{
  ℕ, String, Bool, true, false, not, ◌&&◌, ◌||◌, Option, none, some, List, [], ◌∷◌, ◌++◌, ltb, leb,
  if◌then◌else◌, ◌==◌ as nat_eq,
}
use obrasignal.Base.Int.{ℤ, pos, negsuc}
use obrasignal.Base.Text.{◌==◌, strip, all_of}
use obrasignal.Base.Json.{Json, str, obj, arr, field, end}
use obrasignal.Base.Result.{Result, ok, err, ◌>>=◌, ◌>>◌, raise_if}
use obrasignal.FactoryCloud.Adapters.{texts}

pub data LedgerError : Type 0 where
  not_decimal negative : (label : String) → LedgerError
  invalid_currency mitigation_exceeds supported_exceeds : LedgerError
  claimed_exceeds approved_exceeds settled_exceeds : LedgerError

pub record Snapshot : Type 0 where
  pub documented_cost : ℕ
  pub mitigation : ℕ
  pub net_documented_exposure : ℕ
  pub evidence_supported : ℕ
  pub claimed : ℕ
  pub approved : ℕ
  pub settled : ℕ
  pub unsupported_exposure : ℕ
  pub supported_unclaimed : ℕ
  pub claimed_unapproved : ℕ
  pub approved_unsettled : ℕ
  pub supported_unsettled : ℕ
  pub currency : String
  pub signals : List String
  pub reconciliation_hash : String

abbrev is_letter : ℕ → Bool
is_letter c = (leb 65 c && leb c 90) || (leb 97 c && leb c 122)

-- `len(code) == 3 and code.isascii() and code.isalpha()`
abbrev pub is_currency : String → Bool
is_currency code = all_of is_letter 3 code

-- `_amount`; `decimal_of` reads a finite decimal.
unfoldable pub amount :
    (decimal_of : String → Option ℤ) (value label : String) → Result LedgerError ℕ
amount decimal_of value label = elim (decimal_of (strip value)) [
  | none ↦ err (not_decimal label)
  | some (negsuc n) ↦ err (negative label)
  | some (pos n) ↦ ok n
]

unfoldable pub currency_of : (upper : String → String) → String → Result LedgerError String
currency_of upper value =
    let code = upper (strip value) in if is_currency code then ok code else err invalid_currency

abbrev pub positive : ℕ → String → List String
positive n signal = if ltb 0 n then signal ∷ [] else []

abbrev pub is_empty : List String → Bool
is_empty [] = true
is_empty (s ∷ ss) = false

unfoldable pub signals_of : (net unsupported unclaimed unapproved unsettled : ℕ) → List String
signals_of net unsupported unclaimed unapproved unsettled =
    let gaps =
      positive unsupported "EVIDENCE_GAP"
      ++ positive unclaimed "SUPPORTED_UNCLAIMED"
      ++ positive unapproved "CLAIM_DECISION_GAP"
      ++ positive unsettled "APPROVED_UNSETTLED" in
    if nat_eq net 0
    then gaps ++ "NO_NET_EXPOSURE" ∷ []
    else if is_empty gaps
    then "FULLY_RECONCILED" ∷ []
    else gaps

-- The object that the hash covers; `text_of` is `str` of an amount.
abbrev pub canonical : (text_of : ℕ → String) → Snapshot → Json
canonical text_of s = obj (
    field "documented_cost" (str (text_of s.documented_cost)) (
      field "mitigation" (str (text_of s.mitigation)) (
        field "net_documented_exposure" (str (text_of s.net_documented_exposure)) (
          field "evidence_supported" (str (text_of s.evidence_supported)) (
            field "claimed" (str (text_of s.claimed)) (
              field "approved" (str (text_of s.approved)) (
                field "settled" (str (text_of s.settled)) (
                  field "currency" (str s.currency)
                    (field "signals" (arr (texts s.signals)) end)))))))))

-- What `reconcile_recovery_ledger` builds of amounts that pass its checks.
unfoldable pub snapshot_of :
    (minus : ℕ → ℕ → ℕ) (sha256 : Json → String) (text_of : ℕ → String)
    (documented mitigation supported claimed approved settled : ℕ) (currency : String)
    → Snapshot
unfolding signals_of
snapshot_of minus sha256 text_of documented mitigation supported claimed approved settled currency =
    let net = minus documented mitigation in
    let unsupported = minus net supported in
    let unclaimed = minus supported claimed in
    let unapproved = minus claimed approved in
    let unsettled = minus approved settled in
    let s : Snapshot = record {
      documented_cost = documented;
      mitigation = mitigation;
      net_documented_exposure = net;
      evidence_supported = supported;
      claimed = claimed;
      approved = approved;
      settled = settled;
      unsupported_exposure = unsupported;
      supported_unclaimed = unclaimed;
      claimed_unapproved = unapproved;
      approved_unsettled = unsettled;
      supported_unsettled = minus supported settled;
      currency = currency;
      signals = signals_of net unsupported unclaimed unapproved unsettled;
      reconciliation_hash = "";
    } in
    record s { reconciliation_hash = sha256 (canonical text_of s) }

module _ (minus : ℕ → ℕ → ℕ) (decimal_of : String → Option ℤ) (upper : String → String)
    (sha256 : Json → String) (text_of : ℕ → String) where
  unfoldable pub reconcile_recovery_ledger :
      (documented_cost mitigation evidence_supported claimed approved settled currency : String)
      → Result LedgerError Snapshot
  unfolding amount currency_of
  reconcile_recovery_ledger documented_cost mitigation evidence_supported claimed approved settled
        currency =
      do
        d ← amount decimal_of documented_cost "documented_cost"
        m ← amount decimal_of mitigation "mitigation"
        s ← amount decimal_of evidence_supported "evidence_supported"
        c ← amount decimal_of claimed "claimed"
        a ← amount decimal_of approved "approved"
        p ← amount decimal_of settled "settled"
        code ← currency_of upper currency
        raise_if (ltb d m) mitigation_exceeds
        raise_if (ltb (minus d m) s) supported_exceeds
        raise_if (ltb s c) claimed_exceeds
        raise_if (ltb c a) approved_exceeds
        raise_if (ltb a p) settled_exceeds
        ok (snapshot_of minus sha256 text_of d m s c a p code)

-- ===== src/Claims/Recovery/Portfolio.antt =====
-- vertical_apps/industrial_claims/recovery_portfolio.py: the reconciliations of a tenant, added up.
-- `plus` is the sum of two Decimals, rounded to the 28 digits of the default context.
use obrasignal.Base.{
  ℕ, ◌+◌, String, Bool, true, false, not, List, [], ◌∷◌, ◌++◌, length, sort_by, if◌then◌else◌,
}
use obrasignal.Base.Text.{◌==◌, nonempty, strip, member, leb_text}
use obrasignal.Base.Result.{Result, ok, err, ◌>>=◌, ◌>>◌, raise_if}
use obrasignal.Claims.Recovery.{Snapshot, is_currency}
use obrasignal.Claims.Recovery.Store.{Reconciliation}

-- A total for each of `_AMOUNT_FIELDS`.
pub record Amounts : Type 0 where
  pub net_documented_exposure : ℕ
  pub evidence_supported : ℕ
  pub claimed : ℕ
  pub approved : ℕ
  pub settled : ℕ
  pub unsupported_exposure : ℕ
  pub supported_unclaimed : ℕ
  pub claimed_unapproved : ℕ
  pub approved_unsettled : ℕ
  pub supported_unsettled : ℕ

pub data PortfolioError : Type 0 where
  tenant_required no_reconciliation cross_tenant duplicate_finding : PortfolioError
  invalid_currency invalid_signal cross_currency : PortfolioError

pub record Rollup : Type 0 where
  pub tenant_id : String
  pub currency : String
  pub case_count : ℕ
  pub amounts : Amounts
  pub signal_counts : List (String × ℕ)
  pub finding_hashes : List (String × String)
  pub portfolio_hash : String

-- What the loop over the records keeps.
pub record Sums : Type 0 where
  pub finding_ids : List String
  pub currencies : List String
  pub totals : Amounts
  pub counts : List (String × ℕ)
  pub hashes : List (String × String)

abbrev no_amounts : Amounts
no_amounts = record {
  net_documented_exposure = 0;
  evidence_supported = 0;
  claimed = 0;
  approved = 0;
  settled = 0;
  unsupported_exposure = 0;
  supported_unclaimed = 0;
  claimed_unapproved = 0;
  approved_unsettled = 0;
  supported_unsettled = 0;
}

abbrev pub add_amounts : (plus : ℕ → ℕ → ℕ) → Amounts → Snapshot → Amounts
add_amounts plus a s = record {
  net_documented_exposure = plus a.net_documented_exposure s.net_documented_exposure;
  evidence_supported = plus a.evidence_supported s.evidence_supported;
  claimed = plus a.claimed s.claimed;
  approved = plus a.approved s.approved;
  settled = plus a.settled s.settled;
  unsupported_exposure = plus a.unsupported_exposure s.unsupported_exposure;
  supported_unclaimed = plus a.supported_unclaimed s.supported_unclaimed;
  claimed_unapproved = plus a.claimed_unapproved s.claimed_unapproved;
  approved_unsettled = plus a.approved_unsettled s.approved_unsettled;
  supported_unsettled = plus a.supported_unsettled s.supported_unsettled;
}

-- `counts[key] = counts.get(key, 0) + 1`
unfoldable pub count_signal : String → List (String × ℕ) → List (String × ℕ)
count_signal key [] = (key, 1) ∷ []
count_signal key ((k, n) ∷ counts) = elim (k == key) [
  | true ↦ (k, n + 1) ∷ counts
  | false ↦ (k, n) ∷ count_signal key counts
]

unfoldable pub count_signals :
    List String → List (String × ℕ) → Result PortfolioError (List (String × ℕ))
unfolding count_signal
count_signals [] counts = ok counts
count_signals (signal ∷ signals) counts =
    let key = strip signal in
    let rest = count_signals signals (count_signal key counts) in
    if nonempty key then rest else err invalid_signal

-- `set.add`
abbrev pub add_once : String → List String → List String
add_once s ss = if member s ss then ss else s ∷ ss

module _ (plus : ℕ → ℕ → ℕ) (upper : String → String) where
  -- One round of the loop.
  unfoldable pub add_record : (tenant : String) → Sums → Reconciliation → Result PortfolioError Sums
  unfolding count_signals
  add_record tenant sums r = do
    raise_if (not (r.tenant_id == tenant)) cross_tenant
    raise_if (member r.finding_id sums.finding_ids) duplicate_finding
    let currency = upper (strip r.snapshot.currency) in
        do
          raise_if (not (is_currency currency)) invalid_currency
          counts ← count_signals r.snapshot.signals sums.counts
          ok (record {
            finding_ids = add_once r.finding_id sums.finding_ids;
            currencies = add_once currency sums.currencies;
            totals = add_amounts plus sums.totals r.snapshot;
            counts = counts;
            hashes = sums.hashes ++ (r.finding_id, r.reconciliation_hash) ∷ [];
          })

  unfoldable pub add_records :
      (tenant : String) → Sums → List Reconciliation → Result PortfolioError Sums
  unfolding add_record
  add_records tenant sums [] = ok sums
  add_records tenant sums (r ∷ rs) = elim (add_record tenant sums r) [
    | err e ↦ err e
    | ok sums' ↦ add_records tenant sums' rs
  ]

abbrev pub no_sums : Sums
no_sums = record {
  finding_ids = [];
  currencies = [];
  totals = no_amounts;
  counts = [];
  hashes = [];
}

-- The order of pairs of texts, as of tuples.
abbrev leb_pair : String × String → String × String → Bool
leb_pair a b = if a.0 == b.0 then leb_text a.1 b.1 else leb_text a.0 b.0

abbrev pub one_currency : List String → Result PortfolioError String
one_currency (c ∷ []) = ok c
one_currency _ = err cross_currency

-- `sha256` digests the tenant, the currency, the hashes and the amounts.
module _ (plus : ℕ → ℕ → ℕ) (upper : String → String)
    (sha256 : String → String → List (String × String) → Amounts → String) where
  unfoldable pub rollup_recovery_portfolio :
      (tenant_id : String) → List Reconciliation → Result PortfolioError Rollup
  unfolding add_records
  rollup_recovery_portfolio tenant_id [] =
      if nonempty (strip tenant_id) then err no_reconciliation else err tenant_required
  rollup_recovery_portfolio tenant_id (r ∷ rs) = do
    raise_if (not (nonempty (strip tenant_id))) tenant_required
    sums ← add_records plus upper (strip tenant_id) no_sums (r ∷ rs)
    currency ← one_currency sums.currencies
    let hashes = sort_by leb_pair sums.hashes in
        ok (record {
          tenant_id = strip tenant_id;
          currency = currency;
          case_count = length (r ∷ rs);
          amounts = sums.totals;
          signal_counts = sort_by (λ a b. leb_text a.0 b.0) sums.counts;
          finding_hashes = hashes;
          portfolio_hash = sha256 (strip tenant_id) currency hashes sums.totals;
        })

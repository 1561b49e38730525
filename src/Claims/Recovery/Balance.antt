-- ===== src/Claims/Recovery/Balance.antt =====
-- What a reconciled ledger adds up to.
use obrasignal.Base.{◌≡◌, ℕ, ◌+◌, ◌-◌, ◌≤◌, ◌<◌, String, true, Option, arith, ◌↔◌, ltb}
use obrasignal.Base.Int.{ℤ}
use obrasignal.Base.Json.{Json}
use obrasignal.Base.Text.{member}
use obrasignal.Base.Result.{Result, ok, ◌>>◌, raise_if, >>=-returns}
use obrasignal.Claims.Recovery.{
  Snapshot, LedgerError, mitigation_exceeds, supported_exceeds, claimed_exceeds, approved_exceeds,
  settled_exceeds, amount, currency_of, signals_of, snapshot_of, reconcile_recovery_ledger,
}

-- The parts of a ledger, each with what it leaves of the part before it.
pub record IsBalanced (s : Snapshot) : Type 0 where
  pub net : s.net_documented_exposure + s.mitigation ≡ s.documented_cost
  pub supported : s.evidence_supported + s.unsupported_exposure ≡ s.net_documented_exposure
  pub claimed : s.claimed + s.supported_unclaimed ≡ s.evidence_supported
  pub approved : s.approved + s.claimed_unapproved ≡ s.claimed
  pub settled : s.settled + s.approved_unsettled ≡ s.approved
  pub unsettled : s.settled + s.supported_unsettled ≡ s.evidence_supported

signals_of-fully_reconciled :
    (net unsupported unclaimed unapproved unsettled : ℕ)
    → (member "FULLY_RECONCILED" (signals_of net unsupported unclaimed unapproved unsettled) ≡ true)
      ↔ ((0 < net) × (unsupported + unclaimed + unapproved + unsettled ≡ 0))
unfolding signals_of
signals_of-fully_reconciled net unsupported unclaimed unapproved unsettled = ground arith

-- The amounts that pass the checks.
record IsChain (net : ℕ) (d m s c a p : ℕ) : Type 0 where
  pub mitigated : m ≤ d
  pub supported : s ≤ net
  pub claimed : c ≤ s
  pub approved : a ≤ c
  pub settled : p ≤ a

-- A coefficient of 28 digits, the precision of the default decimal context, is below this.
abbrev pub limit : ℕ
limit = 10_000_000_000_000_000_000_000_000_000

module _ (minus : ℕ → ℕ → ℕ) (exact : (a b : ℕ) → b ≤ a → a - b < limit → minus a b ≡ a - b) where
  snapshot_of-IsBalanced :
      (sha256 : Json → String) (text_of : ℕ → String) (d m s c a p : ℕ) (code : String)
      → IsChain (minus d m) d m s c a p
      → d - m < limit
      → IsBalanced (snapshot_of minus sha256 text_of d m s c a p code)
  unfolding snapshot_of
  snapshot_of-IsBalanced sha256 text_of d m s c a p code chain small =
      let net = exact d m chain.mitigated small in
      let le : s ≤ d - m = omega (arith, chain.supported, net) in
      let l₁ = chain.claimed in
      let l₂ = chain.approved in
      let l₃ = chain.settled in
      let gap : minus (minus d m) s ≡ (d - m) - s = rw net (exact (d - m) s le (omega arith)) in
      let unclaimed = exact s c l₁ (omega arith) in
      let unapproved = exact c a l₂ (omega arith) in
      let approved_left = exact a p l₃ (omega arith) in
      let left = exact s p (omega arith) (omega arith) in
      record {
        net = omega (arith, net, chain.mitigated);
        supported = omega (arith, net, gap, le);
        claimed = omega (arith, unclaimed, l₁);
        approved = omega (arith, unapproved, l₂);
        settled = omega (arith, approved_left, l₃);
        unsettled = omega (arith, left, l₁, l₂, l₃);
      }

  module _ (decimal_of : String → Option ℤ) (upper : String → String) (sha256 : Json → String)
      (text_of : ℕ → String) where
    -- What a ledger that is reconciled was built of.
    record IsBuilt (snapshot : Snapshot) : Type 0 where
      pub d : ℕ
      pub m : ℕ
      pub s : ℕ
      pub c : ℕ
      pub a : ℕ
      pub p : ℕ
      pub code : String
      pub chain : IsChain (minus d m) d m s c a p
      pub built : snapshot ≡ snapshot_of minus sha256 text_of d m s c a p code

    checked : (d m s c a p : ℕ) (code : String) → Result LedgerError Snapshot
    checked d m s c a p code = do
      raise_if (ltb d m) mitigation_exceeds
      raise_if (ltb (minus d m) s) supported_exceeds
      raise_if (ltb s c) claimed_exceeds
      raise_if (ltb c a) approved_exceeds
      raise_if (ltb a p) settled_exceeds
      ok (snapshot_of minus sha256 text_of d m s c a p code)

    checked-IsBuilt :
        (d m s c a p : ℕ) (code : String) (snapshot : Snapshot)
        → checked d m s c a p code ≡ ok snapshot
        → IsBuilt snapshot
    unfolding checked
    checked-IsBuilt d m s c a p code snapshot h = record {
      d = d;
      m = m;
      s = s;
      c = c;
      a = a;
      p = p;
      code = code;
      chain = record {
        mitigated = ground (arith, h);
        supported = ground (arith, h);
        claimed = ground (arith, h);
        approved = ground (arith, h);
        settled = ground (arith, h);
      };
      built = ground (arith, h);
    }

    reconcile_recovery_ledger-IsBuilt :
        (d m s c a p code : String) (snapshot : Snapshot)
        → reconcile_recovery_ledger minus decimal_of upper sha256 text_of d m s c a p code
          ≡ ok snapshot
        → IsBuilt snapshot
    unfolding reconcile_recovery_ledger checked
    reconcile_recovery_ledger-IsBuilt d m s c a p code snapshot h =
        let (d', _, h) = >>=-returns (amount decimal_of d "documented_cost") _ h in
        let (m', _, h) = >>=-returns (amount decimal_of m "mitigation") _ h in
        let (s', _, h) = >>=-returns (amount decimal_of s "evidence_supported") _ h in
        let (c', _, h) = >>=-returns (amount decimal_of c "claimed") _ h in
        let (a', _, h) = >>=-returns (amount decimal_of a "approved") _ h in
        let (p', _, h) = >>=-returns (amount decimal_of p "settled") _ h in
        let (unit, _, h) = >>=-returns (currency_of upper code) _ h in
        checked-IsBuilt d' m' s' c' a' p' unit snapshot h

    snapshot_of-fully_reconciled :
        (d m s c a p : ℕ) (code : String)
        → IsBalanced (snapshot_of minus sha256 text_of d m s c a p code)
        → (member "FULLY_RECONCILED" (snapshot_of minus sha256 text_of d m s c a p code).signals
            ≡ true)
          ↔ ((0 < minus d m) × (p ≡ minus d m))
    unfolding snapshot_of
    snapshot_of-fully_reconciled d m s c a p code b =
        let gaps =
          signals_of-fully_reconciled (minus d m) (minus (minus d m) s) (minus s c) (minus c a)
            (minus a p) in
        (
          (λ e.
              let g = gaps.0 e in
              (g.0, omega (arith, g.1, b.supported, b.claimed, b.approved, b.settled))),
          (λ (e, g). gaps.1 (e, omega (arith, g, b.supported, b.claimed, b.approved, b.settled))),
        )

    -- A ledger that is reconciled, with a documented cost that exceeds its mitigation by an amount of 28
    -- digits at most, adds up: each of its gaps is what one of its parts leaves of the part before it,
    -- from the documented cost through the supported, the claimed and the approved amount to the settled
    -- one. It is signalled as fully reconciled just when its net exposure is positive and all of it is
    -- settled. What is used of Decimal is that a difference of 28 digits at most is exact.
    pub reconcile_recovery_ledger-IsBalanced :
        (d m s c a p code : String) (snapshot : Snapshot)
        → reconcile_recovery_ledger minus decimal_of upper sha256 text_of d m s c a p code
          ≡ ok snapshot
        → snapshot.documented_cost - snapshot.mitigation < limit
        → IsBalanced snapshot
          × ((member "FULLY_RECONCILED" snapshot.signals ≡ true) ↔ (
              (0 < snapshot.net_documented_exposure)
              × (snapshot.settled ≡ snapshot.net_documented_exposure)))
    unfolding snapshot_of
    reconcile_recovery_ledger-IsBalanced d m s c a p code snapshot h small =
        let g = reconcile_recovery_ledger-IsBuilt d m s c a p code snapshot h in
        let near : g.d - g.m < limit = rw g.built at small in
        let b = snapshot_of-IsBalanced sha256 text_of g.d g.m g.s g.c g.a g.p g.code g.chain near in
        rw g.built (b, snapshot_of-fully_reconciled g.d g.m g.s g.c g.a g.p g.code b)

    -- Of a call with readable amounts and a valid currency, whose documented cost exceeds the mitigation
    -- by an amount of 28 digits at most, the ledger is reconciled just when the mitigation is within the
    -- documented cost, the supported amount within what is left of it, the claimed amount within the
    -- supported one, and so on to the settled amount. What is used of Decimal is that a difference of 28
    -- digits at most is exact.
    pub reconcile_recovery_ledger-returns_iff :
        (d m s c a p code unit : String)
        (documented mitigation supported claimed approved settled : ℕ)
        → amount decimal_of d "documented_cost" ≡ ok documented
        → amount decimal_of m "mitigation" ≡ ok mitigation
        → amount decimal_of s "evidence_supported" ≡ ok supported
        → amount decimal_of c "claimed" ≡ ok claimed
        → amount decimal_of a "approved" ≡ ok approved
        → amount decimal_of p "settled" ≡ ok settled
        → currency_of upper code ≡ ok unit
        → documented - mitigation < limit
        → ((snapshot : Snapshot) × (reconcile_recovery_ledger minus decimal_of upper sha256 text_of
                d m s c a p code
              ≡ ok snapshot))
          ↔ ((mitigation ≤ documented)
              × (supported + mitigation ≤ documented)
              × (claimed ≤ supported)
              × (approved ≤ claimed)
              × (settled ≤ approved))
    unfolding reconcile_recovery_ledger
    reconcile_recovery_ledger-returns_iff d m s c a p code unit documented mitigation supported
          claimed approved settled e₀ e₁ e₂ e₃ e₄ e₅ e₆ small =
        let net = exact documented mitigation in
        (
          (λ (snapshot, h). (
            ground (arith, h),
            ground (arith, h, net),
            ground (arith, h),
            ground (arith, h),
            ground (arith, h),
          )),
          λ (h₀, h₁, h₂, h₃, h₄). (
            snapshot_of minus sha256 text_of documented mitigation supported claimed approved
                settled unit,
            ground (arith, net h₀ small, e₀, e₁, e₂, e₃, e₄, e₅, e₆),
          ),
        )

-- ===== src/FactoryCloud/Lease.antt =====
-- factory_cloud/state_store.py: the table orchestrator_lease. Each call is one transaction under
-- BEGIN IMMEDIATE, so a sequence of calls is an interleaving of all the processes. `now` is what
-- the clock reads in the call, and `ttl` the lease in microseconds.
pub mod Exclusion
pub mod Takeover
pub mod Tests
use obrasignal.Base.{
  ℕ, ◌+◌, String, Bool, true, false, not, ◌&&◌, ◌||◌, Option, none, some, List, [], ◌∷◌, find?,
  select, count_if, if◌then◌else◌, ◌==◌ as nat_eq,
}
use obrasignal.Base.Text.{◌==◌, nonempty}
use obrasignal.Base.Result.{Result, ok, err}
use obrasignal.FactoryCloud.Stamp.{Stamp, at, has_passed}

pub data LeaseError : Type 0 where
  bad_request : LeaseError

pub record LeaseRow : Type 0 where
  pub lease_name : String
  pub owner_id : String
  pub acquired_at : ℕ
  pub expires_at : Stamp

abbrev pub Leases : Type 0
Leases = List LeaseRow

-- `lease`
abbrev pub lease : String → Leases → Option LeaseRow
lease name = find? (λ r. r.lease_name == name)

-- `INSERT … ON CONFLICT(lease_name) DO UPDATE`
unfoldable pub put : LeaseRow → Leases → Leases
put r [] = r ∷ []
put r (q ∷ rows) = elim (q.lease_name == r.lease_name) [ true ↦ r ∷ rows | false ↦ q ∷ put r rows ]

unfoldable can_claim : Option LeaseRow → String → ℕ → Bool
can_claim none owner now = true
can_claim (some r) owner now = r.owner_id == owner || has_passed r.expires_at now

abbrev pub granted : String → String → ℕ → ℕ → LeaseRow
granted name owner ttl now = record {
  lease_name = name;
  owner_id = owner;
  acquired_at = now;
  expires_at = at (now + ttl);
}

unfoldable pub acquire_or_renew_lease :
    (name owner : String) (ttl now : ℕ) → Leases → Result LeaseError (Bool × Leases)
unfolding can_claim
acquire_or_renew_lease name owner ttl now rows =
    if not (nonempty name) || not (nonempty owner) || nat_eq ttl 0
    then err bad_request
    else if can_claim (lease name rows) owner now
    then ok (true, put (granted name owner ttl now) rows)
    else ok (false, rows)

abbrev is_held : String → String → LeaseRow → Bool
is_held name owner r = r.lease_name == name && r.owner_id == owner

-- `DELETE … WHERE lease_name=? AND owner_id=?`, and whether it deleted one row.
unfoldable pub release_lease : (name owner : String) → Leases → Bool × Leases
release_lease name owner rows =
    (nat_eq (count_if (is_held name owner) rows) 1, select (λ r. not (is_held name owner r)) rows)

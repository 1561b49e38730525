-- ===== src/FactoryCloud/Lease/Tests.antt =====
-- Runs of the lease table, and the theorems at concrete processes.
use obrasignal.Base.{◌≡◌, refl, true, false, List, [], ◌∷◌, inl, inr, ◌≢◌, arith, String}
use obrasignal.Base.Text.{eq_iff}
use obrasignal.Base.Result.{ok}
use obrasignal.FactoryCloud.Lease.{Leases, granted, acquire_or_renew_lease, put}
use obrasignal.FactoryCloud.Lease.Exclusion.{Call, acquire, run, acquire_or_renew_lease_exclusive}
use obrasignal.FactoryCloud.Lease.Takeover.{acquire_or_renew_lease_takeover}

abbrev held : Leases
held = granted "main" "ann" 30 10 ∷ []

first_claim : acquire_or_renew_lease "main" "ann" 30 10 [] ≡ ok (true, held)
unfolding acquire_or_renew_lease put
first_claim = refl

ann_not_bob : ◌≢◌ {A = String} "bob" "ann"
ann_not_bob = ground (arith, eq_iff "bob" "ann")

-- A renewal by the holder, and a call by another process before the end.
abbrev calls : List Call
calls = acquire "main" "ann" 30 20 ∷ acquire "main" "bob" 5 25 ∷ []

acquire_or_renew_lease_exclusive_example :
    acquire_or_renew_lease "main" "bob" 30 39 (run held calls) ≡ ok (false, run held calls)
acquire_or_renew_lease_exclusive_example =
    acquire_or_renew_lease_exclusive [] held "main" "ann" "bob" 30 10 30 39 calls first_claim
      (inr (inr (refl, omega arith)), (inr (inl (ann_not_bob, omega arith)), tt)) ann_not_bob
      (omega arith) refl refl (omega arith)

-- Another process asks before the end; then the holder comes back after it has lost the lease.
abbrev refused_calls : List Call
refused_calls = acquire "main" "bob" 5 25 ∷ []

ann_is_not_bob : ◌≢◌ {A = String} "ann" "bob"
ann_is_not_bob = ground (arith, eq_iff "ann" "bob")

acquire_or_renew_lease_takeover_example :
    (rows : Leases) × (acquire_or_renew_lease "main" "bob" 30 40 (run held refused_calls)
      ≡ ok (true, rows))
    × (acquire_or_renew_lease "main" "ann" 30 60 (run rows []) ≡ ok (false, run rows []))
acquire_or_renew_lease_takeover_example =
    acquire_or_renew_lease_takeover [] held "main" "ann" "bob" 30 10 30 40 30 60 refused_calls []
      first_claim (inr (ann_not_bob, omega arith), tt) (omega arith) tt (omega arith) ann_is_not_bob
      refl refl refl (omega arith) (omega arith)

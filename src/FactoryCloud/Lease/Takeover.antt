-- ===== src/FactoryCloud/Lease/Takeover.antt =====
-- What becomes of a lease whose holder has stopped calling.
use obrasignal.Base.{
  ◌≡◌, refl, ℕ, ◌+◌, ◌≤◌, ◌<◌, String, true, false, some, List, [], ◌∷◌, arith, ◌≢◌, ◌⊎◌, inl, inr,
  Bool-cases, sym, ◌∙◌, All,
}
use obrasignal.Base.Text.{◌==◌, eq_iff, nonempty}
use obrasignal.Base.Result.{ok}
use obrasignal.FactoryCloud.Stamp.{at}
use obrasignal.FactoryCloud.Lease.{LeaseRow, Leases, lease, put, granted, acquire_or_renew_lease}
use obrasignal.FactoryCloud.Lease.Exclusion.{
  Call, acquire, release, step, run, Spares, lease-after_acquire, lease-release, acquire-granted,
  acquire-refused, acquire_or_renew_lease_exclusive,
}

-- A call that the holder of the lease does not make, and others make before its end.
abbrev pub IsSilent : String → String → ℕ → Call → Type 0
IsSilent name owner until (acquire n o ttl now) = (n ≢ name) ⊎ ((o ≢ owner) × (now < until))
IsSilent name owner until (release n o) = (n ≢ name) ⊎ (o ≢ owner)

step-silent :
    (rows : Leases) (name owner : String) (ttl start : ℕ) (c : Call)
    → lease name rows ≡ some (granted name owner ttl start)
    → IsSilent name owner (start + ttl) c
    → lease name (step rows c) ≡ some (granted name owner ttl start)
unfolding step
step-silent rows name owner ttl start (acquire n o t now) f (inl other) =
    lease-after_acquire rows name n o t now other ∙ f
step-silent rows name owner ttl start (acquire n o t now) f (inr (foreign, early)) =
    elim (Bool-cases (n == name)) [
      | inl hit ↦ rw ((eq_iff n name).0 hit) (
          acquire-refused rows name o t now (granted name owner ttl start) (start + ttl) f refl
            (λ same. foreign (sym same)) early)
      | inr other ↦
          let apart : n ≢ name = ground (arith, eq_iff n name) in
          lease-after_acquire rows name n o t now apart ∙ f
    ]
step-silent rows name owner ttl start (release n o) f silent =
    lease-release rows name n o (granted name owner ttl start) f silent

run-silent :
    (name owner : String) (ttl start : ℕ) (calls : List Call) (rows : Leases)
    → lease name rows ≡ some (granted name owner ttl start)
    → All (IsSilent name owner (start + ttl)) calls
    → lease name (run rows calls) ≡ some (granted name owner ttl start)
unfolding run
run-silent name owner ttl start [] rows f s = f
run-silent name owner ttl start (c ∷ cs) rows f (s, ss) =
    run-silent name owner ttl start cs (step rows c) (step-silent rows name owner ttl start c f s)
      ss

acquire_late :
    (rows : Leases) (name o : String) (ttl now : ℕ) (r : LeaseRow) (t : ℕ)
    → lease name rows ≡ some r
    → r.expires_at ≡ at t
    → t ≤ now
    → nonempty name ≡ true
    → nonempty o ≡ true
    → 0 < ttl
    → acquire_or_renew_lease name o ttl now rows ≡ ok (true, put (granted name o ttl now) rows)
unfolding acquire_or_renew_lease
acquire_late rows name o ttl now r t f x late hn ho ht = ground arith

-- A holder that stops calling loses its lease when it ends, and to whoever asks then: when `owner`
-- was granted a lease at `start` and made no call for it since, while others called for it only
-- before its end, a call of `o` at or after that end is granted. From then on `o` is protected as
-- `owner` was: after any calls that spare its lease, a new call of `owner` before that ends is
-- refused and changes nothing.
pub acquire_or_renew_lease_takeover :
    (rows rows' : Leases) (name owner o : String) (ttl start ttl' now ttl'' later : ℕ)
    (calls calls' : List Call)
    → acquire_or_renew_lease name owner ttl start rows ≡ ok (true, rows')
    → All (IsSilent name owner (start + ttl)) calls
    → start + ttl ≤ now
    → All (Spares name o (now + ttl')) calls'
    → later < now + ttl'
    → owner ≢ o
    → nonempty name ≡ true
    → nonempty owner ≡ true
    → nonempty o ≡ true
    → 0 < ttl'
    → 0 < ttl''
    → (rows'' : Leases) × (acquire_or_renew_lease name o ttl' now (run rows' calls)
        ≡ ok (true, rows''))
      × (acquire_or_renew_lease name owner ttl'' later (run rows'' calls')
          ≡ ok (false, run rows'' calls'))
acquire_or_renew_lease_takeover rows rows' name owner o ttl start ttl' now ttl'' later calls calls'
      first silent late spares early apart hn hw ho ht ht'' =
    let held =
      run-silent name owner ttl start calls rows'
        (acquire-granted rows name owner ttl start rows' first) silent in
    let taken =
      acquire_late (run rows' calls) name o ttl' now (granted name owner ttl start) (start + ttl)
        held refl late hn ho ht in
    (
      put (granted name o ttl' now) (run rows' calls),
      taken,
      acquire_or_renew_lease_exclusive (run rows' calls)
          (put (granted name o ttl' now) (run rows' calls)) name o owner ttl' now ttl'' later calls'
          taken spares apart early hn hw ht'',
    )

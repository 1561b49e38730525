-- ===== src/FactoryCloud/Lease/Exclusion.antt =====
-- Who holds a lease, over any interleaving of calls.
use obrasignal.Base.{
  ◌≡◌, refl, ℕ, ◌+◌, ◌≤◌, ◌<◌, String, Bool, true, false, some, List, [], ◌∷◌, arith, ◌≢◌, ◌⊎◌, inl,
  inr, Bool-cases, if◌then◌else◌, sym, ◌∙◌, All,
}
use obrasignal.Base.Text.{◌==◌, eq_iff, eq_refl, nonempty}
use obrasignal.Base.Result.{Result, ok, err}
use obrasignal.FactoryCloud.Stamp.{at}
use obrasignal.FactoryCloud.Lease.{
  LeaseError, LeaseRow, Leases, lease, put, granted, acquire_or_renew_lease, release_lease,
  bad_request,
}

lease-put :
    (name : String) (r : LeaseRow) (rows : Leases)
    → lease name (put r rows) ≡ (if r.lease_name == name then some r else lease name rows)
unfolding put
lease-put name r [] = ground arith
lease-put name r (q ∷ rows) = ground (
  arith,
  eq_iff q.lease_name r.lease_name,
  eq_iff r.lease_name name,
  eq_iff q.lease_name name,
  lease-put name r rows,
)

-- One call, by any process, at the time `now`.
pub data Call : Type 0 where
  acquire : (name owner : String) (ttl now : ℕ) → Call
  release : (name owner : String) → Call

abbrev pub after_acquire : Leases → Result LeaseError (Bool × Leases) → Leases
after_acquire rows (ok (_, rows')) = rows'
after_acquire rows (err e) = rows

unfoldable pub step : Leases → Call → Leases
unfolding acquire_or_renew_lease release_lease
step rows (acquire name owner ttl now) =
    after_acquire rows (acquire_or_renew_lease name owner ttl now rows)
step rows (release name owner) = (release_lease name owner rows).1

unfoldable pub run : Leases → List Call → Leases
run rows [] = rows
run rows (c ∷ cs) = run (step rows c) cs

-- The lease `name` is held by `owner` at least until `until`.
abbrev HeldUntil : String → String → ℕ → Leases → Type 0
HeldUntil name owner until rows =
    (r : LeaseRow) × (lease name rows ≡ some r)
    × (r.owner_id ≡ owner)
    × (t : ℕ) × (r.expires_at ≡ at t)
    × (until ≤ t)

-- A call that leaves the holder alone: the others call before `until`, and the holder does not
-- release, and renews for no shorter a time.
abbrev pub Spares : String → String → ℕ → Call → Type 0
Spares name owner until (acquire n o ttl now) =
    (n ≢ name) ⊎ (((o ≢ owner) × (now < until)) ⊎ ((o ≡ owner) × (until ≤ now + ttl)))
Spares name owner until (release n o) = (n ≢ name) ⊎ (o ≢ owner)

-- A call about another lease, or refused, keeps the row.
pub lease-after_acquire :
    (rows : Leases) (name n o : String) (ttl now : ℕ)
    → n ≢ name
    → lease name (after_acquire rows (acquire_or_renew_lease n o ttl now rows)) ≡ lease name rows
unfolding acquire_or_renew_lease
lease-after_acquire rows name n o ttl now h =
    ground (arith, eq_iff n name, lease-put name (granted n o ttl now) rows)

pub lease-release :
    (rows : Leases) (name n o : String) (r : LeaseRow)
    → lease name rows ≡ some r
    → (n ≢ name) ⊎ (o ≢ r.owner_id)
    → lease name (release_lease n o rows).1 ≡ some r
unfolding release_lease
lease-release [] name n o r f h = cc
lease-release (q ∷ rows) name n o r f h = ground (
  arith,
  eq_iff q.lease_name name,
  eq_iff q.lease_name n,
  eq_iff q.owner_id o,
  lease-release rows name n o r,
)

pub acquire-granted :
    (rows : Leases) (name owner : String) (ttl now : ℕ) (rows' : Leases)
    → acquire_or_renew_lease name owner ttl now rows ≡ ok (true, rows')
    → lease name rows' ≡ some (granted name owner ttl now)
unfolding acquire_or_renew_lease
acquire-granted rows name owner ttl now rows' h =
    ground (arith, eq_refl name, lease-put name (granted name owner ttl now) rows)

pub acquire-refused :
    (rows : Leases) (name o : String) (ttl now : ℕ) (r : LeaseRow) (t : ℕ)
    → lease name rows ≡ some r
    → r.expires_at ≡ at t
    → r.owner_id ≢ o
    → now < t
    → lease name (after_acquire rows (acquire_or_renew_lease name o ttl now rows)) ≡ some r
unfolding acquire_or_renew_lease
acquire-refused rows name o ttl now r t f x other early = ground (arith, eq_iff r.owner_id o)

acquire_self_cases :
    (rows : Leases) (name o : String) (ttl now : ℕ) (r : LeaseRow)
    → lease name rows ≡ some r
    → r.owner_id ≡ o
    → (acquire_or_renew_lease name o ttl now rows ≡ err bad_request)
      ⊎ (acquire_or_renew_lease name o ttl now rows ≡ ok (true, put (granted name o ttl now) rows))
unfolding acquire_or_renew_lease
acquire_self_cases rows name o ttl now r f e = ground (arith, eq_iff r.owner_id o)

-- A renewal by the holder itself, or a call by another before the time, keeps the lease held.
acquire-HeldUntil :
    (rows : Leases) (name owner o : String) (until ttl now : ℕ)
    → HeldUntil name owner until rows
    → ((o ≢ owner) × (now < until)) ⊎ ((o ≡ owner) × (until ≤ now + ttl))
    → HeldUntil name owner until (after_acquire rows (acquire_or_renew_lease name o ttl now rows))
acquire-HeldUntil rows name owner o until ttl now (r, f, e, t, x, l) (inl (other, early)) = (
  r,
  acquire-refused rows name o ttl now r t f x (λ same. other (sym same ∙ e)) (omega arith),
  e,
  t,
  x,
  l,
)
acquire-HeldUntil rows name owner o until ttl now (r, f, e, t, x, l) (inr (self, long)) =
    elim (acquire_self_cases rows name o ttl now r f (e ∙ sym self)) [
      | inl bad ↦ rw bad (r, f, e, t, x, l)
      | inr good ↦ rw good (
        granted name o ttl now,
        acquire-granted rows name o ttl now _ good,
        self,
        now + ttl,
        refl,
        long,
      )
    ]

step-HeldUntil :
    (rows : Leases) (name owner : String) (until : ℕ) (c : Call)
    → HeldUntil name owner until rows
    → Spares name owner until c
    → HeldUntil name owner until (step rows c)
unfolding step
step-HeldUntil rows name owner until (acquire n o ttl now) (r, f, e, t, x, l) (inl other) =
    (r, lease-after_acquire rows name n o ttl now other ∙ f, e, t, x, l)
step-HeldUntil rows name owner until (acquire n o ttl now) held (inr spared) =
    elim (Bool-cases (n == name)) [
      | inl hit ↦
          rw ((eq_iff n name).0 hit) (acquire-HeldUntil rows name owner o until ttl now held spared)
      | inr other ↦
          let (r, f, e, t, x, l) = held in
          let apart : n ≢ name = ground (arith, eq_iff n name) in
          (r, lease-after_acquire rows name n o ttl now apart ∙ f, e, t, x, l)
    ]
step-HeldUntil rows name owner until (release n o) (r, f, e, t, x, l) spared = (
  r,
  lease-release rows name n o r f
      (elim spared [ inl other ↦ inl other | inr foreign ↦ inr (λ same. foreign (same ∙ e)) ]),
  e,
  t,
  x,
  l,
)

run-HeldUntil :
    (name owner : String) (until : ℕ) (calls : List Call) (rows : Leases)
    → HeldUntil name owner until rows
    → All (Spares name owner until) calls
    → HeldUntil name owner until (run rows calls)
unfolding run
run-HeldUntil name owner until [] rows held s = held
run-HeldUntil name owner until (c ∷ cs) rows held (s, ss) =
    run-HeldUntil name owner until cs (step rows c) (step-HeldUntil rows name owner until c held s)
      ss

HeldUntil-acquire :
    (rows : Leases) (name owner o : String) (until ttl now : ℕ)
    → HeldUntil name owner until rows
    → o ≢ owner
    → now < until
    → nonempty name ≡ true
    → nonempty o ≡ true
    → 0 < ttl
    → acquire_or_renew_lease name o ttl now rows ≡ ok (false, rows)
unfolding acquire_or_renew_lease
HeldUntil-acquire rows name owner o until ttl now (r, f, e, t, x, l) other early hn ho ht =
    ground (arith, eq_iff r.owner_id o)

-- Mutual exclusion: when `owner` was granted a lease at `start`, then after any interleaving of
-- calls in which others call before it ends, and the owner neither releases it nor renews it for
-- less, a call of another owner before the end is refused and changes nothing.
pub acquire_or_renew_lease_exclusive :
    (rows rows' : Leases) (name owner o : String) (ttl start ttl' now : ℕ) (calls : List Call)
    → acquire_or_renew_lease name owner ttl start rows ≡ ok (true, rows')
    → All (Spares name owner (start + ttl)) calls
    → o ≢ owner
    → now < start + ttl
    → nonempty name ≡ true
    → nonempty o ≡ true
    → 0 < ttl'
    → acquire_or_renew_lease name o ttl' now (run rows' calls) ≡ ok (false, run rows' calls)
acquire_or_renew_lease_exclusive rows rows' name owner o ttl start ttl' now calls h s other early hn
      ho ht =
    let held : HeldUntil name owner (start + ttl) rows' = (
      granted name owner ttl start,
      acquire-granted rows name owner ttl start rows' h,
      refl,
      start + ttl,
      refl,
      omega arith,
    ) in
    HeldUntil-acquire (run rows' calls) name owner o (start + ttl) ttl' now
      (run-HeldUntil name owner (start + ttl) calls rows' held s) other early hn ho ht

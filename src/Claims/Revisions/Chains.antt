-- ===== src/Claims/Revisions/Chains.antt =====
-- A lineage as a list of finding ids, the newest first, and the rows that stand for it.
use obrasignal.Base.{
  ◌≡◌, refl, ℕ, zero, suc, ◌≤◌, ◌<◌, String, Bool, true, false, Option, none, some, List, [], ◌∷◌,
  arith, All, inl, inr, Bool-cases, find?, length,
}
use obrasignal.Base.Text.{◌==◌, eq_iff, eq_refl, member, opt_eq}
use obrasignal.Base.Result.{ok}
use obrasignal.Claims.Revisions.{
  Revision, Table, tenant, finding, fingerprint, validated, validated_supersedes, has_id, is_of,
  predecessor_of, walk, validate_lineage,
}

abbrev pub newest : List String → Option String
newest [] = none
newest (id ∷ ids) = some id

abbrev pub row : (t p : String) (is_current : Bool) (id : String) (older : List String) → Revision
row t p is_current id older = record {
  finding_id = id;
  tenant_id = t;
  recovery_fingerprint = p;
  revision = suc (length older);
  supersedes_finding_id = newest older;
  is_current = is_current;
}

-- The ids of a lineage, each valid and with its row, of which the newest may be the current one.
abbrev pub Chain : Table → (t p : String) → Bool → List String → Type 0
Chain rows t p is_current [] = Unit
Chain rows t p is_current (id ∷ older) =
    (find? (has_id id) rows ≡ some (row t p is_current id older))
    × (finding id ≡ ok id)
    × (opt_eq (newest older) (some id) ≡ false)
    × Chain rows t p false older

pub find?-narrow :
    {A : Type 0} (p q : A → Bool) (xs : List A) {x : A}
    → All (λ y. q y ≡ true → p y ≡ true) xs
    → find? p xs ≡ some x
    → q x ≡ true
    → find? q xs ≡ some x
find?-narrow p q [] all f h = absurd (ground arith)
find?-narrow p q (y ∷ ys) {x} (a, all) f h = elim (Bool-cases (q y)) [
  | inl e ↦ let e' = a e in ground (arith, e, e')
  | inr e ↦ elim (Bool-cases (p y)) [
    | inl g ↦ let same : y ≡ x = ground (arith, g) in absurd (ground (arith, e, same, h))
    | inr g ↦ ground (arith, e, g, find?-narrow p q ys {x = x} all)
  ]
]

is_of-has_id :
    (t id : String) (rows : Table) → All (λ r. is_of t id r ≡ true → has_id id r ≡ true) rows
is_of-has_id t id [] = tt
is_of-has_id t id (r ∷ rows) = ((λ h. ground arith), is_of-has_id t id rows)

find_of :
    (t id : String) (rows : Table) {r : Revision}
    → find? (has_id id) rows ≡ some r
    → is_of t id r ≡ true
    → find? (is_of t id) rows ≡ some r
find_of t id rows {r} = find?-narrow (has_id id) (is_of t id) rows {x = r} (is_of-has_id t id rows)

-- The row of a valid id, over a valid predecessor, is valid as it stands.
pub row-validated :
    (t p : String) (is_current : Bool) (id : String) (older : List String)
    → tenant t ≡ ok t
    → fingerprint p ≡ ok p
    → finding id ≡ ok id
    → opt_eq (newest older) (some id) ≡ false
    → All (λ i. finding i ≡ ok i) older
    → validated (row t p is_current id older) ≡ ok (row t p is_current id older)
unfolding validated validated_supersedes
row-validated t p is_current id [] ht hp hid apart valid = rw (ht, hp, hid) refl
row-validated t p is_current id (prev ∷ older) ht hp hid apart (hv, valid) =
    rw (ht, hp, hid, hv, apart) (ground arith)

Chain-valid :
    (rows : Table) (t p : String) (is_current : Bool) (ids : List String)
    → Chain rows t p is_current ids
    → All (λ i. finding i ≡ ok i) ids
Chain-valid rows t p is_current [] c = tt
Chain-valid rows t p is_current (id ∷ older) (f, v, apart, c) =
    (v, Chain-valid rows t p false older c)

-- An id whose row has at least a given number.
abbrev IsNewer : Table → ℕ → String → Type 0
IsNewer rows n v = (r : Revision) × (find? (has_id v) rows ≡ some r) × (n ≤ r.revision)

not_visited :
    (rows : Table) (n : ℕ) (id : String) (r : Revision) (visited : List String)
    → find? (has_id id) rows ≡ some r
    → r.revision < n
    → All (IsNewer rows n) visited
    → member id visited ≡ false
not_visited rows n id r [] f lt all = refl
not_visited rows n id r (v ∷ visited) f lt ((q, g, le), all) = elim (Bool-cases (id == v)) [
  | inl e ↦
      let same : id ≡ v = (eq_iff id v).0 e in
      let g' : find? (has_id id) rows ≡ some q = rw same g in
      let equal : q ≡ r = ground (arith, f, g') in absurd (ground (arith, equal, lt, le))
  | inr e ↦ ground (arith, e, not_visited rows n id r visited f lt all)
]

weaken :
    (rows : Table) (n : ℕ) (visited : List String)
    → All (IsNewer rows (suc n)) visited
    → All (IsNewer rows n) visited
weaken rows n [] all = tt
weaken rows n (v ∷ visited) ((q, g, le), all) =
    ((q, g, omega (arith, le)), weaken rows n visited all)

predecessor_of-row :
    (rows : Table) (t p : String) (is_current : Bool) (id prev : String)
    (older visited : List String)
    → tenant t ≡ ok t
    → fingerprint p ≡ ok p
    → Chain rows t p is_current (id ∷ prev ∷ older)
    → All (IsNewer rows (suc (suc (length older)))) visited
    → predecessor_of rows p visited (row t p is_current id (prev ∷ older))
      ≡ ok (row t p false prev older)
unfolding predecessor_of
predecessor_of-row rows t p is_current id prev older visited ht hp
      (f, v, apart, (f', v', apart', c)) newer =
    let found : find? (is_of t prev) rows ≡ some (row t p false prev older) =
      find_of t prev rows f' (rw (eq_refl t, eq_refl prev) refl) in
    let valid =
      row-validated t p false prev older ht hp v' apart' (Chain-valid rows t p false older c) in
    let fresh =
      not_visited rows (suc (suc (length older))) prev (row t p false prev older) visited f'
        (omega arith) newer in
    rw (found, valid, fresh, eq_refl p) (ground arith)

-- The walk down a chain ends well, with any fuel from the number of its ids on.
walk-Chain :
    (rows : Table) (t p : String) (ids : List String) (is_current : Bool) (id : String)
    (visited : List String) (fuel : ℕ)
    → tenant t ≡ ok t
    → fingerprint p ≡ ok p
    → Chain rows t p is_current (id ∷ ids)
    → All (IsNewer rows (suc (length ids))) visited
    → suc (length ids) ≤ fuel
    → walk fuel rows p visited (row t p is_current id ids) ≡ ok tt
unfolding walk
walk-Chain rows t p ids is_current id visited zero ht hp c newer le = absurd (omega (arith, le))
walk-Chain rows t p [] is_current id visited (suc fuel) ht hp c newer le = refl
walk-Chain rows t p (prev ∷ older) is_current id visited (suc fuel) ht hp c newer le =
    let step = predecessor_of-row rows t p is_current id prev older visited ht hp c newer in
    let chain = c.3 in
    let rest =
      walk-Chain rows t p older false prev (prev ∷ visited) fuel ht hp chain
        (
          (row t p false prev older, chain.0, omega arith),
          weaken rows (suc (length older)) visited newer,
        )
        (omega (arith, le)) in
    ground (arith, step, rest)

pub validate_lineage-Chain :
    (rows : Table) (t p : String) (is_current : Bool) (id : String) (ids : List String)
    → tenant t ≡ ok t
    → fingerprint p ≡ ok p
    → Chain rows t p is_current (id ∷ ids)
    → validate_lineage rows (row t p is_current id ids) ≡ ok (row t p is_current id ids)
unfolding validate_lineage
validate_lineage-Chain rows t p is_current id ids ht hp (f, v, apart, c) =
    let valid =
      row-validated t p is_current id ids ht hp v apart (Chain-valid rows t p false ids c) in
    let walked =
      walk-Chain rows t p ids is_current id (id ∷ []) (suc (suc (length ids))) ht hp
        (f, v, apart, c) ((row t p is_current id ids, f, omega arith), tt) (omega arith) in
    rw (valid, walked) refl

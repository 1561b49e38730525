-- ===== src/Claims/Revisions/Histories.antt =====
-- The rows of the table as histories of findings, and what an amendment makes of the rows.
use obrasignal.Base.{
  ◌≡◌, refl, suc, ◌≤◌, String, Bool, true, false, ◌&&◌, some, List, [], ◌∷◌, ◌++◌, arith, All, inl,
  inr, Bool-cases, find?, update, count_if, length, ◌∙◌, if◌then◌else◌,
}
use obrasignal.Base.Text.{◌==◌, eq_iff, eq_refl}
use obrasignal.Base.Result.{ok}
use obrasignal.Claims.Revisions.{
  Revision, Table, finding, has_id, in_lineage, is_current_of, same_number, insert, retired,
}
use obrasignal.Claims.Revisions.Chains.{Chain, row}

-- A history of each tenant and fingerprint, the newest finding first.
abbrev pub Histories : Type 0
Histories = String → String → List String

abbrev pub same_key : (t p t' p' : String) → Bool
same_key t p t' p' = t == t' && p == p'

-- The abstract amendment.
abbrev pub push : (t p id : String) → Histories → Histories
push t p id h t' p' = if same_key t p t' p' then id ∷ h t' p' else h t' p'

-- The rows of one key hold its history: the newest is the only current row, and no number is higher.
pub record Holds (rows : Table) (t p id : String) (older : List String) : Type 0 where
  pub chain : Chain rows t p true (id ∷ older)
  pub one_current : All (λ r. is_current_of t p r ≡ true → has_id id r ≡ true) rows
  pub numbered : All (λ r. in_lineage t p r ≡ true → r.revision ≤ suc (length older)) rows

abbrev pub HoldsAll : Table → (t p : String) → List String → Type 0
HoldsAll rows t p [] = All (λ r. in_lineage t p r ≡ false) rows
HoldsAll rows t p (id ∷ older) = Holds rows t p id older

abbrev pub Refines : Table → Histories → Type 0
Refines rows h = (t p : String) → HoldsAll rows t p (h t p)

abbrev pub amended : Table → (t p current new : String) (older : List String) → Table
amended rows t p current new older =
    update (has_id current) retired rows ++ row t p true new (current ∷ older) ∷ []

pub find?-append :
    {A : Type 0} (p : A → Bool) (xs : List A) (y : A) {x : A}
    → find? p xs ≡ some x
    → find? p (xs ++ y ∷ []) ≡ some x
find?-append p [] y h = absurd (ground arith)
find?-append p (z ∷ zs) y {x} h = elim (Bool-cases (p z)) [
  | inl e ↦ ground (arith, e)
  | inr e ↦ ground (arith, e, find?-append p zs y {x = x})
]

pub find?-append_new :
    {A : Type 0} (p : A → Bool) (xs : List A) (y : A)
    → count_if p xs ≡ 0
    → p y ≡ true
    → find? p (xs ++ y ∷ []) ≡ some y
find?-append_new p [] y none_yet hit = rw hit refl
find?-append_new p (z ∷ zs) y none_yet hit = elim (Bool-cases (p z)) [
  | inl e ↦ absurd (ground (arith, e))
  | inr e ↦ ground (arith, e, find?-append_new p zs y)
]

count_if-update_same :
    {A : Type 0} (p q : A → Bool) (f : A → A)
    → ((x : A) → p (f x) ≡ p x)
    → (xs : List A) → count_if p (update q f xs) ≡ count_if p xs
count_if-update_same p q f kept [] = refl
count_if-update_same p q f kept (x ∷ xs) = elim (Bool-cases (q x)) [
  | inl e ↦ rw (e, kept x, count_if-update_same p q f kept xs)
  | inr e ↦ rw (e, count_if-update_same p q f kept xs)
]

find?-update_any :
    (id key : String) (rows : Table) {r : Revision}
    → find? (has_id id) rows ≡ some r
    → find? (has_id id) (update (has_id key) retired rows)
      ≡ some (if has_id key r then retired r else r)
find?-update_any id key [] f = absurd (ground arith)
find?-update_any id key (q ∷ rows) {r} f = elim (Bool-cases (has_id id q)) [
  | inl e ↦ elim (Bool-cases (has_id key q)) [
    | inl g ↦ ground (arith, e, g)
    | inr g ↦ ground (arith, e, g)
  ]
  | inr e ↦ elim (Bool-cases (has_id key q)) [
    | inl g ↦ ground (arith, e, g, find?-update_any id key rows {r = r})
    | inr g ↦ ground (arith, e, g, find?-update_any id key rows {r = r})
  ]
]

-- Superseded rows are not touched by another amendment.
Chain-update :
    (rows : Table) (t p key : String) (y : Revision) (ids : List String)
    → Chain rows t p false ids
    → Chain (update (has_id key) retired rows ++ y ∷ []) t p false ids
Chain-update rows t p key y [] c = tt
Chain-update rows t p key y (id ∷ older) (f, v, apart, c) =
    let kept : find? (has_id id) (update (has_id key) retired rows)
        ≡ some (row t p false id older) =
      elim (Bool-cases (id == key)) [
        | inl e ↦ ground (arith, e, find?-update_any id key rows f)
        | inr e ↦ ground (arith, e, find?-update_any id key rows f)
      ] in
    (
      find?-append (has_id id) (update (has_id key) retired rows) y kept,
      v,
      apart,
      Chain-update rows t p key y older c,
    )

-- What no row of a table has, none of the amended one has.
All-amended :
    {P Q : Revision → Type 0} (key : String) (y : Revision)
    → ((r : Revision) → P r → has_id key r ≡ false → Q r)
    → ((r : Revision) → P r → has_id key r ≡ true → Q (retired r))
    → Q y
    → (rows : Table) → All P rows
    → All Q (update (has_id key) retired rows ++ y ∷ [])
All-amended key y other hit new [] all = (new, tt)
All-amended {P} {Q} key y other hit new (r ∷ rows) (a, all) = elim (Bool-cases (has_id key r)) [
  | inl e ↦ rw e (hit r a e, All-amended key y other hit new rows all)
  | inr e ↦ rw e (other r a e, All-amended key y other hit new rows all)
]

pub count_if-none :
    {A : Type 0} (p : A → Bool) (xs : List A) → All (λ x. p x ≡ false) xs → count_if p xs ≡ 0
count_if-none p [] all = refl
count_if-none p (x ∷ xs) (a, all) = ground (arith, a, count_if-none p xs all)

no_number :
    (t p current new : String) (older : List String) (rows : Table)
    → All (λ r. in_lineage t p r ≡ true → r.revision ≤ suc (length older)) rows
    → All (λ r. same_number (row t p true new (current ∷ older)) r ≡ false) rows
no_number t p current new older [] all = tt
no_number t p current new older (r ∷ rows) (a, all) = elim (Bool-cases (in_lineage t p r)) [
  | inl e ↦ let le = a e in (ground (arith, e, le), no_number t p current new older rows all)
  | inr e ↦ (rw e refl, no_number t p current new older rows all)
]

none_current :
    (t p key : String) (rows : Table)
    → All (λ r. is_current_of t p r ≡ true → has_id key r ≡ true) rows
    → count_if (is_current_of t p) (update (has_id key) retired rows) ≡ 0
none_current t p key [] all = refl
none_current t p key (r ∷ rows) (a, all) = elim (Bool-cases (has_id key r)) [
  | inl e ↦ ground (arith, e, none_current t p key rows all)
  | inr e ↦ elim (Bool-cases (is_current_of t p r)) [
    | inl c ↦ let hit = a c in absurd (ground (arith, e, hit))
    | inr c ↦ ground (arith, e, c, none_current t p key rows all)
  ]
]

module _ (rows : Table) (t p current new : String) (older : List String)
    (valid_new : finding new ≡ ok new) (fresh : count_if (has_id new) rows ≡ 0)
    (apart : (current == new) ≡ false) (holds : Holds rows t p current older) where
  pub insert-amended :
      insert (row t p true new (current ∷ older)) (update (has_id current) retired rows)
      ≡ ok (amended rows t p current new older)
  unfolding insert
  insert-amended =
      let ids : count_if (has_id new) (update (has_id current) retired rows) ≡ 0 =
        count_if-update_same (has_id new) (has_id current) retired (λ r. refl) rows ∙ fresh in
      let y = row t p true new (current ∷ older) in
      let numbers : count_if (same_number y) (update (has_id current) retired rows) ≡ 0 =
        count_if-update_same (same_number y) (has_id current) retired (λ r. refl) rows
        ∙ count_if-none (same_number y) rows
            (no_number t p current new older rows holds.numbered) in
      rw (ids, numbers, none_current t p current rows holds.one_current) refl

  -- The amended key.
  pub amended-Holds : Holds (amended rows t p current new older) t p new (current ∷ older)
  amended-Holds = record {
    chain = (
      find?-append_new (has_id new) (update (has_id current) retired rows) _
          (count_if-update_same (has_id new) (has_id current) retired (λ r. refl) rows ∙ fresh)
          (eq_refl new),
      valid_new,
      apart,
      superseded,
    );
    one_current =
        All-amended current _ (λ r a e. λ c. absurd (ground (arith, e, a c)))
          (λ r a e. λ c. ground arith) (λ c. eq_refl new) rows holds.one_current;
    numbered =
        All-amended current _ (λ r a e. λ c. omega (arith, a c)) (λ r a e. λ c. omega (arith, a c))
          (λ c. omega arith) rows holds.numbered;
  }
    where
      superseded : Chain (amended rows t p current new older) t p false (current ∷ older)
      superseded =
          let (f, v, apart', c) = holds.chain in
          let moved : find? (has_id current) (update (has_id current) retired rows)
              ≡ some (row t p false current older) =
            ground (arith, eq_refl current, find?-update_any current current rows f) in
          (
            find?-append (has_id current) (update (has_id current) retired rows) _ moved,
            v,
            apart',
            Chain-update rows t p current _ older c,
          )

  -- Another key keeps its history.
  pub amended-HoldsAll :
      (t' p' : String) (ids : List String)
      → same_key t p t' p' ≡ false
      → HoldsAll rows t' p' ids
      → HoldsAll (amended rows t p current new older) t' p' ids
  amended-HoldsAll t' p' [] other all =
      All-amended current _ (λ r a e. a) (λ r a e. a) other rows all
  amended-HoldsAll t' p' (id ∷ ids) other holds' = record {
    chain = (
      find?-append (has_id id) (update (has_id current) retired rows) _ kept,
      holds'.chain.1,
      holds'.chain.2,
      Chain-update rows t' p' current _ ids holds'.chain.3,
    );
    one_current =
        All-amended current _ (λ r a e. a) (λ r a e. λ c. absurd (ground arith))
          (λ c. absurd (ground (arith, other, c))) rows holds'.one_current;
    numbered =
        All-amended current _ (λ r a e. a) (λ r a e. a) (λ c. absurd (ground (arith, other, c)))
          rows holds'.numbered;
  }
    where
      kept : find? (has_id id) (update (has_id current) retired rows) ≡ some (row t' p' true id ids)
      kept = elim (Bool-cases (id == current)) [
        | inr e ↦ ground (arith, e, find?-update_any id current rows holds'.chain.0)
        | inl e ↦
            let same : id ≡ current = (eq_iff id current).0 e in
            let f : find? (has_id current) rows ≡ some (row t' p' true id ids) =
              rw (← same) holds'.chain.0 in
            absurd (ground (arith, other, f, holds.chain.0, eq_refl t, eq_refl p))
      ]

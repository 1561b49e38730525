-- ===== src/Claims/Proofs/Chains.antt =====
-- A chain that passes the verification, newest event first, and what it holds.
use mathlib.Core.List.{reverse_aux}
use obrasignal.Base.{
  ◌≡◌, refl, ℕ, suc, String, Bool, true, false, Option, none, some, List, [], ◌∷◌, ◌++◌, arith, inl,
  inr, Option-cases,
}
use obrasignal.Base.Json.{Json}
use obrasignal.Base.Text.{◌==◌, eq_iff, opt_eq, opt_eq→≡, opt_eq_refl, eq_refl}
use obrasignal.Claims.Proofs.{
  Event, hash_of, row_errors, verify_rows, unless, ChainError, payload_hash_mismatch,
  previous_hash_mismatch,
}

pub ++-empty : {A : Type 0} (xs ys : List A) → xs ++ ys ≡ [] → (xs ≡ []) × (ys ≡ [])
++-empty [] ys h = (refl, h)
++-empty (x ∷ xs) ys h = cc

unless-empty : (b : Bool) (e : ChainError) → unless b e ≡ [] → b ≡ true
unless-empty true e h = refl
unless-empty false e h = cc

module _ (sha256 : String → String) (canonical : Json → String) (loads : String → Option Json) where
  -- An event whose payload reads back to a value with its digest, and whose hash is the one of its
  -- fields.
  pub record IsIntact (e : Event) : Type 0 where
    pub payload : Json
    pub reads : loads e.payload_json ≡ some payload
    pub digested : sha256 (canonical payload) ≡ e.payload_sha256
    pub hashed : hash_of sha256 canonical loads e ≡ e.chain_hash

  abbrev pub Linked : List Event → (head : Option String) → Type 0
  Linked [] head = head ≡ none
  Linked (e ∷ es) head = (head ≡ some e.chain_hash) × IsIntact e × Linked es e.previous_chain_hash

  row_errors-empty :
      (index : ℕ) (previous : Option String) (payload : Json) (e : Event)
      → loads e.payload_json ≡ some payload
      → row_errors sha256 canonical loads index previous payload e ≡ []
      → IsIntact e × (e.previous_chain_hash ≡ previous)
  unfolding row_errors
  row_errors-empty index previous payload e reads h =
      let a =
        ++-empty
          (unless (sha256 (canonical payload) == e.payload_sha256) (payload_hash_mismatch index)
            ++ unless (opt_eq e.previous_chain_hash previous) (previous_hash_mismatch index))
          _ h in
      let b =
        ++-empty
          (unless (sha256 (canonical payload) == e.payload_sha256) (payload_hash_mismatch index)) _
          a.0 in
      (
        record {
          payload = payload;
          reads = reads;
          digested =
              (eq_iff (sha256 (canonical payload)) e.payload_sha256).0 (unless-empty _ _ b.0);
          hashed =
              (eq_iff (hash_of sha256 canonical loads e) e.chain_hash).0 (unless-empty _ _ a.1);
        },
        opt_eq→≡ e.previous_chain_hash previous (unless-empty _ _ b.1),
      )

  IsIntact-row_errors :
      (index : ℕ) (e : Event) (intact : IsIntact e)
      → row_errors sha256 canonical loads index e.previous_chain_hash intact.payload e ≡ []
  unfolding row_errors
  IsIntact-row_errors index e intact =
      rw
        (
          intact.digested,
          intact.hashed,
          eq_refl e.payload_sha256,
          eq_refl e.chain_hash,
          opt_eq_refl e.previous_chain_hash,
        )
        refl

  -- Rows without an error, on top of a chain that ends where they start, are a chain.
  pub verify_rows-Linked :
      (index : ℕ) (previous : Option String) (rows : List Event) (older : List Event)
      → (verify_rows sha256 canonical loads index previous rows).0 ≡ []
      → Linked older previous
      → Linked (reverse_aux rows older) (verify_rows sha256 canonical loads index previous rows).1
  unfolding verify_rows
  verify_rows-Linked index previous [] older h linked = linked
  verify_rows-Linked index previous (e ∷ rows) older h linked =
      elim (Option-cases (loads e.payload_json)) [
        | inl failed ↦ absurd (ground (arith, failed, h))
        | inr (payload, reads) ↦
            let found : row_errors sha256 canonical loads index previous payload e
                  ++ (verify_rows sha256 canonical loads (suc index) (some e.chain_hash) rows).0
                ≡ [] =
              ground (arith, reads, h) in
            let parts =
              ++-empty (row_errors sha256 canonical loads index previous payload e) _ found in
            let intact = row_errors-empty index previous payload e reads parts.0 in
            let linked_here : Linked (e ∷ older) (some e.chain_hash) =
              (refl, intact.0, rw (intact.1) linked) in
            rw (reads, verify_rows)
              (verify_rows-Linked (suc index) (some e.chain_hash) rows (e ∷ older) parts.1
                linked_here)
      ]

  -- An intact event on top of rows without an error, linked to the last hash, adds no error and is the
  -- new head.
  pub verify_rows-append :
      (index : ℕ) (previous : Option String) (rows : List Event) (e : Event)
      → IsIntact e
      → (verify_rows sha256 canonical loads index previous rows).0 ≡ []
      → (verify_rows sha256 canonical loads index previous rows).1 ≡ e.previous_chain_hash
      → verify_rows sha256 canonical loads index previous (rows ++ e ∷ []) ≡ ([], some e.chain_hash)
  unfolding verify_rows
  verify_rows-append index previous [] e intact clean linked =
      let same : previous ≡ e.previous_chain_hash = linked in
      rw (intact.reads, verify_rows, same, IsIntact-row_errors index e intact) refl
  verify_rows-append index previous (r ∷ rows) e intact clean linked =
      elim (Option-cases (loads r.payload_json)) [
        | inl failed ↦ absurd (ground (arith, failed, clean))
        | inr (payload, reads) ↦
            let found : row_errors sha256 canonical loads index previous payload r
                  ++ (verify_rows sha256 canonical loads (suc index) (some r.chain_hash) rows).0
                ≡ [] =
              ground (arith, reads, clean) in
            let parts =
              ++-empty (row_errors sha256 canonical loads index previous payload r) _ found in
            let last : (verify_rows sha256 canonical loads (suc index) (some r.chain_hash) rows).1
                ≡ e.previous_chain_hash =
              ground (arith, reads, linked) in
            rw
              (
                reads,
                verify_rows,
                verify_rows-append (suc index) (some r.chain_hash) rows e intact parts.1 last,
                parts.0,
              )
              refl
      ]

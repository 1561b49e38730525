-- ===== src/Claims/Proofs/Binding.antt =====
-- What the head of a chain, and a certificate that records it, determine.
use mathlib.Core.List.{reverse, reverse-reverse}
use mathlib.Mathlib.Data.List.Basic.{map-reverse_aux}
use obrasignal.Base.{
  ◌≡◌, refl, sym, ap, ◌∙◌, ℕ, String, true, Option, none, some, List, [], ◌∷◌, map, arith, inl, inr,
  ◌⊎◌, ◌≢◌, Bool-cases, Option-cases,
}
use obrasignal.Base.Json.{Json}
use obrasignal.Base.Text.{◌==◌, eq_iff, eq_refl}
use obrasignal.Base.Result.{ok, Result-cases}
use obrasignal.Claims.Stripped.{required_after-again}
use obrasignal.Claims.Fields.{required_after}
use obrasignal.Claims.Proofs.{
  Event, hash_of, Ledger, Certificate, checked, chain_payload, chain_of, verification, verify_rows,
  verify_chain, none_left, ChainError,
}
use obrasignal.Claims.Proofs.Certificates.{issue_certificate, insert_certificate}
use obrasignal.Claims.Proofs.Chains.{IsIntact, Linked, verify_rows-Linked}
use obrasignal.Claims.Proofs.Contents.{chain_payload-cases, chain_payload-links, content}

module _ (sha256 : String → String) (canonical : Json → String) (loads : String → Option Json) where
  -- A collision of the digest: two texts, or two events that differ in a field under their hash.
  pub data Collision : Type 0 where
    of_texts : (a b : String) → a ≢ b → sha256 a ≡ sha256 b → Collision
    of_events :
        (a b : Event)
        → chain_payload a ≢ chain_payload b
        → hash_of sha256 canonical loads a ≡ hash_of sha256 canonical loads b
        → Collision

  digest-cases : (a b : String) → sha256 a ≡ sha256 b → (a ≡ b) ⊎ Collision
  digest-cases a b h = elim (Bool-cases (a == b)) [
    | inl e ↦ inl ((eq_iff a b).0 e)
    | inr e ↦ inr (of_texts a b (λ same. ground (arith, e, same, eq_refl b)) h)
  ]

  IsIntact-content :
      (e : Event) (intact : IsIntact sha256 canonical loads e)
      → content canonical loads e ≡ (chain_payload e, some (canonical intact.payload))
  IsIntact-content e intact = rw (intact.reads) refl

  IsIntact-binds :
      (a b : Event)
      → IsIntact sha256 canonical loads a
      → IsIntact sha256 canonical loads b
      → a.chain_hash ≡ b.chain_hash
      → ((content canonical loads a ≡ content canonical loads b)
          × (a.previous_chain_hash ≡ b.previous_chain_hash))
        ⊎ Collision
  IsIntact-binds a b x y same =
      let hashes : hash_of sha256 canonical loads a ≡ hash_of sha256 canonical loads b =
        x.hashed ∙ same ∙ sym (y.hashed) in
      elim (chain_payload-cases a b) [
        | inr apart ↦ inr (of_events a b apart hashes)
        | inl payloads ↦
            let links = chain_payload-links a b payloads in
            let digests : sha256 (canonical x.payload) ≡ sha256 (canonical y.payload) =
              x.digested ∙ links.0 ∙ sym (y.digested) in
            elim (digest-cases (canonical x.payload) (canonical y.payload) digests) [
              | inr c ↦ inr c
              | inl values ↦
                  inl (
                    rw (IsIntact-content a x, IsIntact-content b y, payloads, values) refl,
                    links.1,
                  )
            ]
      ]

  Linked-binds :
      (xs ys : List Event) (head : Option String)
      → Linked sha256 canonical loads xs head
      → Linked sha256 canonical loads ys head
      → (map (content canonical loads) xs ≡ map (content canonical loads) ys) ⊎ Collision
  Linked-binds [] [] head p q = inl refl
  Linked-binds [] (y ∷ ys) head p (q, b, rest) = absurd (ground (arith, p, q))
  Linked-binds (x ∷ xs) [] head (p, a, rest) q = absurd (ground (arith, p, q))
  Linked-binds (x ∷ xs) (y ∷ ys) head (p, a, older) (q, b, older') =
      let same : x.chain_hash ≡ y.chain_hash = cc in
      elim (IsIntact-binds x y a b same) [
        | inr c ↦ inr c
        | inl (contents, links) ↦
            let moved : Linked sha256 canonical loads ys x.previous_chain_hash =
              rw (links) older' in
            elim (Linked-binds xs ys x.previous_chain_hash older moved) [
              | inr c ↦ inr c
              | inl rest ↦ inl (rw (contents, rest) refl)
            ]
      ]

  map-unreverse :
      (xs ys : List Event)
      → map (content canonical loads) (reverse xs) ≡ map (content canonical loads) (reverse ys)
      → map (content canonical loads) xs ≡ map (content canonical loads) ys
  map-unreverse xs ys h =
      let twice : (zs : List Event)
          → reverse (map (content canonical loads) (reverse zs))
            ≡ map (content canonical loads) zs =
        (λ zs.
          sym (map-reverse_aux (content canonical loads) (reverse zs) [])
          ∙ ap (map (content canonical loads)) (reverse-reverse zs)) in
      sym (twice xs) ∙ ap reverse h ∙ twice ys

  pub none_left-empty : (errors : List ChainError) → none_left errors ≡ true → errors ≡ []
  none_left-empty [] h = refl
  none_left-empty (e ∷ es) h = cc

  verification-Linked :
      (t s : String) (events : List Event)
      → (verification sha256 canonical loads t s events).valid ≡ true
      → Linked sha256 canonical loads
          (reverse (chain_of t s events))
          (verification sha256 canonical loads t s events).chain_head_sha256
  unfolding verification
  verification-Linked t s events valid =
      verify_rows-Linked sha256 canonical loads 0 none (chain_of t s events) []
        (none_left-empty (verify_rows sha256 canonical loads 0 none (chain_of t s events)).0 valid)
        refl

  -- Two tables of events of which the chains of two subjects pass the verification with the same head
  -- hold the same chain: the same fields and the same payloads, in the same order. Otherwise the
  -- proof gives two texts with one digest.
  verification_binding :
      (t s t' s' : String) (events events' : List Event)
      → (verification sha256 canonical loads t s events).valid ≡ true
      → (verification sha256 canonical loads t' s' events').valid ≡ true
      → (verification sha256 canonical loads t s events).chain_head_sha256
        ≡ (verification sha256 canonical loads t' s' events').chain_head_sha256
      → (map (content canonical loads) (chain_of t s events)
          ≡ map (content canonical loads) (chain_of t' s' events'))
        ⊎ Collision
  verification_binding t s t' s' events events' valid valid' same =
      let linked = verification-Linked t s events valid in
      let linked' = verification-Linked t' s' events' valid' in
      elim (Linked-binds (reverse (chain_of t s events)) (reverse (chain_of t' s' events'))
        (verification sha256 canonical loads t s events).chain_head_sha256 linked
        (rw (same) linked')) [
          | inr c ↦ inr c
          | inl contents ↦
              inl (map-unreverse (chain_of t s events) (chain_of t' s' events') contents)
        ]

  checked-again :
      (value label : String) (max_chars : ℕ) (text : String)
      → checked value label max_chars ≡ ok text
      → checked text label max_chars ≡ ok text
  unfolding checked
  checked-again value label max_chars text h =
      elim (Option-cases (required_after max_chars value)) [
        | inl e ↦ absurd (ground (arith, e, h))
        | inr (found, e) ↦
            let same : found ≡ text = ground (arith, e, h) in
            let again = required_after-again max_chars value found e in
            rw (← same, checked, again) refl
      ]

  issue_certificate-verified :
      (id tenant subject : String) (revision : ℕ) (m256 m512 : String) (merkle : Option String)
      (state : String) (older : Option String) (now : String) (seen l l' : Ledger) (c : Certificate)
      → issue_certificate sha256 canonical loads id tenant subject revision m256 m512 merkle state
          older now seen l
        ≡ ok (c, l')
      → ((verification sha256 canonical loads c.tenant_id c.subject_ref seen.events).valid ≡ true)
        × (c.chain_head_sha256
            ≡ (verification sha256 canonical loads c.tenant_id c.subject_ref
                seen.events).chain_head_sha256)
  unfolding issue_certificate insert_certificate verify_chain
  issue_certificate-verified id tenant subject revision m256 m512 merkle state older now seen l l' c
        issued =
      elim (Result-cases (checked tenant "tenant_id" 128)) [
        | inr (e, failed) ↦ absurd (ground (arith, issued, failed))
        | inl (t, is_t) ↦ elim (Result-cases (checked subject "subject_ref" 4096)) [
          | inr (e, failed) ↦ absurd (ground (arith, issued, is_t, failed))
          | inl (s, is_s) ↦
              let again_t = checked-again tenant "tenant_id" 128 t is_t in
              let again_s = checked-again subject "subject_ref" 4096 s is_s in
              ground (arith, issued, is_t, is_s, again_t, again_s)
        ]
      ]

  -- A certificate that was issued pins the chain that was verified for it, whatever was written
  -- between the verification and the insertion: any table of which the chain of the same subject passes
  -- the verification with the head on the certificate holds the same fields and payloads as the table
  -- had at the verification, in the same order. Otherwise the proof gives a collision.
  pub issue_certificate_binding :
      (id tenant subject : String) (revision : ℕ) (m256 m512 : String) (merkle : Option String)
      (state : String) (older : Option String) (now : String) (seen l l' : Ledger) (c : Certificate)
      (events : List Event)
      → issue_certificate sha256 canonical loads id tenant subject revision m256 m512 merkle state
          older now seen l
        ≡ ok (c, l')
      → (verification sha256 canonical loads c.tenant_id c.subject_ref events).valid ≡ true
      → (verification sha256 canonical loads c.tenant_id c.subject_ref events).chain_head_sha256
        ≡ c.chain_head_sha256
      → (map (content canonical loads) (chain_of c.tenant_id c.subject_ref events)
          ≡ map (content canonical loads) (chain_of c.tenant_id c.subject_ref seen.events))
        ⊎ Collision
  issue_certificate_binding id tenant subject revision m256 m512 merkle state older now seen l l' c
        events issued valid head =
      let v =
        issue_certificate-verified id tenant subject revision m256 m512 merkle state older now seen
          l l' c issued in
      verification_binding c.tenant_id c.subject_ref c.tenant_id c.subject_ref events seen.events
        valid v.0 (head ∙ v.1)

-- ===== src/Claims/Proofs/Contents.antt =====
-- What an event says, and when two events say the same.
use obrasignal.Base.{
  ◌≡◌, refl, String, Bool, true, ◌&&◌, Option, none, some, arith, inl, inr, ◌⊎◌, ◌≢◌, Bool-cases,
}
use obrasignal.Base.Json.{Json}
use obrasignal.Base.Text.{◌==◌, eq_iff, eq_refl, opt_eq, opt_eq→≡, opt_eq_refl}
use obrasignal.Claims.Proofs.{Event, chain_payload, opt_json}

opt_json-injective : (a b : Option String) → opt_json a ≡ opt_json b → a ≡ b
opt_json-injective none none h = refl
opt_json-injective none (some b) h = cc
opt_json-injective (some a) none h = cc
opt_json-injective (some a) (some b) h = cc

abbrev same_fields : Event → Event → Bool
same_fields a b =
    a.event_id == b.event_id
    && a.tenant_id == b.tenant_id
    && a.subject_ref == b.subject_ref
    && a.event_type == b.event_type
    && a.actor_id == b.actor_id
    && a.first_seen_at == b.first_seen_at
    && opt_eq a.effective_at b.effective_at
    && opt_eq a.source_ref b.source_ref
    && a.payload_sha256 == b.payload_sha256
    && opt_eq a.previous_chain_hash b.previous_chain_hash

same_fields-true : (a b : Event) → same_fields a b ≡ true → chain_payload a ≡ chain_payload b
unfolding chain_payload
same_fields-true a b h =
    let e_event_id : a.event_id ≡ b.event_id =
      (eq_iff a.event_id b.event_id).0 (ground (arith, h)) in
    let e_tenant_id : a.tenant_id ≡ b.tenant_id =
      (eq_iff a.tenant_id b.tenant_id).0 (ground (arith, h)) in
    let e_subject_ref : a.subject_ref ≡ b.subject_ref =
      (eq_iff a.subject_ref b.subject_ref).0 (ground (arith, h)) in
    let e_event_type : a.event_type ≡ b.event_type =
      (eq_iff a.event_type b.event_type).0 (ground (arith, h)) in
    let e_actor_id : a.actor_id ≡ b.actor_id =
      (eq_iff a.actor_id b.actor_id).0 (ground (arith, h)) in
    let e_first_seen_at : a.first_seen_at ≡ b.first_seen_at =
      (eq_iff a.first_seen_at b.first_seen_at).0 (ground (arith, h)) in
    let e_effective_at : a.effective_at ≡ b.effective_at =
      opt_eq→≡ a.effective_at b.effective_at (ground (arith, h)) in
    let e_source_ref : a.source_ref ≡ b.source_ref =
      opt_eq→≡ a.source_ref b.source_ref (ground (arith, h)) in
    let e_payload_sha256 : a.payload_sha256 ≡ b.payload_sha256 =
      (eq_iff a.payload_sha256 b.payload_sha256).0 (ground (arith, h)) in
    let e_previous_chain_hash : a.previous_chain_hash ≡ b.previous_chain_hash =
      opt_eq→≡ a.previous_chain_hash b.previous_chain_hash (ground (arith, h)) in
    rw
      (
        e_event_id, e_tenant_id, e_subject_ref, e_event_type, e_actor_id, e_first_seen_at,
        e_effective_at, e_source_ref, e_payload_sha256, e_previous_chain_hash,
      )
      refl

chain_payload-same_fields :
    (a b : Event) → chain_payload a ≡ chain_payload b → same_fields a b ≡ true
unfolding chain_payload
chain_payload-same_fields a b h =
    let e_event_id : a.event_id ≡ b.event_id = cc in
    let e_tenant_id : a.tenant_id ≡ b.tenant_id = cc in
    let e_subject_ref : a.subject_ref ≡ b.subject_ref = cc in
    let e_event_type : a.event_type ≡ b.event_type = cc in
    let e_actor_id : a.actor_id ≡ b.actor_id = cc in
    let e_first_seen_at : a.first_seen_at ≡ b.first_seen_at = cc in
    let e_effective_at : a.effective_at ≡ b.effective_at =
      opt_json-injective a.effective_at b.effective_at cc in
    let e_source_ref : a.source_ref ≡ b.source_ref =
      opt_json-injective a.source_ref b.source_ref cc in
    let e_payload_sha256 : a.payload_sha256 ≡ b.payload_sha256 = cc in
    let e_previous_chain_hash : a.previous_chain_hash ≡ b.previous_chain_hash =
      opt_json-injective a.previous_chain_hash b.previous_chain_hash cc in
    ground (
      arith,
      e_event_id,
      e_tenant_id,
      e_subject_ref,
      e_event_type,
      e_actor_id,
      e_first_seen_at,
      e_effective_at,
      e_source_ref,
      e_payload_sha256,
      e_previous_chain_hash,
      eq_refl b.event_id,
      eq_refl b.tenant_id,
      eq_refl b.subject_ref,
      eq_refl b.event_type,
      eq_refl b.actor_id,
      eq_refl b.first_seen_at,
      eq_refl b.payload_sha256,
      opt_eq_refl b.effective_at,
      opt_eq_refl b.source_ref,
      opt_eq_refl b.previous_chain_hash,
    )

pub chain_payload-cases :
    (a b : Event) → (chain_payload a ≡ chain_payload b) ⊎ (chain_payload a ≢ chain_payload b)
chain_payload-cases a b = elim (Bool-cases (same_fields a b)) [
  | inl e ↦ inl (same_fields-true a b e)
  | inr e ↦ inr (λ same. let f = chain_payload-same_fields a b same in ground (arith, e, f))
]

pub chain_payload-links :
    (a b : Event)
    → chain_payload a ≡ chain_payload b
    → (a.payload_sha256 ≡ b.payload_sha256) × (a.previous_chain_hash ≡ b.previous_chain_hash)
unfolding chain_payload
chain_payload-links a b h =
    let previous : opt_json a.previous_chain_hash ≡ opt_json b.previous_chain_hash = cc in
    (cc, opt_json-injective a.previous_chain_hash b.previous_chain_hash previous)

-- What an event says: the fields under its hash, and its payload in the canonical form.
abbrev pub content :
    (canonical : Json → String) (loads : String → Option Json) → Event → Json × Option String
content canonical loads e =
    (chain_payload e, elim (loads e.payload_json) [ none ↦ none | some v ↦ some (canonical v) ])

-- ===== src/Claims/Proofs/Attestations.antt =====
-- vertical_apps/industrial_claims/proof_store.py: the attestations of a subject.
use Prim.Native.String
use obrasignal.Base.{
  ℕ, String, Bool, not, ◌&&◌, ◌||◌, Option, none, [], ◌∷◌, ◌++◌, any, leb, if◌then◌else◌,
  ◌==◌ as nat_eq,
}
use obrasignal.Base.Text.{◌==◌, present, member}
use obrasignal.Base.Json.{Json}
use obrasignal.Base.Result.{Result, ok, ◌>>=◌, ◌>>◌, raise_if}
use obrasignal.Claims.Fields.{any_char}
use obrasignal.Claims.Proofs.{
  Ledger, ProofError, unsupported_algorithm, invalid_digest, reference_required, constraint,
  checked, checked_optional, parse_iso_optional,
}

module _ (canonical : Json → String) (utc_of : String → Option (Option String)) where
  abbrev pub is_hex : ℕ → Bool
  is_hex c = (leb 48 c && leb c 57) || (leb 97 c && leb c 102)

  -- `_required(provider_ref, …) if provider_ref else None`
  abbrev checked_reference : Option String → Result ProofError (Option String)
  checked_reference r = if present r then checked_optional r "provider_ref" else ok none

  -- `upper` and `lower` are `str.upper` and `str.lower`.
  unfoldable pub record_attestation :
      (upper lower : String → String)
      (attestation_id tenant_id subject_ref kind provider state digest_algorithm digest : String)
      (payload : Json) (provider_ref issued_at : Option String) (now : String)
      → Ledger
      → Result ProofError Ledger
  unfolding checked checked_optional parse_iso_optional any_char
  record_attestation upper lower attestation_id tenant_id subject_ref kind provider state
        digest_algorithm digest payload provider_ref issued_at now l =
      do
        attestation ← checked attestation_id "attestation_id" 4096
        t ← checked tenant_id "tenant_id" 128
        s ← checked subject_ref "subject_ref" 4096
        proof_kind ← checked kind "kind" 128
        provider_name ← checked provider "provider" 256
        raw_state ← checked state "state" 64
        raw_algorithm ← checked digest_algorithm "digest_algorithm" 32
        raw_digest ← checked digest "digest" 256
        let algorithm = upper raw_algorithm in
            do
              raise_if (not (member algorithm ("SHA-256" ∷ "SHA-512" ∷ []))) unsupported_algorithm
              let expected_length = if algorithm == "SHA-256" then 64 else 128 in
                  do
                    raise_if
                        (not (nat_eq (String.count (lower raw_digest)) expected_length)
                          || any_char (λ c. not (is_hex c)) (lower raw_digest))
                        invalid_digest
                    reference ← checked_reference provider_ref
                    raise_if
                        (member (upper raw_state) ("VALID" ∷ "VERIFIED" ∷ [])
                          && not (present reference))
                        reference_required
                    issued ← parse_iso_optional utc_of issued_at "issued_at"
                    raise_if (any (λ a. a.attestation_id == attestation) l.attestations) constraint
                    ok (record l {
                      attestations =
                          l.attestations
                          ++ record {
                            attestation_id = attestation;
                            tenant_id = t;
                            subject_ref = s;
                            kind = proof_kind;
                            provider = provider_name;
                            state = upper raw_state;
                            provider_ref = reference;
                            issued_at = issued;
                            digest_algorithm = algorithm;
                            digest = lower raw_digest;
                            payload_json = canonical payload;
                            recorded_at = now;
                          }
                            ∷ [];
                    })

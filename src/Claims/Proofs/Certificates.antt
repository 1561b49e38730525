-- ===== src/Claims/Proofs/Certificates.antt =====
-- vertical_apps/industrial_claims/proof_store.py: the certificates over a chain, and their supersession.
use Prim.Native.String
use obrasignal.Base.{
  ℕ, String, Bool, true, false, not, ◌&&◌, ◌||◌, Option, some, [], ◌∷◌, ◌++◌, any, find?, ltb,
  if◌then◌else◌, ◌==◌ as nat_eq,
}
use obrasignal.Base.Text.{◌==◌, opt_eq}
use obrasignal.Base.Json.{Json}
use obrasignal.Base.Result.{Result, ok, err, ◌>>=◌, ◌>>◌, raise_if}
use obrasignal.Claims.Proofs.{
  Certificate, Ledger, ProofError, invalid_revision, invalid_manifest_digests, invalid_chain,
  supersedes_itself, both_required, cross_tenant, not_declared, constraint, checked, verify_chain,
}

module _ (sha256 : String → String) (canonical : Json → String) (loads : String → Option Json) where
  abbrev same_revision : Certificate → Certificate → Bool
  same_revision c d =
      c.tenant_id == d.tenant_id && c.subject_ref == d.subject_ref && nat_eq c.revision d.revision

  unfoldable pub insert_certificate : Certificate → Ledger → Result ProofError Ledger
  insert_certificate c l =
      if any (λ d. d.certificate_id == c.certificate_id || same_revision c d) l.certificates
      then err constraint
      else ok (record l { certificates = l.certificates ++ c ∷ [] })

  -- The chain is verified on one connection and the row is inserted on another, so there are two
  -- ledgers: `seen`, as it was at the verification, and `l`, as it is at the insertion.
  unfoldable pub issue_certificate :
      (certificate_id tenant_id subject_ref : String) (revision : ℕ)
      (manifest_sha256 manifest_sha512 : String) (merkle_root_sha256 : Option String)
      (state : String) (supersedes_certificate_id : Option String) (now : String)
      → (seen l : Ledger) → Result ProofError (Certificate × Ledger)
  unfolding checked verify_chain insert_certificate
  issue_certificate certificate_id tenant_id subject_ref revision manifest_sha256 manifest_sha512
        merkle_root_sha256 state supersedes_certificate_id now seen l =
      do
        certificate ← checked certificate_id "certificate_id" 4096
        t ← checked tenant_id "tenant_id" 128
        s ← checked subject_ref "subject_ref" 4096
        raise_if (ltb revision 1) invalid_revision
        raise_if
            (not (nat_eq (String.count manifest_sha256) 64)
              || not (nat_eq (String.count manifest_sha512) 128))
            invalid_manifest_digests
        chain ← verify_chain sha256 canonical loads t s seen
        raise_if (not chain.valid) invalid_chain
        given ← checked state "state" 64
        let c : Certificate = record {
          certificate_id = certificate;
          tenant_id = t;
          subject_ref = s;
          revision = revision;
          manifest_sha256 = manifest_sha256;
          manifest_sha512 = manifest_sha512;
          merkle_root_sha256 = merkle_root_sha256;
          chain_head_sha256 = chain.chain_head_sha256;
          state = given;
          issued_at = now;
          supersedes_certificate_id = supersedes_certificate_id;
        } in
            (insert_certificate c l >>= λ l'. ok (c, l'))

abbrev certificate_of : String → Ledger → Option Certificate
certificate_of id l = find? (λ c. c.certificate_id == id) l.certificates

-- The checks of `supersede_certificate` on the two rows that it reads.
unfoldable pub declared :
    (tenant old_id : String)
    → Option Certificate
    → Option Certificate
    → Result ProofError (Unit {0})
declared t old_id (some old) (some new) = do
  raise_if (not (old.tenant_id == t) || not (new.tenant_id == t)) cross_tenant
  raise_if (not (opt_eq new.supersedes_certificate_id (some old_id))) not_declared
declared t old_id _ _ = err both_required

abbrev both : Option Certificate → Option Certificate → Bool
both (some c) (some d) = true
both _ _ = false

unfoldable pub supersede_certificate :
    (supersession_id tenant_id old_certificate_id new_certificate_id reason actor_id now : String)
    → Ledger
    → Result ProofError Ledger
unfolding checked declared
supersede_certificate supersession_id tenant_id old_id new_id reason actor_id now l = do
  raise_if (old_id == new_id) supersedes_itself
  raise_if (not (both (certificate_of old_id l) (certificate_of new_id l))) both_required
  t ← checked tenant_id "tenant_id" 128
  declared t old_id (certificate_of old_id l) (certificate_of new_id l)
  id ← checked supersession_id "supersession_id" 4096
  why ← checked reason "reason" 4096
  actor ← checked actor_id "actor_id" 256
  raise_if (any (λ r. r.supersession_id == id) l.supersessions) constraint
  ok (record l {
    supersessions =
        l.supersessions
        ++ record {
          supersession_id = id;
          tenant_id = t;
          old_certificate_id = old_id;
          new_certificate_id = new_id;
          reason = why;
          actor_id = actor;
          recorded_at = now;
        }
          ∷ [];
  })

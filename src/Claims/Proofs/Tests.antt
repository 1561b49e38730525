-- ===== src/Claims/Proofs/Tests.antt =====
-- A chain of two events, a certificate over it, an event that is backdated, and the theorems on them.
use Prim.Native.String
use mathlib.Core.Logic.{◌⊎◌}
use obrasignal.Base.{
  ◌≡◌, refl, suc, String, true, Option, none, some, List, [], ◌∷◌, All, map, sort_by, insert_by,
}
use obrasignal.Base.Text.{strip, leb_text}
use obrasignal.Base.Json.{Json, str, obj, Fields, field, end}
use obrasignal.Base.Result.{ok, err}
use obrasignal.Claims.Fields.{required_after, any_char}
use obrasignal.Claims.Proofs.{
  Event, Ledger, Certificate, previous_hash_mismatch, checked, checked_optional, with_offset,
  parse_iso_optional, chain_payload, of_subject, before, chain_of, last_hash, row_errors,
  verify_rows, verification, verify_chain, not_declared, invalid_digest,
}
use obrasignal.Claims.Proofs.Attestations.{record_attestation}
use obrasignal.Claims.Proofs.Certificates.{
  insert_certificate, issue_certificate, supersede_certificate, declared,
}
use obrasignal.Claims.Proofs.Events.{insert_event, sealed, append_event}
use obrasignal.Claims.Proofs.Contents.{content}
use obrasignal.Claims.Proofs.Binding.{Collision, issue_certificate_binding}
use obrasignal.Claims.Proofs.Appends.{append_event-verified}

program : Unit {0}
unfolding sort_by insert_by strip leb_text required_after any_char checked checked_optional
    with_offset parse_iso_optional chain_payload chain_of last_hash row_errors verify_rows
    verification verify_chain insert_event sealed append_event insert_certificate issue_certificate
    supersede_certificate declared record_attestation
program = tt

abbrev identity : String → String
identity s = s

abbrev plain_fields : Fields → String
plain_fields end = ""
plain_fields (field k (str s) fs) =
    String.◌++◌ k (String.◌++◌ "=" (String.◌++◌ s (String.◌++◌ ";" (plain_fields fs))))
plain_fields (field k v fs) = String.◌++◌ k (String.◌++◌ ";" (plain_fields fs))

abbrev plain : Json → String
plain (str s) = s
plain (obj fs) = plain_fields fs
plain _ = ""

abbrev read : String → Option Json
read s = some (str s)

abbrev utc : String → Option (Option String)
utc s = some (some s)

reparsed : (j : Json) → (k : Json) × (read (plain j) ≡ some k) × (plain k ≡ plain j)
reparsed j = (str (plain j), refl, refl)

abbrev first_event : Event
first_event =
    sealed identity plain read "e1" "acme" "case" "CREATED" "ann" "2026-01-02" none none (str "a")
      []

abbrev second_event : Event
second_event =
    sealed identity plain read "e2" "acme" "case" "REVIEWED" "ann" "2026-01-03" none (some "mail")
      (str "b") (first_event ∷ [])

abbrev ledger : List Event → List Certificate → Ledger
ledger events certificates = record {
  events = events;
  attestations = [];
  certificates = certificates;
  supersessions = [];
}

second_append :
    append_event identity plain read utc "e2" "acme" "case" "REVIEWED" "ann"
      (str "b")
      none
      (some "mail")
      none
      "2026-01-03"
      (ledger (first_event ∷ []) [])
    ≡ ok (second_event, ledger (first_event ∷ second_event ∷ []) [])
unfolding program
second_append = refl

in_order :
    All
      (λ r.
        of_subject second_event.tenant_id second_event.subject_ref r ≡ true
        → before r second_event ≡ true)
      (first_event ∷ [])
unfolding program
in_order = ((λ h. refl), tt)

first_valid :
    (verification identity plain read second_event.tenant_id second_event.subject_ref
      (first_event ∷ [])).valid
    ≡ true
unfolding program
first_valid = refl

append_event-verified_example :
    (verification identity plain read second_event.tenant_id second_event.subject_ref
        (first_event ∷ second_event ∷ [])
      ≡ record {
        valid = true;
        errors = [];
        event_count =
            suc
              (verification identity plain read second_event.tenant_id second_event.subject_ref
                (first_event ∷ [])).event_count;
        chain_head_sha256 = some second_event.chain_hash;
      })
    × ((t s : String)
        → (of_subject t s second_event ≡ true)
          ⊎ (verification identity plain read t s (first_event ∷ second_event ∷ [])
              ≡ verification identity plain read t s (first_event ∷ [])))
append_event-verified_example =
    append_event-verified identity plain read utc reparsed "e2" "acme" "case" "REVIEWED" "ann"
      (str "b") none (some "mail") none "2026-01-03" (ledger (first_event ∷ []) [])
      (ledger (first_event ∷ second_event ∷ []) []) second_event second_append in_order first_valid

-- An event that is appended as seen before the last one breaks the chain.
backdated_test :
    (verification identity plain read "acme" "case" (
      first_event
      ∷ sealed identity plain read "e0" "acme" "case" "NOTICED" "ann" "2026-01-01" none none
          (str "c")
          (first_event ∷ [])
      ∷ [])).errors
    ≡ previous_hash_mismatch 0 ∷ previous_hash_mismatch 1 ∷ []
unfolding program
backdated_test = refl

abbrev digest_64 : String
digest_64 = "0123456789abcdef0123456789abcdef0123456789abcdef0123456789abcdef"

abbrev certificate : Certificate
certificate = record {
  certificate_id = "c1";
  tenant_id = "acme";
  subject_ref = "case";
  revision = 1;
  manifest_sha256 = digest_64;
  manifest_sha512 = String.◌++◌ digest_64 digest_64;
  merkle_root_sha256 = none;
  chain_head_sha256 = some first_event.chain_hash;
  state = "ISSUED";
  issued_at = "2026-01-04";
  supersedes_certificate_id = none;
}

issued :
    issue_certificate identity plain read "c1" "acme" "case" 1 digest_64
      (String.◌++◌ digest_64 digest_64)
      none
      "ISSUED"
      none
      "2026-01-04"
      (ledger (first_event ∷ []) [])
      (ledger (first_event ∷ []) [])
    ≡ ok (certificate, ledger (first_event ∷ []) (certificate ∷ []))
unfolding program
issued = refl

certified_valid :
    (verification identity plain read certificate.tenant_id certificate.subject_ref
      (first_event ∷ [])).valid
    ≡ true
unfolding program
certified_valid = refl

certified_head :
    (verification identity plain read certificate.tenant_id certificate.subject_ref
      (first_event ∷ [])).chain_head_sha256
    ≡ certificate.chain_head_sha256
unfolding program
certified_head = refl

issue_certificate_binding_example :
    (map (content plain read) (chain_of "acme" "case" (first_event ∷ []))
      ≡ map (content plain read) (chain_of "acme" "case" (first_event ∷ [])))
    ⊎ Collision identity plain read
issue_certificate_binding_example =
    issue_certificate_binding identity plain read "c1" "acme" "case" 1 digest_64
      (String.◌++◌ digest_64 digest_64) none "ISSUED" none "2026-01-04"
      (ledger (first_event ∷ []) []) (ledger (first_event ∷ []) [])
      (ledger (first_event ∷ []) (certificate ∷ [])) certificate (first_event ∷ []) issued
      certified_valid certified_head

supersede_test :
    supersede_certificate "s1" "acme" "c1" "c2" "amended" "ann" "2026-01-05"
      (ledger [] (certificate ∷ record certificate { certificate_id = "c2" } ∷ []))
    ≡ err not_declared
unfolding program
supersede_test = refl

attestation_test :
    record_attestation plain utc identity identity "a1" "acme" "case" "WORM_LOCK" "vault" "VALID"
      "SHA-256" "abc"
      (str "a")
      (some "r1")
      none
      "2026-01-05"
      (ledger [] [])
    ≡ err invalid_digest
unfolding program
attestation_test = refl

-- ===== src/Claims/Proofs.antt =====
-- vertical_apps/industrial_claims/proof_store.py, with the digests of proof.py: the ledger of proof
-- events, its chain, the attestations and the certificates. Each call is one transaction, but for
-- `issue_certificate`, which verifies in one and inserts in another.
pub mod Events
pub mod Attestations
pub mod Certificates
pub mod Chains
pub mod Contents
pub mod Binding
pub mod Appends
pub mod Tests
use Prim.Native.Char.{code}
use Prim.Native.String
use obrasignal.Base.{
  ℕ, suc, String, Bool, true, false, not, ◌&&◌, ◌||◌, Option, none, some, List, [], ◌∷◌, ◌++◌, any,
  find?, select, sort_by, length, ltb, leb, if◌then◌else◌, ◌==◌ as nat_eq,
}
use obrasignal.Base.Text.{◌==◌, opt_eq, present, or_text, member, leb_text, strip}
use obrasignal.Base.Json.{Json, null, str, obj, field, end}
use obrasignal.Base.Result.{Result, ok, err, ◌>>=◌, ◌>>◌, raise_if}
use obrasignal.Claims.Fields.{required_after, any_char}

pub record Event : Type 0 where
  pub event_id : String
  pub tenant_id : String
  pub subject_ref : String
  pub event_type : String
  pub actor_id : String
  pub first_seen_at : String
  pub effective_at : Option String
  pub source_ref : Option String
  pub payload_json : String
  pub payload_sha256 : String
  pub previous_chain_hash : Option String
  pub chain_hash : String

pub record Attestation : Type 0 where
  pub attestation_id : String
  pub tenant_id : String
  pub subject_ref : String
  pub kind : String
  pub provider : String
  pub state : String
  pub provider_ref : Option String
  pub issued_at : Option String
  pub digest_algorithm : String
  pub digest : String
  pub payload_json : String
  pub recorded_at : String

pub record Certificate : Type 0 where
  pub certificate_id : String
  pub tenant_id : String
  pub subject_ref : String
  pub revision : ℕ
  pub manifest_sha256 : String
  pub manifest_sha512 : String
  pub merkle_root_sha256 : Option String
  pub chain_head_sha256 : Option String
  pub state : String
  pub issued_at : String
  pub supersedes_certificate_id : Option String

pub record Supersession : Type 0 where
  pub supersession_id : String
  pub tenant_id : String
  pub old_certificate_id : String
  pub new_certificate_id : String
  pub reason : String
  pub actor_id : String
  pub recorded_at : String

pub record Ledger : Type 0 where
  pub events : List Event
  pub attestations : List Attestation
  pub certificates : List Certificate
  pub supersessions : List Supersession

-- `constraint` is a primary key or another unique index that an INSERT breaks.
pub data ProofError : Type 0 where
  invalid must_include_timezone : (label : String) → ProofError
  event_exists unsupported_algorithm invalid_digest reference_required : ProofError
  invalid_revision invalid_manifest_digests invalid_chain : ProofError
  supersedes_itself both_required cross_tenant not_declared constraint : ProofError

-- `_required`
unfoldable pub checked : (value label : String) (max_chars : ℕ) → Result ProofError String
checked value label max_chars = elim (required_after max_chars value) [
  | none ↦ err (invalid label)
  | some text ↦ ok text
]

unfoldable pub checked_optional :
    Option String → (label : String) → Result ProofError (Option String)
unfolding checked
checked_optional none label = ok none
checked_optional (some value) label = checked value label 4096 >>= λ text. ok (some text)

-- `text.replace("Z", "+00:00")`
unfoldable pub with_offset : String → String
with_offset String.[] = String.[]
with_offset (String.◌∷◌ c s) =
    let rest = with_offset s in
    if nat_eq (code c) 90 then String.◌++◌ "+00:00" rest else String.◌∷◌ c rest

-- `_parse_iso_optional`; `utc_of` reads an ISO text: `none` where it is no date, `some none` where it
-- has no offset, and else its text in UTC.
module _ (utc_of : String → Option (Option String)) where
  unfoldable pub parse_iso_optional :
      Option String → (label : String) → Result ProofError (Option String)
  unfolding with_offset
  parse_iso_optional none label = ok none
  parse_iso_optional (some value) label = elim (utc_of (with_offset (strip value))) [
    | none ↦ err (invalid label)
    | some none ↦ err (must_include_timezone label)
    | some (some text) ↦ ok (some text)
  ]

abbrev pub opt_json : Option String → Json
opt_json none = null
opt_json (some s) = str s

-- The fields that a chain hash covers.
unfoldable pub chain_payload : Event → Json
chain_payload e = obj (
    field "event_id" (str e.event_id) (
      field "tenant_id" (str e.tenant_id) (
        field "subject_ref" (str e.subject_ref) (
          field "event_type" (str e.event_type) (
            field "actor_id" (str e.actor_id) (
              field "first_seen_at" (str e.first_seen_at) (
                field "effective_at" (opt_json e.effective_at) (
                  field "source_ref" (opt_json e.source_ref) (
                    field "payload_sha256" (str e.payload_sha256)
                      (field "previous_chain_hash" (opt_json e.previous_chain_hash) end))))))))))

abbrev pub of_subject : (tenant subject : String) → Event → Bool
of_subject t s e = e.tenant_id == t && e.subject_ref == s

-- `ORDER BY first_seen_at, event_id`
abbrev pub before : Event → Event → Bool
before a b =
    if a.first_seen_at == b.first_seen_at
    then leb_text a.event_id b.event_id
    else leb_text a.first_seen_at b.first_seen_at

unfoldable pub chain_of : (tenant subject : String) → List Event → List Event
chain_of t s events = sort_by before (select (of_subject t s) events)

-- The hash of the last row, which is the first in the descending order.
unfoldable pub last_hash : List Event → Option String
last_hash [] = none
last_hash (e ∷ []) = some e.chain_hash
last_hash (e ∷ f ∷ es) = last_hash (f ∷ es)

pub data ChainError : Type 0 where
  payload_json_invalid payload_hash_mismatch previous_hash_mismatch chain_hash_mismatch :
      (index : ℕ) → ChainError

pub record Verification : Type 0 where
  pub valid : Bool
  pub errors : List ChainError
  pub event_count : ℕ
  pub chain_head_sha256 : Option String

abbrev pub unless : Bool → ChainError → List ChainError
unless true e = []
unless false e = e ∷ []

abbrev pub none_left : List ChainError → Bool
none_left [] = true
none_left (e ∷ es) = false

module _ (sha256 : String → String) (canonical : Json → String) (loads : String → Option Json) where
  -- `sha256_hex` of the chain payload
  abbrev pub hash_of : Event → String
  hash_of e = sha256 (canonical (chain_payload e))

  unfoldable pub row_errors :
      (index : ℕ) (previous : Option String) → Json → Event → List ChainError
  row_errors index previous payload row =
      unless (sha256 (canonical payload) == row.payload_sha256) (payload_hash_mismatch index)
      ++ unless (opt_eq row.previous_chain_hash previous) (previous_hash_mismatch index)
      ++ unless (hash_of row == row.chain_hash) (chain_hash_mismatch index)

  -- The loop of `verify_chain`: the errors from `index` on, and the last hash.
  unfoldable pub verify_rows :
      (index : ℕ) (previous : Option String) → List Event → List ChainError × Option String
  unfolding row_errors
  verify_rows index previous [] = ([], previous)
  verify_rows index previous (row ∷ rows) = elim (loads row.payload_json) [
    | none ↦
        let rest = verify_rows (suc index) previous rows in
        (payload_json_invalid index ∷ rest.0, rest.1)
    | some payload ↦
        let rest = verify_rows (suc index) (some row.chain_hash) rows in
        (row_errors index previous payload row ++ rest.0, rest.1)
  ]

  unfoldable pub verification : (tenant subject : String) → List Event → Verification
  unfolding verify_rows chain_of
  verification t s events =
      let rows = chain_of t s events in
      let found = verify_rows 0 none rows in
      record {
        valid = none_left found.0;
        errors = found.0;
        event_count = length rows;
        chain_head_sha256 = found.1;
      }

  unfoldable pub verify_chain :
      (tenant_id subject_ref : String) → Ledger → Result ProofError Verification
  unfolding checked verification
  verify_chain tenant_id subject_ref l = do
    t ← checked tenant_id "tenant_id" 128
    s ← checked subject_ref "subject_ref" 4096
    ok (verification t s l.events)

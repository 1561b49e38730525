-- ===== src/Claims/Proofs/Events.antt =====
-- vertical_apps/industrial_claims/proof_store.py: the append of an event.

use obrasignal.Base.{String, Bool, ◌||◌, Option, List, [], ◌∷◌, ◌++◌, any, if◌then◌else◌}
use obrasignal.Base.Text.{◌==◌, or_text}
use obrasignal.Base.Json.{Json}
use obrasignal.Base.Result.{Result, ok, err, ◌>>=◌, ◌>>◌, raise_if}
use obrasignal.Claims.Proofs.{
  Event, Ledger, ProofError, event_exists, constraint, checked, checked_optional,
  parse_iso_optional, chain_of, last_hash, hash_of,
}

module _ (sha256 : String → String) (canonical : Json → String) (loads : String → Option Json) where
  abbrev has_event_id : String → Event → Bool
  has_event_id id e = e.event_id == id

  -- An INSERT under the primary key and the unique chain hash.
  unfoldable pub insert_event : Event → Ledger → Result ProofError Ledger
  insert_event e l =
      if any (has_event_id e.event_id) l.events || any (λ r. r.chain_hash == e.chain_hash) l.events
      then err constraint
      else ok (record l { events = l.events ++ e ∷ [] })

  -- The row of an event after the last one of its subject, with the checked fields.
  unfoldable pub sealed :
      (event_id tenant subject event_type actor first_seen : String)
      (effective source : Option String) (payload : Json)
      → List Event
      → Event
  unfolding chain_of last_hash
  sealed event_id tenant subject event_type actor first_seen effective source payload events =
      let e : Event = record {
        event_id = event_id;
        tenant_id = tenant;
        subject_ref = subject;
        event_type = event_type;
        actor_id = actor;
        first_seen_at = first_seen;
        effective_at = effective;
        source_ref = source;
        payload_json = canonical payload;
        payload_sha256 = sha256 (canonical payload);
        previous_chain_hash = last_hash (chain_of tenant subject events);
        chain_hash = "";
      } in
      record e { chain_hash = hash_of sha256 canonical loads e }

  module _ (utc_of : String → Option (Option String)) where
    -- `now` is `_utc_now()`.
    unfoldable pub append_event :
        (event_id tenant_id subject_ref event_type actor_id : String) (payload : Json)
        (effective_at source_ref first_seen_at : Option String) (now : String)
        → Ledger
        → Result ProofError (Event × Ledger)
    unfolding checked checked_optional parse_iso_optional insert_event sealed
    append_event event_id tenant_id subject_ref event_type actor_id payload effective_at source_ref
          first_seen_at now l =
        do
          key ← checked event_id "event_id" 4096
          t ← checked tenant_id "tenant_id" 128
          s ← checked subject_ref "subject_ref" 4096
          kind ← checked event_type "event_type" 256
          actor ← checked actor_id "actor_id" 256
          effective ← parse_iso_optional utc_of effective_at "effective_at"
          first_seen ← parse_iso_optional utc_of first_seen_at "first_seen_at"
          source ← checked_optional source_ref "source_ref"
          raise_if (any (has_event_id key) l.events) event_exists
          let e =
                sealed key t s kind actor (or_text first_seen now) effective source payload
                  l.events in
              (insert_event e l >>= λ l'. ok (e, l'))

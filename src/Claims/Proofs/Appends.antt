-- ===== src/Claims/Proofs/Appends.antt =====
-- What an append does to the chain of its subject and to the other chains.
use obrasignal.Base.{
  ◌≡◌, refl, sym, ap, ◌∙◌, ℕ, suc, String, Bool, true, false, Option, none, some, List, [], ◌∷◌,
  ◌++◌, arith, All, inl, inr, ◌⊎◌, Bool-cases, Option-cases, select, sort_by, insert_by, length,
  select-append_one, select-append_other,
}
use obrasignal.Base.Json.{Json}
use obrasignal.Base.Result.{ok}
use obrasignal.Base.Text.{eq_refl}
use obrasignal.Claims.Proofs.{
  Event, Ledger, hash_of, chain_payload, of_subject, before, chain_of, last_hash, verify_rows,
  row_errors, verification, checked, checked_optional, parse_iso_optional,
}
use obrasignal.Claims.Proofs.Events.{sealed, insert_event, append_event}
use obrasignal.Claims.Proofs.Chains.{IsIntact, verify_rows-append, ++-empty}
use obrasignal.Claims.Proofs.Binding.{none_left-empty}

module _ {A : Type 0} where
  insert_by-last :
      (lt : A → A → Bool) (x y : A) (xs : List A)
      → lt x y ≡ true
      → insert_by lt x (xs ++ y ∷ []) ≡ insert_by lt x xs ++ y ∷ []
  unfolding insert_by
  insert_by-last lt x y [] h = ground (arith, h)
  insert_by-last lt x y (z ∷ zs) h = ground (arith, h, insert_by-last lt x y zs h)

  sort_by-last :
      (lt : A → A → Bool) (y : A) (xs : List A)
      → All (λ x. lt x y ≡ true) xs
      → sort_by lt (xs ++ y ∷ []) ≡ sort_by lt xs ++ y ∷ []
  unfolding sort_by insert_by
  sort_by-last lt y [] all = refl
  sort_by-last lt y (x ∷ xs) (a, all) =
      ap (insert_by lt x) (sort_by-last lt y xs all) ∙ insert_by-last lt x y (sort_by lt xs) a

  length-append_one : (xs : List A) (y : A) → length (xs ++ y ∷ []) ≡ suc (length xs)
  length-append_one [] y = refl
  length-append_one (x ∷ xs) y = ap suc (length-append_one xs y)

  All-selected :
      (p q : A → Bool) (xs : List A)
      → All (λ x. p x ≡ true → q x ≡ true) xs
      → All (λ x. q x ≡ true) (select p xs)
  All-selected p q [] all = tt
  All-selected p q (x ∷ xs) (a, all) = elim (Bool-cases (p x)) [
    | inl e ↦ rw (e, select) (a e, All-selected p q xs all)
    | inr e ↦ rw (e, select) (All-selected p q xs all)
  ]

chain_of-append :
    (t s : String) (events : List Event) (e : Event)
    → of_subject t s e ≡ true
    → All (λ r. of_subject t s r ≡ true → before r e ≡ true) events
    → chain_of t s (events ++ e ∷ []) ≡ chain_of t s events ++ e ∷ []
unfolding chain_of
chain_of-append t s events e mine ordered =
    ap (sort_by before) (select-append_one (of_subject t s) events e mine)
    ∙ sort_by-last before e (select (of_subject t s) events)
        (All-selected (of_subject t s) (λ r. before r e) events ordered)

chain_of-other :
    (t s : String) (events : List Event) (e : Event)
    → of_subject t s e ≡ false
    → chain_of t s (events ++ e ∷ []) ≡ chain_of t s events
unfolding chain_of
chain_of-other t s events e other =
    ap (sort_by before) (select-append_other (of_subject t s) events e other)

abbrev last_or : Option String → List Event → Option String
last_or h [] = h
last_or h (e ∷ es) = last_or (some e.chain_hash) es

last_hash-last_or :
    (e : Event) (es : List Event) → last_hash (e ∷ es) ≡ last_or (some e.chain_hash) es
unfolding last_hash
last_hash-last_or e [] = refl
last_hash-last_or e (f ∷ es) = last_hash-last_or f es

module _ (sha256 : String → String) (canonical : Json → String) (loads : String → Option Json) where
  verify_rows-last :
      (index : ℕ) (h : Option String) (rows : List Event)
      → (verify_rows sha256 canonical loads index h rows).0 ≡ []
      → (verify_rows sha256 canonical loads index h rows).1 ≡ last_or h rows
  unfolding verify_rows
  verify_rows-last index h [] clean = refl
  verify_rows-last index h (e ∷ rows) clean = elim (Option-cases (loads e.payload_json)) [
    | inl failed ↦ absurd (ground (arith, failed, clean))
    | inr (payload, reads) ↦
        let found : row_errors sha256 canonical loads index h payload e
              ++ (verify_rows sha256 canonical loads (suc index) (some e.chain_hash) rows).0
            ≡ [] =
          ground (arith, reads, clean) in
        let rest = (++-empty (row_errors sha256 canonical loads index h payload e) _ found).1 in
        rw (reads, verify_rows) (verify_rows-last (suc index) (some e.chain_hash) rows rest)
  ]

  verified-last :
      (rows : List Event)
      → (verify_rows sha256 canonical loads 0 none rows).0 ≡ []
      → (verify_rows sha256 canonical loads 0 none rows).1 ≡ last_hash rows
  unfolding last_hash
  verified-last [] clean = verify_rows-last 0 none [] clean
  verified-last (e ∷ es) clean =
      verify_rows-last 0 none (e ∷ es) clean ∙ sym (last_hash-last_or e es)

  -- An event as `append_event` builds it on top of a table.
  record IsAppended (payload : Json) (events : List Event) (e : Event) (events' : List Event)
      : Type 0 where
    pub stored : events' ≡ events ++ e ∷ []
    pub text : e.payload_json ≡ canonical payload
    pub digest : e.payload_sha256 ≡ sha256 (canonical payload)
    pub linked : e.previous_chain_hash ≡ last_hash (chain_of e.tenant_id e.subject_ref events)
    pub hashed : hash_of sha256 canonical loads e ≡ e.chain_hash

  module _ (utc_of : String → Option (Option String)) where
    append_event-IsAppended :
        (id tenant subject kind actor : String) (payload : Json)
        (effective source first : Option String) (now : String) (l l' : Ledger) (e : Event)
        → append_event sha256 canonical loads utc_of id tenant subject kind actor payload effective
            source first now l
          ≡ ok (e, l')
        → IsAppended payload l.events e l'.events
    unfolding append_event insert_event sealed checked checked_optional parse_iso_optional
        chain_payload
    append_event-IsAppended id tenant subject kind actor payload effective source first now l l' e
          h =
        record {
          stored = ground (arith, h);
          text = ground (arith, h);
          digest = ground (arith, h);
          linked = ground (arith, h);
          hashed = ground (arith, h);
        }

    -- An accepted append of an event that comes after the events of its subject, by the time at which it
    -- was seen and then by its id, keeps the chain of the subject valid, with one event more and its
    -- hash as the head; the chain of every other subject is verified as before. What is written as JSON
    -- has to read back to a value that is written in the same way.
    pub append_event-verified :
        (reparsed : (j : Json)
          → (k : Json) × (loads (canonical j) ≡ some k) × (canonical k ≡ canonical j))
        (id tenant subject kind actor : String) (payload : Json)
        (effective source first : Option String) (now : String) (l l' : Ledger) (e : Event)
        → append_event sha256 canonical loads utc_of id tenant subject kind actor payload effective
            source first now l
          ≡ ok (e, l')
        → All (λ r. of_subject e.tenant_id e.subject_ref r ≡ true → before r e ≡ true) l.events
        → (verification sha256 canonical loads e.tenant_id e.subject_ref l.events).valid ≡ true
        → (verification sha256 canonical loads e.tenant_id e.subject_ref l'.events ≡ record {
          valid = true;
          errors = [];
          event_count =
              suc
                (verification sha256 canonical loads e.tenant_id e.subject_ref
                  l.events).event_count;
          chain_head_sha256 = some e.chain_hash;
        })
          × ((t s : String)
              → (of_subject t s e ≡ true)
                ⊎ (verification sha256 canonical loads t s l'.events
                    ≡ verification sha256 canonical loads t s l.events))
    unfolding verification
    append_event-verified reparsed id tenant subject kind actor payload effective source first now l
          l' e h ordered valid =
        let a =
          append_event-IsAppended id tenant subject kind actor payload effective source first now l
            l' e h in
        let rows = chain_of e.tenant_id e.subject_ref l.events in
        let clean : (verify_rows sha256 canonical loads 0 none rows).0 ≡ [] =
          none_left-empty sha256 canonical loads (verify_rows sha256 canonical loads 0 none rows).0
            valid in
        let linked : (verify_rows sha256 canonical loads 0 none rows).1 ≡ e.previous_chain_hash =
          verified-last rows clean ∙ sym (a.linked) in
        let again = reparsed payload in
        let intact : IsIntact sha256 canonical loads e = record {
          payload = again.0;
          reads = rw (a.text) (again.1);
          digested = rw (again.2) (sym (a.digest));
          hashed = a.hashed;
        } in
        let mine : of_subject e.tenant_id e.subject_ref e ≡ true =
          rw (eq_refl e.tenant_id, eq_refl e.subject_ref) refl in
        let chain = chain_of-append e.tenant_id e.subject_ref l.events e mine ordered in
        let found = verify_rows-append sha256 canonical loads 0 none rows e intact clean linked in
        (
          rw (a.stored, chain, found, length-append_one rows e) refl,
          λ t s. elim (Bool-cases (of_subject t s e)) [
            | inl same ↦ inl same
            | inr other ↦ inr (rw (a.stored, chain_of-other t s l.events e other) refl)
          ],
        )

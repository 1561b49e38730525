-- ===== src/Claims/Cases/Tests.antt =====
-- A case that is stored and read back, and the theorem on it.
use Prim.Native.Char.{Char, code}
use obrasignal.Base.{
  ◌≡◌, refl, String, true, false, Option, none, some, List, [], ◌∷◌, ◌==◌ as nat_eq, if◌then◌else◌,
}
use obrasignal.Base.Text.{strip}
use obrasignal.Base.Result.{ok, err}
use obrasignal.Claims.Fields.{required, tenant_of, is_tenant_name, any_char}
use obrasignal.Claims.Cases.{
  Case, checked, checked_tenant, missing_items, checked_missing, checked_notice, validate, put_row,
  put, case_of, get, values, collision, not_found,
}
use obrasignal.Claims.Cases.RoundTrip.{get-put}

program : Unit {0}
unfolding strip required tenant_of is_tenant_name any_char checked checked_tenant missing_items
    checked_missing checked_notice validate put_row put case_of get
program = tt

-- Each character after a `1`, and a `0` after each text.
abbrev written : String → String → String
written String.[] rest = String.◌∷◌ "0" rest
written (String.◌∷◌ c s) rest = String.◌∷◌ "1" (String.◌∷◌ c (written s rest))

abbrev write : List String → String
write [] = ""
write (s ∷ ss) = written s (write ss)

abbrev with_text : Option (List String) → Option (List String)
with_text none = none
with_text (some ss) = some ("" ∷ ss)

abbrev with_char : Char → Option (List String) → Option (List String)
with_char c (some (s ∷ ss)) = some (String.◌∷◌ c s ∷ ss)
with_char c _ = none

unfoldable read : String → Option (List String)
read String.[] = some []
read (String.◌∷◌ d String.[]) = if nat_eq (code d) 48 then some ("" ∷ []) else none
read (String.◌∷◌ d (String.◌∷◌ c t)) = elim (nat_eq (code d) 48) [
  | true ↦ with_text (read (String.◌∷◌ c t))
  | false ↦ with_char c (read t)
]

read-end : (rest : String) → read (String.◌∷◌ "0" rest) ≡ with_text (read rest)
unfolding read
read-end String.[] = refl
read-end (String.◌∷◌ c t) = refl

read-written :
    (s rest : String) (ss : List String)
    → read rest ≡ some ss
    → read (written s rest) ≡ some (s ∷ ss)
unfolding read
read-written String.[] rest ss h = rw (read-end rest, h) refl
read-written (String.◌∷◌ c s) rest ss h = rw (read-written s rest ss h) refl

read-write : (xs : List String) → read (write xs) ≡ some xs
unfolding read
read-write [] = refl
read-write (s ∷ ss) = read-written s (write ss) ss (read-write ss)

abbrev given : Case
given = record {
  finding_id = " f1";
  tenant_id = "acme";
  claim_family = "DELAY";
  customer_ref = "customer";
  program_ref = "program";
  event_ref = "event";
  entitlement_id = "e1";
  deadline_id = "d1";
  recovery_fingerprint = "fp";
  notice_deadline_state = "UNKNOWN";
  missing_evidence = "notice " ∷ " " ∷ [];
}

abbrev stored : Case
stored = record given { finding_id = "f1"; missing_evidence = "notice" ∷ [] }

put_test : put write read given [] ≡ ok (values write read stored ∷ [])
unfolding program read
put_test = refl

get-put_example :
    (v : Case) × (validate given ≡ ok v)
    × (get write read "acme" " f1" (values write read stored ∷ []) ≡ ok v)
get-put_example = get-put write read read-write given [] (values write read stored ∷ []) put_test

collision_test :
    put write read
      (record given { notice_deadline_state = "DECLARED_NONE_FOR_REVIEW" })
      (values write read stored ∷ [])
    ≡ err collision
unfolding program read
collision_test = refl

other_tenant_test : get write read "other" "f1" (values write read stored ∷ []) ≡ err not_found
unfolding program read
other_tenant_test = refl

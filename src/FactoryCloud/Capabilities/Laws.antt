-- ===== src/FactoryCloud/Capabilities/Laws.antt =====
-- What a parsed or granted set of capabilities holds.
use obrasignal.Base.{
  ◌≡◌, String, Bool, true, false, some, List, [], ◌∷◌, any, all, arith, All, inl, inr, Option-cases,
  map,
}
use obrasignal.Base.Text.{eq_iff}
use obrasignal.Base.Result.{ok, >>=-returns}
use obrasignal.FactoryCloud.Capabilities.{
  Capability, value, is_safe, is_high_risk, contains, of_value, parse_all, checked,
  parse_capabilities, require_capabilities, with_value, members,
}

abbrev pub IsSafe : Capability → Type 0
IsSafe c = is_safe c ≡ true

with_value-value :
    (raw : String) (cs : List Capability) (c : Capability)
    → with_value raw cs ≡ some c
    → value c ≡ raw
unfolding with_value
with_value-value raw [] c h = cc
with_value-value raw (d ∷ cs) c h = ground (arith, eq_iff (value d) raw, with_value-value raw cs c)

of_value-value : (raw : String) (c : Capability) → of_value raw ≡ some c → value c ≡ raw
unfolding of_value
of_value-value raw c h = with_value-value raw members c h

-- The parsed members spell the given texts, in order.
parse_all-values :
    (raws : List String) (cs : List Capability) → parse_all raws ≡ ok cs → map value cs ≡ raws
unfolding parse_all
parse_all-values [] cs h = ground arith
parse_all-values (raw ∷ raws) cs h = elim (Option-cases (of_value raw)) [
  | inl missed ↦ absurd (ground arith)
  | inr (c, hit) ↦
      let (ds, parsed, e) =
        >>=-returns (parse_all raws) (λ ds. ok (c ∷ ds)) (rw (hit, parse_all) at h) in
      ground (arith, of_value-value raw c, parse_all-values raws ds)
]

not_any-IsSafe : (cs : List Capability) → any is_high_risk cs ≡ false → All IsSafe cs
not_any-IsSafe [] h = tt
not_any-IsSafe (c ∷ cs) h = (ground arith, not_any-IsSafe cs (ground arith))

checked-IsSafe :
    (parsed cs : List Capability) → checked false parsed ≡ ok cs → (cs ≡ parsed) × All IsSafe cs
checked-IsSafe parsed cs h =
    let same_list : parsed ≡ cs = ground arith in
    (ground arith, rw (same_list) at (not_any-IsSafe parsed (ground arith)))

-- Without separate authority a parsed set holds repository-safe capabilities only, and spells
-- exactly the declared texts.
parse_capabilities-IsSafe :
    (raws : List String) (require_explicit : Bool) (cs : List Capability)
    → parse_capabilities (some raws) false require_explicit ≡ ok cs
    → (map value cs ≡ raws) × All IsSafe cs
unfolding parse_capabilities
parse_capabilities-IsSafe raws require_explicit cs h =
    let (parsed, p, c) = >>=-returns (parse_all raws) (checked false) h in
    let (e, safe) = checked-IsSafe parsed cs c in (rw e (parse_all-values raws parsed p), safe)

all-All :
    (cs ds : List Capability) → all (contains cs) ds ≡ true → All (λ d. contains cs d ≡ true) ds
all-All cs [] h = tt
all-All cs (d ∷ ds) h = (ground arith, all-All cs ds (ground arith))

-- What a requirement check grants.
pub record IsGranted (declared required : List String) (granted : List Capability) : Type 0 where
  pub spelled : map value granted ≡ required
  pub safe : All IsSafe granted
  pub declared_set : List Capability
  pub declared_spelled : map value declared_set ≡ declared
  pub covered : All (λ d. contains declared_set d ≡ true) granted

-- A granted set spells the requirement, is repository-safe, and lies within what is declared.
pub require_capabilities-IsGranted :
    (declared required : List String) (granted : List Capability)
    → require_capabilities declared required ≡ ok granted
    → IsGranted declared required granted
unfolding require_capabilities
require_capabilities-IsGranted declared required granted h =
    let (ds, pd, h') = >>=-returns (parse_capabilities (some declared) false false) _ h in
    let (rs, pr, h'') = >>=-returns (parse_capabilities (some required) false false) _ h' in
    let (spelled_d, _) = parse_capabilities-IsSafe declared false ds pd in
    let (spelled_r, safe) = parse_capabilities-IsSafe required false rs pr in
    let same_list : rs ≡ granted = ground arith in
    let granted_all : IsGranted declared required rs = record {
      spelled = spelled_r;
      safe = safe;
      declared_set = ds;
      declared_spelled = spelled_d;
      covered = all-All ds rs (ground arith);
    } in
    rw same_list at granted_all

-- ===== src/FactoryCloud/Capabilities.antt =====
-- factory_cloud/capabilities.py. A set of capabilities is a list read by membership.
pub mod Laws
pub mod Tests
use obrasignal.Base.{
  String, Bool, true, false, not, ◌&&◌, ◌||◌, Option, none, some, List, [], ◌∷◌, any, all, select,
  if◌then◌else◌,
}
use obrasignal.Base.Text.{◌==◌}
use obrasignal.Base.Result.{Result, ok, err, ◌>>=◌, ◌>>◌, raise_if}

pub data Capability : Type 0 where
  read_repository create_branch write_files run_tests create_pr read_ci update_baton : Capability
  merge_main deploy_production access_customer_data activate_billing : Capability
  rotate_secrets contact_customers : Capability

pub data CapabilityError : Type 0 where
  not_declared high_risk missing : CapabilityError
  unknown_capability : String → CapabilityError

-- The value of a member of the enumeration.
abbrev pub value : Capability → String
value read_repository = "READ_REPOSITORY"
value create_branch = "CREATE_BRANCH"
value write_files = "WRITE_FILES"
value run_tests = "RUN_TESTS"
value create_pr = "CREATE_PR"
value read_ci = "READ_CI"
value update_baton = "UPDATE_BATON"
value merge_main = "MERGE_MAIN"
value deploy_production = "DEPLOY_PRODUCTION"
value access_customer_data = "ACCESS_CUSTOMER_DATA"
value activate_billing = "ACTIVATE_BILLING"
value rotate_secrets = "ROTATE_SECRETS"
value contact_customers = "CONTACT_CUSTOMERS"

abbrev pub members : List Capability
members =
    read_repository ∷ create_branch ∷ write_files ∷ run_tests ∷ create_pr ∷ read_ci ∷ update_baton
    ∷ merge_main ∷ deploy_production ∷ access_customer_data ∷ activate_billing ∷ rotate_secrets
    ∷ contact_customers ∷ []

-- SAFE_REPOSITORY_CAPABILITIES
abbrev pub is_safe : Capability → Bool
is_safe read_repository = true
is_safe create_branch = true
is_safe write_files = true
is_safe run_tests = true
is_safe create_pr = true
is_safe read_ci = true
is_safe update_baton = true
is_safe _ = false

-- HIGH_RISK_CAPABILITIES
abbrev pub is_high_risk : Capability → Bool
is_high_risk c = not (is_safe c)

-- Equality of members, by their values.
abbrev pub same : Capability → Capability → Bool
same a b = value a == value b

abbrev pub contains : List Capability → Capability → Bool
contains cs c = any (same c) cs

with_value : String → List Capability → Option Capability
with_value raw [] = none
with_value raw (c ∷ cs) = elim (value c == raw) [ true ↦ some c | false ↦ with_value raw cs ]

-- `Capability(raw)`
unfoldable pub of_value : String → Option Capability
unfolding with_value
of_value raw = with_value raw members

-- The loop of `parse_capabilities`.
unfoldable pub parse_all : List String → Result CapabilityError (List Capability)
parse_all [] = ok []
parse_all (raw ∷ values) = elim (of_value raw) [
  | none ↦ err (unknown_capability raw)
  | some c ↦ (parse_all values >>= λ parsed. ok (c ∷ parsed))
]

abbrev pub checked : Bool → List Capability → Result CapabilityError (List Capability)
checked allow_high_risk parsed =
    if any is_high_risk parsed && not allow_high_risk then err high_risk else ok parsed

unfoldable pub parse_capabilities :
    Option (List String)
    → (allow_high_risk require_explicit : Bool) → Result CapabilityError (List Capability)
parse_capabilities none allow_high_risk require_explicit =
    if require_explicit then err not_declared else ok []
parse_capabilities (some values) allow_high_risk require_explicit =
    parse_all values >>= checked allow_high_risk

unfoldable pub require_capabilities :
    (declared required : List String) → Result CapabilityError (List Capability)
require_capabilities declared required = do
  declared_set ← parse_capabilities (some declared) false false
  required_set ← parse_capabilities (some required) false false
  raise_if (not (all (contains declared_set) required_set)) missing
  ok required_set

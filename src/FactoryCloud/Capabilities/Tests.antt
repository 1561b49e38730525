-- ===== src/FactoryCloud/Capabilities/Tests.antt =====
-- Runs of the capability checks, and the theorems at a concrete contract.
use obrasignal.Base.{◌≡◌, refl, String, false, true, some, List, [], ◌∷◌}
use obrasignal.Base.Result.{ok, err}
use obrasignal.FactoryCloud.Capabilities.{
  read_repository, run_tests, parse_capabilities, parse_all, of_value, require_capabilities,
  high_risk, missing,
}
use obrasignal.FactoryCloud.Capabilities.Laws.{IsGranted, require_capabilities-IsGranted}

abbrev declared : List String
declared = "READ_REPOSITORY" ∷ "RUN_TESTS" ∷ []

abbrev wanted : List String
wanted = "RUN_TESTS" ∷ []

program : Unit {0}
unfolding require_capabilities parse_capabilities parse_all of_value
program = tt

parsed : parse_capabilities (some declared) false true ≡ ok (read_repository ∷ run_tests ∷ [])
unfolding program
parsed = refl

granted : require_capabilities declared wanted ≡ ok (run_tests ∷ [])
unfolding program
granted = refl

refusals :
    (require_capabilities wanted declared ≡ err missing)
    × (parse_capabilities (some ("MERGE_MAIN" ∷ [])) false true ≡ err high_risk)
unfolding program
refusals = (refl, refl)

require_capabilities-IsGranted_example : IsGranted declared wanted (run_tests ∷ [])
require_capabilities-IsGranted_example =
    require_capabilities-IsGranted declared wanted (run_tests ∷ []) granted

-- ===== src/FactoryCloud/Priority.antt =====
-- factory_cloud/portfolio_priority.py: priority signals and their score. `int_of_text` is `int` on a
-- text, `none` where it raises.
pub mod Order
pub mod Tests
use obrasignal.Base.{
  ℕ, ◌+◌, ◌*◌, String, Bool, true, false, not, ◌&&◌, Option, none, some, List, [], ◌∷◌, leb,
  if◌then◌else◌, ltb,
}
use obrasignal.Base.Int.{ℤ, pos, negsuc}
use obrasignal.Base.Json.{
  Json, null, bool, int, str, arr, obj, Fields, get, get_or, object_or_empty,
}
use obrasignal.Base.Result.{Result, ok, err, ◌>>=◌}

pub data PriorityError : Type 0 where
  invalid_signal out_of_range : String → PriorityError
  not_an_object : PriorityError

pub record Signals : Type 0 where
  pub safety_severity : ℕ
  pub pilot_blocker : ℕ
  pub commercial_leverage : ℕ
  pub shared_leverage : ℕ
  pub evidence_integrity : ℕ
  pub base_priority : ℤ

abbrev pub top : ℕ
top = 100

module _ (int_of_text : String → Option ℤ) where
  -- `int(value)`; a list, an object and `None` raise TypeError.
  abbrev to_int : Json → Option ℤ
  to_int (bool true) = some (pos 1)
  to_int (bool false) = some (pos 0)
  to_int (int n) = some n
  to_int (str s) = int_of_text s
  to_int _ = none

  abbrev base : Json → Result PriorityError ℤ
  base v = elim (to_int v) [ none ↦ err (invalid_signal "base_priority") | some n ↦ ok n ]

  -- A signal other than the base: an integer from 0 to 100.
  unfoldable pub signal : String → Json → Result PriorityError ℕ
  signal key v = elim (to_int v) [
    | none ↦ err (invalid_signal key)
    | some (pos n) ↦ if leb n top then ok n else err (out_of_range key)
    | some (negsuc n) ↦ err (out_of_range key)
  ]

  abbrev pub opened : Json → Result PriorityError Fields
  opened v = elim (object_or_empty v) [ none ↦ err not_an_object | some fs ↦ ok fs ]

  abbrev pub default_signal : Fields → String → Result PriorityError ℕ
  default_signal raw key = signal key (get_or raw key (int (pos 0)))

  -- The loop of `from_app` over its six values.
  unfoldable pub from_objects : (activation raw : Fields) → Result PriorityError Signals
  from_objects activation raw = do
    safety ← default_signal raw "safety_severity"
    pilot ← default_signal raw "pilot_blocker"
    commercial ← default_signal raw "commercial_leverage"
    shared ← default_signal raw "shared_leverage"
    evidence ← default_signal raw "evidence_integrity"
    priority ← base (get_or activation "priority" (int (pos 0)))
    ok (record {
      safety_severity = safety;
      pilot_blocker = pilot;
      commercial_leverage = commercial;
      shared_leverage = shared;
      evidence_integrity = evidence;
      base_priority = priority;
    })

  -- `PrioritySignals.from_app`, also called `priority_for_app`
  unfoldable pub from_app : Fields → Result PriorityError Signals
  from_app app = do
    activation ← opened (get app "activation")
    raw ← opened (get app "portfolio_priority")
    from_objects activation raw

-- `max(0, min(base, 100))`
abbrev pub bounded_base : ℤ → ℕ
bounded_base (pos n) = if leb n top then n else top
bounded_base (negsuc n) = 0

-- The loop of `score`.
abbrev pub horner : ℕ → List ℕ → ℕ
horner score [] = score
horner score (value ∷ values) = horner (score * 101 + value) values

abbrev pub lower_signals : Signals → List ℕ
lower_signals s =
    s.pilot_blocker
    ∷ s.evidence_integrity
    ∷ s.commercial_leverage
    ∷ s.shared_leverage
    ∷ bounded_base s.base_priority
    ∷ []

unfoldable pub score : Signals → ℕ
score s = horner s.safety_severity (lower_signals s)

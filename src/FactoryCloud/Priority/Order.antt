-- ===== src/FactoryCloud/Priority/Order.antt =====
-- The score orders the signals lexicographically.
use obrasignal.Base.{
  ℕ, ◌+◌, ◌*◌, ◌≤◌, ◌<◌, ◌≡◌, ◌⊎◌, inl, inr, ◌↔◌, String, Option, List, [], ◌∷◌, arith, All,
}
use native.Mathlib.Decide.{dec_lt}
use obrasignal.Base.Int.{ℤ, pos}
use obrasignal.Base.Json.{Json, Fields, get_or, get, int}
use obrasignal.Base.Result.{Result, ok, err, >>=-returns}
use obrasignal.FactoryCloud.Priority.{
  default_signal, from_objects, opened, Signals, PriorityError, signal, from_app, bounded_base,
  horner, lower_signals, score,
}

-- The first place at which two lists differ decides.
abbrev pub LexLt : List ℕ → List ℕ → Type 0
LexLt [] ys = ⊥
LexLt (x ∷ xs) [] = ⊥
LexLt (x ∷ xs) (y ∷ ys) = (x < y) ⊎ ((x ≡ y) × LexLt xs ys)

abbrev SameLength : List ℕ → List ℕ → Type 0
SameLength [] [] = Unit
SameLength (x ∷ xs) (y ∷ ys) = SameLength xs ys
SameLength _ _ = ⊥

abbrev AreDigits : List ℕ → Type 0
AreDigits = All (λ (x : ℕ). x ≤ 100)

horner-lt :
    (a b : ℕ) (xs ys : List ℕ)
    → SameLength xs ys
    → AreDigits xs
    → AreDigits ys
    → a < b
    → horner a xs < horner b ys
horner-lt a b [] [] l hx hy h = h
horner-lt a b (x ∷ xs) (y ∷ ys) l hx hy h =
    horner-lt (a * 101 + x) (b * 101 + y) xs ys l hx.1 hy.1 (omega (arith, hx.0, hy.0))
horner-lt a b [] (y ∷ ys) l hx hy h = absurd l
horner-lt a b (x ∷ xs) [] l hx hy h = absurd l

horner-LexLt :
    (a b : ℕ) (xs ys : List ℕ)
    → SameLength xs ys
    → AreDigits xs
    → AreDigits ys
    → horner a xs < horner b ys
    → LexLt (a ∷ xs) (b ∷ ys)
horner-LexLt a b [] [] l hx hy h = inl h
horner-LexLt a b (x ∷ xs) (y ∷ ys) l hx hy h =
    elim (horner-LexLt (a * 101 + x) (b * 101 + y) xs ys l hx.1 hy.1 h) [
      | inl lt ↦ elim (dec_lt a b) [
        | yes p ↦ inl p
        | no n ↦ inr (omega (arith, hx.0, hy.0), inl (omega (arith, hx.0, hy.0)))
      ]
      | inr (e, r) ↦ inr (omega (arith, hx.0, hy.0), inr (omega (arith, hx.0, hy.0), r))
    ]
horner-LexLt a b [] (y ∷ ys) l hx hy h = absurd l
horner-LexLt a b (x ∷ xs) [] l hx hy h = absurd l

LexLt-horner :
    (a b : ℕ) (xs ys : List ℕ)
    → SameLength xs ys
    → AreDigits xs
    → AreDigits ys
    → LexLt (a ∷ xs) (b ∷ ys)
    → horner a xs < horner b ys
LexLt-horner a b xs ys l hx hy (inl h) = horner-lt a b xs ys l hx hy h
LexLt-horner a b [] [] l hx hy (inr (e, h)) = absurd h
LexLt-horner a b (x ∷ xs) (y ∷ ys) l hx hy (inr (e, h)) =
    LexLt-horner (a * 101 + x) (b * 101 + y) xs ys l hx.1 hy.1
      (elim h [ inl lt ↦ inl (omega arith) | inr (e', r) ↦ inr (omega arith, r) ])
LexLt-horner a b [] (y ∷ ys) l hx hy (inr (e, h)) = absurd l
LexLt-horner a b (x ∷ xs) [] l hx hy (inr (e, h)) = absurd l

-- The digits of a score, the most significant first.
abbrev pub digits : Signals → List ℕ
digits s =
    s.safety_severity
    ∷ s.pilot_blocker
    ∷ s.evidence_integrity
    ∷ s.commercial_leverage
    ∷ s.shared_leverage
    ∷ bounded_base s.base_priority
    ∷ []

-- The ranges that `from_app` checks.
pub record InRange (s : Signals) : Type 0 where
  pub safety : s.safety_severity ≤ 100
  pub pilot : s.pilot_blocker ≤ 100
  pub commercial : s.commercial_leverage ≤ 100
  pub shared : s.shared_leverage ≤ 100
  pub evidence : s.evidence_integrity ≤ 100

bounded_base-le : (n : ℤ) → bounded_base n ≤ 100
bounded_base-le n = ground arith

lower_signals-AreDigits : (s : Signals) → InRange s → AreDigits (lower_signals s)
lower_signals-AreDigits s h =
    (h.pilot, (h.evidence, (h.commercial, (h.shared, (bounded_base-le s.base_priority, tt)))))

-- In range, one score is below another exactly if the signals are so lexicographically: safety,
-- then pilot blocker, evidence integrity, commercial leverage, shared leverage, and the base
-- priority cut to 0 to 100.
pub score-lt_iff :
    (s t : Signals) → InRange s → InRange t → (score s < score t) ↔ LexLt (digits s) (digits t)
unfolding score
score-lt_iff s t hs ht =
    let ds = lower_signals-AreDigits s hs in
    let dt = lower_signals-AreDigits t ht in
    (
      horner-LexLt s.safety_severity t.safety_severity (lower_signals s) (lower_signals t) tt ds dt,
      LexLt-horner s.safety_severity t.safety_severity (lower_signals s) (lower_signals t) tt ds dt,
    )

abbrev WithinTop : Result PriorityError ℕ → Type 0
WithinTop (ok n) = n ≤ 100
WithinTop (err e) = Unit

module _ (int_of_text : String → Option ℤ) where
  signal-WithinTop : (key : String) (v : Json) → WithinTop (signal int_of_text key v)
  unfolding signal
  signal-WithinTop key v = ground arith

  default_signal-WithinTop :
      (raw : Fields) (key : String) → WithinTop (default_signal int_of_text raw key)
  default_signal-WithinTop raw key = signal-WithinTop key (get_or raw key (int (pos 0)))

  from_objects-InRange :
      (activation raw : Fields) (s : Signals)
      → from_objects int_of_text activation raw ≡ ok s
      → InRange s
  unfolding from_objects
  from_objects-InRange activation raw s h = ground (
    arith,
    default_signal-WithinTop raw "safety_severity",
    default_signal-WithinTop raw "pilot_blocker",
    default_signal-WithinTop raw "commercial_leverage",
    default_signal-WithinTop raw "shared_leverage",
    default_signal-WithinTop raw "evidence_integrity",
  )

  -- Signals that are read from a registry entry are in range, whatever the entry holds.
  from_app-InRange : (app : Fields) (s : Signals) → from_app int_of_text app ≡ ok s → InRange s
  unfolding from_app
  from_app-InRange app s h =
      let (activation, _, h') = >>=-returns (opened int_of_text (get app "activation")) _ h in
      let (raw, _, h'') = >>=-returns (opened int_of_text (get app "portfolio_priority")) _ h' in
      from_objects-InRange activation raw s h''

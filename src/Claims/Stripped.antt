-- ===== src/Claims/Stripped.antt =====
-- A text that has been stripped and checked passes the same check as it is.
use Prim.Native.Char.{Char, code}
use Prim.Native.String.{String, [], ◌∷◌}
use obrasignal.Base.{
  ◌≡◌, refl, sym, ◌∙◌, ap, ℕ, Bool, true, false, not, ◌&&◌, some, arith, inl, inr, Bool-cases,
  Option-cases,
}
use obrasignal.Base.Text.{nonempty, is_space, lstrip, rstrip, strip}
use obrasignal.Claims.Fields.{required, required_after, tenant_of, any_char, is_control}

rstrip-rstrip : (s : String) → rstrip (rstrip s) ≡ rstrip s
unfolding rstrip
rstrip-rstrip [] = refl
rstrip-rstrip (c ∷ s) = elim (Bool-cases (not (nonempty (rstrip s)) && is_space (code c))) [
  | inl e ↦ rw (e, rstrip) refl
  | inr e ↦ rw (e, rstrip) (rw (rstrip-rstrip s, e) refl)
]

&&-false : (b : Bool) → (b && false) ≡ false
&&-false true = refl
&&-false false = refl

rstrip-cons : (c : Char) (s : String) → is_space (code c) ≡ false → rstrip (c ∷ s) ≡ c ∷ rstrip s
unfolding rstrip
rstrip-cons c s e = rw (e, rstrip, &&-false (not (nonempty (rstrip s)))) refl

lstrip-cons : (c : Char) (s : String) → is_space (code c) ≡ false → lstrip (c ∷ s) ≡ c ∷ s
unfolding lstrip
lstrip-cons c s e = rw (e, lstrip) refl

rstrip-lstrip : (s : String) → lstrip (rstrip (lstrip s)) ≡ rstrip (lstrip s)
unfolding lstrip rstrip
rstrip-lstrip [] = refl
rstrip-lstrip (c ∷ s) = elim (Bool-cases (is_space (code c))) [
  | inl e ↦ rw (e, lstrip) (rstrip-lstrip s)
  | inr e ↦ rw (lstrip-cons c s e, rstrip-cons c s e, lstrip-cons c (rstrip s) e) refl
]

pub strip-strip : (s : String) → strip (strip s) ≡ strip s
unfolding strip
strip-strip s = ap rstrip (rstrip-lstrip s) ∙ rstrip-rstrip (lstrip s)

pub required_after-again :
    (max_chars : ℕ) (raw text : String)
    → required_after max_chars raw ≡ some text
    → required_after max_chars text ≡ some text
unfolding required_after
required_after-again max_chars raw text h =
    let same : strip raw ≡ text = ground (arith, h) in
    let again : strip text ≡ text = ap strip (sym same) ∙ strip-strip raw ∙ same in
    ground (arith, h, again, same)

rstrip-any_char : (p : ℕ → Bool) (s : String) → any_char p s ≡ false → any_char p (rstrip s) ≡ false
unfolding any_char rstrip
rstrip-any_char p [] h = refl
rstrip-any_char p (c ∷ s) h =
    let later = rstrip-any_char p s (ground (arith, h)) in
    elim (Bool-cases (not (nonempty (rstrip s)) && is_space (code c))) [
      | inl e ↦ rw (e, rstrip) refl
      | inr e ↦ rw (e, rstrip) (ground (arith, h, later))
    ]

lstrip-any_char : (p : ℕ → Bool) (s : String) → any_char p s ≡ false → any_char p (lstrip s) ≡ false
unfolding any_char lstrip
lstrip-any_char p [] h = refl
lstrip-any_char p (c ∷ s) h = elim (Bool-cases (is_space (code c))) [
  | inl e ↦ rw (e, lstrip) (lstrip-any_char p s (ground (arith, h)))
  | inr e ↦ rw (e, lstrip) h
]

pub strip-any_char :
    (p : ℕ → Bool) (s : String) → any_char p s ≡ false → any_char p (strip s) ≡ false
unfolding strip
strip-any_char p s h = rstrip-any_char p (lstrip s) (lstrip-any_char p s h)

pub required-again :
    (max_chars : ℕ) (raw text : String)
    → required max_chars raw ≡ some text
    → required max_chars text ≡ some text
unfolding required
required-again max_chars raw text h =
    let same : strip raw ≡ text = ground (arith, h) in
    let again : strip text ≡ text = ap strip (sym same) ∙ strip-strip raw ∙ same in
    let clear = strip-any_char is_control raw (ground (arith, h)) in
    ground (arith, h, again, same, clear)

pub tenant_of-again : (raw t : String) → tenant_of raw ≡ some t → tenant_of t ≡ some t
unfolding tenant_of
tenant_of-again raw t h = elim (Option-cases (required 64 raw)) [
  | inl e ↦ absurd (ground (arith, e, h))
  | inr (found, e) ↦
      let same : found ≡ t = ground (arith, e, h) in
      let again : required 64 t ≡ some t = rw (← same) (required-again 64 raw found e) in
      ground (arith, e, h, again, same)
]

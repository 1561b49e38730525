-- ===== src/Evaluation/Kept.antt =====
-- evaluation_policy.py: what becomes of the dates of the accounts, from one table to a later one.
use obrasignal.Base.{
  ◌≡◌, refl, ap, ◌∙◌, ℕ, ◌+◌, ◌-◌, ◌≤◌, String, Bool, true, false, Option, some, List, [], ◌∷◌,
  arith, inl, inr, Bool-cases, ◌||◌,
}
use obrasignal.Base.Text.{◌==◌}
use obrasignal.Base.Result.{ok}
use obrasignal.FactoryCloud.Stamp.{Stamp, at}
use obrasignal.Evaluation.{
  Account, Event, find_account, modify, advance, advance_row, with_exposure, days_of, is_settled,
}
use obrasignal.Evaluation.Grants.{extension_end, extended}

-- What becomes of the dates of an account, from `a` to `b`. An activation stays as it was, with the
-- type of the evaluation; the end moves by the days of extension that were added and by nothing else;
-- where no extension was asked for (`extending` is false), no day is added.
pub record KeepsDates (extending : Bool) (a b : Account) : Type 0 where
  pub ident : b.account_id ≡ a.account_id
  pub extension : a.evaluation_extension_days ≤ b.evaluation_extension_days
  pub unextended : extending ≡ false → b.evaluation_extension_days ≡ a.evaluation_extension_days
  pub activation :
      (t : ℕ)
      → a.evaluation_activated_at ≡ some (at t)
      → (b.evaluation_activated_at ≡ some (at t)) × (b.evaluation_type ≡ a.evaluation_type)
  pub end :
      (t e : ℕ)
      → a.evaluation_activated_at ≡ some (at t)
      → a.evaluation_ends_at ≡ some (at e)
      → b.evaluation_ends_at
        ≡ some (at (e + days_of (b.evaluation_extension_days - a.evaluation_extension_days)))

-- A relation between the rows of two tables, row by row.
abbrev pub Pairs : (Account → Account → Type 0) → List Account → List Account → Type 0
Pairs R [] [] = Unit
Pairs R (a ∷ accounts) (b ∷ others) = R a b × Pairs R accounts others
Pairs R [] (b ∷ others) = ⊥
Pairs R (a ∷ accounts) [] = ⊥

some_at : (m n : ℕ) → m ≡ n → ◌≡◌ {A = Option Stamp} (some (at m)) (some (at n))
some_at m n e = ap (λ (x : ℕ). some (at x)) e

pub KeepsDates-refl : (extending : Bool) (a : Account) → KeepsDates extending a a
KeepsDates-refl extending a = record {
  ident = refl;
  extension = omega arith;
  unextended = λ h. refl;
  activation = λ t h. (h, refl);
  end = λ t e h g. g ∙ some_at e _ (omega arith);
}

KeepsDates-trans :
    (f g : Bool) (a b c : Account) → KeepsDates f a b → KeepsDates g b c → KeepsDates (f || g) a c
KeepsDates-trans f g a b c x y = record {
  ident = y.ident ∙ x.ident;
  extension = omega (arith, x.extension, y.extension);
  unextended = λ h. y.unextended (ground (arith, h)) ∙ x.unextended (ground (arith, h));
  activation = λ t h.
      let (on, type) = x.activation t h in
      let (on', type') = y.activation t on in (on', type' ∙ type);
  end = λ t e h k.
      let (on, type) = x.activation t h in
      y.end t _ on (x.end t e h k) ∙ some_at _ _ (omega (arith, x.extension, y.extension));
}

pub Pairs-refl :
    (extending : Bool) (accounts : List Account) → Pairs (KeepsDates extending) accounts accounts
Pairs-refl extending [] = tt
Pairs-refl extending (a ∷ accounts) = (KeepsDates-refl extending a, Pairs-refl extending accounts)

pub Pairs-trans :
    (f g : Bool) (xs ys zs : List Account)
    → Pairs (KeepsDates f) xs ys
    → Pairs (KeepsDates g) ys zs
    → Pairs (KeepsDates (f || g)) xs zs
Pairs-trans f g [] [] [] h k = tt
Pairs-trans f g [] [] (z ∷ zs) h k = absurd k
Pairs-trans f g [] (y ∷ ys) zs h k = absurd h
Pairs-trans f g (x ∷ xs) [] zs h k = absurd h
Pairs-trans f g (x ∷ xs) (y ∷ ys) [] h k = absurd k
Pairs-trans f g (x ∷ xs) (y ∷ ys) (z ∷ zs) (h, hs) (k, ks) =
    (KeepsDates-trans f g x y z h k, Pairs-trans f g xs ys zs hs ks)

pub modify-Pairs :
    (extending : Bool) (account_id : String) (f : Account → Account) (accounts : List Account)
    (a : Account)
    → find_account account_id accounts ≡ some a
    → KeepsDates extending a (f a)
    → Pairs (KeepsDates extending) accounts (modify account_id f accounts)
unfolding modify
modify-Pairs extending account_id f [] a found k = tt
modify-Pairs extending account_id f (b ∷ accounts) a found k =
    elim (Bool-cases (b.account_id == account_id)) [
      | inl e ↦
          let same : a ≡ b = ground arith in
          rw (e, Pairs) (rw same at k, Pairs-refl extending accounts)
      | inr e ↦
          rw (e, Pairs)
            (
              KeepsDates-refl extending b,
              modify-Pairs extending account_id f accounts a (ground arith) k,
            )
    ]

advance-KeepsDates :
    (has : Event → Bool) (now : ℕ) (a : Account) → KeepsDates false a (advance has now a)
unfolding advance
advance-KeepsDates has now a = record {
  ident = ground arith;
  extension = ground arith;
  unextended = λ h. ground arith;
  activation = λ t h. ground arith;
  end = λ t e h g. ground arith;
}

with_exposure-KeepsDates :
    (event : Event) (a : Account) → KeepsDates false a (with_exposure event a)
with_exposure-KeepsDates event a = record {
  ident = ground arith;
  extension = ground arith;
  unextended = λ h. ground arith;
  activation = λ t h. ground arith;
  end = λ t e h g. ground arith;
}

pub advance_row-KeepsDates :
    (event : Event) (has : Event → Bool) (now : ℕ) (a : Account)
    → KeepsDates false a (advance_row event has now a)
unfolding advance_row
advance_row-KeepsDates event has now a = elim (Bool-cases (is_settled a.evaluation_status)) [
  | inl s ↦ rw s (KeepsDates-refl false a)
  | inr s ↦ rw s (
      KeepsDates-trans false false a (with_exposure event a)
        (advance has now (with_exposure event a)) (with_exposure-KeepsDates event a)
        (advance-KeepsDates has now (with_exposure event a)))
]

pub extended-KeepsDates :
    (n ends : ℕ) (reason : String) (real insufficient inactive : Bool) (a : Account)
    → extension_end n real insufficient inactive a ≡ ok ends
    → KeepsDates true a (extended n ends reason a)
unfolding extension_end
extended-KeepsDates n ends reason real insufficient inactive a granted = record {
  ident = refl;
  extension = omega arith;
  unextended = λ h. absurd (ground arith);
  activation = λ t h. (h, refl);
  end = λ t e h g. let same : ends ≡ e = ground arith in some_at _ _ (omega (arith, same));
}

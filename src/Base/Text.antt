-- ===== src/Base/Text.antt =====
-- Python text: `==`, truthiness, `str.strip`, membership, and the decimal form of a number.
use Prim.Native.Nat.{ℕ, zero, suc, ◌/◌, ◌%◌}
use Prim.Native.Char.{code}
use Prim.Native.String.{String, [], ◌∷◌, count}
use Prim.Native.String
use mathlib.Core.Path.{◌≡◌, refl}
use mathlib.Core.Bool.{Bool, true, false, not, ◌&&◌, ◌||◌}
use mathlib.Core.Option.{Option, none, some}
use mathlib.Core.List.{List}
use obrasignal.Base.Tests.{leb, if◌then◌else◌, ◌==◌ as nat_eq}
pub use text.Mathlib.Text.{◌==◌}
pub use text.Mathlib.TextEquality.{eq_iff}
pub use text.Mathlib.TextPositions.{eq_refl}

-- `bool(text)`
abbrev pub nonempty : String → Bool
nonempty [] = false
nonempty (c ∷ s) = true

-- `bool(value)` of a value that is a text or `None`.
abbrev pub present : Option String → Bool
present none = false
present (some s) = nonempty s

-- `value or default` and `value or ""`, for a text or `None`.
abbrev pub or_text : Option String → String → String
or_text none d = d
or_text (some s) d = if nonempty s then s else d

-- `text or None`
abbrev pub or_none : String → Option String
or_none [] = none
or_none (c ∷ s) = some (c ∷ s)

-- `first or second`, for two texts that may be `None`.
abbrev pub or_else : Option String → Option String → Option String
or_else a b = if present a then a else b

abbrev pub opt_eq : Option String → Option String → Bool
opt_eq none none = true
opt_eq (some a) (some b) = a == b
opt_eq _ _ = false

-- The characters for which `str.isspace` holds, which `str.strip` removes.
abbrev pub is_space : ℕ → Bool
is_space c =
    (leb 9 c && leb c 13)
    || (leb 28 c && leb c 32)
    || nat_eq c 133
    || nat_eq c 160
    || nat_eq c 5760
    || (leb 8192 c && leb c 8202)
    || nat_eq c 8232
    || nat_eq c 8233
    || nat_eq c 8239
    || nat_eq c 8287
    || nat_eq c 12288

unfoldable pub lstrip : String → String
lstrip [] = []
lstrip (c ∷ s) = elim (is_space (code c)) [ true ↦ lstrip s | false ↦ c ∷ s ]

unfoldable pub rstrip : String → String
rstrip [] = []
rstrip (c ∷ s) =
    let rest = rstrip s in if not (nonempty rest) && is_space (code c) then [] else c ∷ rest

unfoldable pub strip : String → String
unfolding lstrip rstrip
strip s = rstrip (lstrip s)

-- `text in (…)`
abbrev pub member : String → List String → Bool
member s List.[] = false
member s (List.◌∷◌ t ts) = s == t || member s ts

abbrev digit : ℕ → String
digit d =
    if nat_eq d 0
    then "0"
    else if nat_eq d 1
    then "1"
    else if nat_eq d 2
    then "2"
    else if nat_eq d 3
    then "3"
    else if nat_eq d 4
    then "4"
    else if nat_eq d 5
    then "5"
    else if nat_eq d 6
    then "6"
    else if nat_eq d 7
    then "7"
    else if nat_eq d 8
    then "8"
    else "9"

-- `str(n)`: the fuel is `n + 1`, and each round divides by ten.
decimal_from : ℕ → ℕ → String → String
decimal_from zero n acc = acc
decimal_from (suc fuel) n acc =
    let acc' = String.◌++◌ (digit (n % 10)) acc in
    let rest = decimal_from fuel (n / 10) acc' in if nat_eq (n / 10) 0 then acc' else rest

unfoldable pub decimal : ℕ → String
unfolding decimal_from
decimal n = decimal_from (suc n) n ""

-- `str.endswith`
unfoldable pub ends_with : String → String → Bool
ends_with [] t = [] == t
ends_with (c ∷ s) t = (c ∷ s) == t || ends_with s t

-- `first <= second` of two texts: by code points, as in Python and in SQLite's BINARY collation.
unfoldable pub leb_text : String → String → Bool
leb_text [] t = true
leb_text (c ∷ s) [] = false
leb_text (c ∷ s) (d ∷ t) =
    let rest = leb_text s t in if nat_eq (code c) (code d) then rest else leb (code c) (code d)

-- A text of `n` characters that all pass a test: a full match of `[…]{n}`.
abbrev pub all_of : (ℕ → Bool) → ℕ → String → Bool
all_of p zero [] = true
all_of p zero (c ∷ s) = false
all_of p (suc n) [] = false
all_of p (suc n) (c ∷ s) = p (code c) && all_of p n s

-- `text.startswith(prefix + "/")`
unfoldable pub under_folder : (text prefix : String) → Bool
under_folder [] p = false
under_folder (c ∷ s) [] = nat_eq (code c) 47
under_folder (c ∷ s) (d ∷ p) = nat_eq (code c) (code d) && under_folder s p

strip_example : strip "  a b\n" ≡ "a b"
unfolding strip
strip_example = refl

decimal_example : decimal 1024 ≡ "1024"
unfolding decimal
decimal_example = refl

ends_with_example : ends_with "X_WAIT" "WAIT" ≡ true
unfolding ends_with
ends_with_example = refl

pub strip-blank : strip " " ≡ ""
unfolding strip
strip-blank = refl

pub opt_eq→≡ : (a b : Option String) → opt_eq a b ≡ true → a ≡ b
opt_eq→≡ none none h = refl
opt_eq→≡ (some a) (some b) h = cc ((eq_iff a b).0 h)
opt_eq→≡ none (some b) h = cc
opt_eq→≡ (some a) none h = cc

pub opt_eq_refl : (a : Option String) → opt_eq a a ≡ true
opt_eq_refl none = refl
opt_eq_refl (some a) = eq_refl a

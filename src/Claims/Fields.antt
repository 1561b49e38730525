-- ===== src/Claims/Fields.antt =====
-- The checks that the stores of the claims product make of the texts that they are given.
use Prim.Native.Nat.{ℕ}
use Prim.Native.Char.{code}
use Prim.Native.String.{String, [], ◌∷◌, count}
use obrasignal.Base.{
  Bool, false, not, ◌&&◌, ◌||◌, Option, none, some, leb, ltb, if◌then◌else◌, ◌==◌ as nat_eq,
}
use obrasignal.Base.Text.{nonempty, strip}

-- `ord(char) < 32 or ord(char) == 127`
abbrev pub is_control : ℕ → Bool
is_control c = ltb c 32 || nat_eq c 127

-- The same, but for the tab and the ends of lines.
abbrev pub is_forbidden : ℕ → Bool
is_forbidden c = is_control c && not (nat_eq c 9 || nat_eq c 10 || nat_eq c 13)

-- `any(… for char in text)`
unfoldable pub any_char : (ℕ → Bool) → String → Bool
any_char p [] = false
any_char p (c ∷ s) = p (code c) || any_char p s

-- `_required` of the revisions and of the cases: controls are refused before the text is stripped.
unfoldable pub required : (max_chars : ℕ) (raw : String) → Option String
required max_chars raw =
    let text = strip raw in
    if any_char is_control raw
    then none
    else if not (nonempty text) || ltb max_chars (count text)
    then none
    else some text

-- `_required` of the proofs: controls are refused in what is left of the text.
unfoldable pub required_after : (max_chars : ℕ) (raw : String) → Option String
required_after max_chars raw =
    let text = strip raw in
    if not (nonempty text) || ltb max_chars (count text) || any_char is_control text
    then none
    else some text

abbrev is_alnum : ℕ → Bool
is_alnum c = (leb 48 c && leb c 57) || (leb 65 c && leb c 90) || (leb 97 c && leb c 122)

-- `[A-Za-z0-9_.-]`
abbrev is_name_char : ℕ → Bool
is_name_char c = is_alnum c || nat_eq c 95 || nat_eq c 46 || nat_eq c 45

-- `[A-Za-z0-9][A-Za-z0-9_.-]{0,63}`, matched in full.
unfoldable pub is_tenant_name : String → Bool
is_tenant_name [] = false
is_tenant_name (c ∷ s) =
    is_alnum (code c) && not (any_char (λ d. not (is_name_char d)) s) && leb (count s) 63

-- `_tenant`
unfoldable pub tenant_of : String → Option String
tenant_of raw = elim (required 64 raw) [
  | none ↦ none
  | some t ↦ if is_tenant_name t then some t else none
]

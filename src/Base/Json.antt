-- ===== src/Base/Json.antt =====
-- Decoded JSON: what `json.loads` gives and what the handlers take as dictionaries. Floats are left
-- out. The text that `str` gives to a list or an object is the parameter `repr` of `py_str`.
use Prim.Native.Nat.{suc}
use Prim.Native.String.{String}
use Prim.Native.String
use mathlib.Core.Bool.{Bool, true, false, not}
use mathlib.Core.Option.{Option, none, some}
use mathlib.Core.List.{List, [], ◌∷◌}
use obrasignal.Base.Tests.{if◌then◌else◌, ◌==◌ as nat_eq}
use obrasignal.Base.Int.{ℤ, pos, negsuc}
use obrasignal.Base.Text.{◌==◌, nonempty, decimal}

mutual
  pub data Json : Type 0 where
    null : Json
    bool : Bool → Json
    int : ℤ → Json
    str : String → Json
    arr : Items → Json
    obj : Fields → Json

  pub data Items : Type 0 where
    nil : Items
    cons : Json → Items → Items

  pub data Fields : Type 0 where
    end : Fields
    field : String → Json → Fields → Fields

abbrev pub items : Items → List Json
items nil = []
items (cons v vs) = v ∷ items vs

-- `fields.get(key)`: `None` for a key that is not there.
abbrev pub get : Fields → String → Json
get end key = null
get (field k v fs) key = elim (k == key) [ true ↦ v | false ↦ get fs key ]

-- `value.get(key)` of an object; another value has no `get`, and stands for an empty one.
abbrev pub fields : Json → Fields
fields (obj fs) = fs
fields _ = end

abbrev pub is_object : Json → Bool
is_object (obj fs) = true
is_object _ = false

abbrev pub is_true : Json → Bool
is_true (bool true) = true
is_true _ = false

abbrev pub is_false : Json → Bool
is_false (bool false) = true
is_false _ = false

abbrev pub is_null : Json → Bool
is_null null = true
is_null _ = false

abbrev pub is_str : Json → String → Bool
is_str (str s) t = s == t
is_str _ t = false

-- `bool(value)`
abbrev pub truthy : Json → Bool
truthy null = false
truthy (bool b) = b
truthy (int (pos n)) = not (nat_eq n 0)
truthy (int (negsuc n)) = true
truthy (str s) = nonempty s
truthy (arr nil) = false
truthy (arr (cons v vs)) = true
truthy (obj end) = false
truthy (obj (field k v fs)) = true

-- `first or second`
abbrev pub or_json : Json → Json → Json
or_json a b = if truthy a then a else b

module _ (repr : Json → String) where
  abbrev pub py_str : Json → String
  py_str null = "None"
  py_str (bool true) = "True"
  py_str (bool false) = "False"
  py_str (int (pos n)) = decimal n
  py_str (int (negsuc n)) = String.◌++◌ "-" (decimal (suc n))
  py_str (str s) = s
  py_str (arr vs) = repr (arr vs)
  py_str (obj fs) = repr (obj fs)

  -- `str(value or "")`
  abbrev pub text_or : Json → String
  text_or v = if truthy v then py_str v else ""

-- `fields.get(key, default)`
abbrev pub get_or : Fields → String → Json → Json
get_or end key d = d
get_or (field k v fs) key d = elim (k == key) [ true ↦ v | false ↦ get_or fs key d ]

-- `(value or {}).get(…)`: the object that is read, or `none` where `get` raises AttributeError.
abbrev pub object_or_empty : Json → Option Fields
object_or_empty (obj fs) = some fs
object_or_empty v = if truthy v then none else some end

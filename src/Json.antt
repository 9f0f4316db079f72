-- ===== src/Json.antt =====
-- src/reality_layer/reality_git/hashing.py, and the JSON values that the services carry (`Any`).
-- A finite double is `flt m e`, the number m / 2 ^ e. JSON has no other numbers, so `_canonicalize`
-- has no error here: tuples, decimals and non-finite floats are no JSON values.
pub mod Laws
use Prim.Native.String.{compare, ◌++◌ as append}
use Prim.Native.Nat.{Ordering}
use agents_reality_layer.Prelude.{
  nat_eq, string_eq, ℕ, suc, ◌^◌, String, Bool, true, false, ◌&&◌, Option, none, some, List, [],
  ◌∷◌, ◌==◌, if◌then◌else◌,
}
use agents_reality_layer.Prelude.Int.{ℤ, pos, scaled_eqb}
use agents_reality_layer.Prelude.Float.{Float}
use agents_reality_layer.Prelude.Time.{DateTime}
use agents_reality_layer.Dict.{Dict}

mutual
  pub data Value : Type 0 where
    null : Value
    bool : Bool → Value
    int : ℤ → Value
    flt : ℤ → ℕ → Value
    str : String → Value
    obj : Fields → Value
    arr : Items → Value

  -- what a dictionary holds, in its order
  pub data Fields : Type 0 where
    field : String → Value → Fields → Fields
    end : Fields

  -- what a list holds
  pub data Items : Type 0 where
    cons : Value → Items → Items
    nil : Items

-- A `dict[str, Any]` at the top of a model is a `Dict`; inside a value it is `Fields`.
abbrev pub Object : Type 0
Object = Dict String Value

abbrev pub fields_of : Object → Fields
fields_of [] = end
fields_of ((k, v) ∷ d) = field k v (fields_of d)

abbrev pub items_of : List Value → Items
items_of [] = nil
items_of (v ∷ vs) = cons v (items_of vs)

-- A number as a numerator over a power of two; `True` and `False` are numbers in Python.
abbrev pub numerator : Value → Option (ℤ × ℕ)
numerator (bool true) = some (pos 1, 0)
numerator (bool false) = some (pos 0, 0)
numerator (int n) = some (n, 0)
numerator (flt m e) = some (m, e)
numerator _ = none

abbrev pub num_eq : Option (ℤ × ℕ) → Option (ℤ × ℕ) → Bool
num_eq (some (a, d)) (some (b, e)) = scaled_eqb a (2 ^ e) b (2 ^ d)
num_eq _ _ = false

abbrev pub size_fields : Fields → ℕ
size_fields end = 0
size_fields (field k v fs) = suc (size_fields fs)

abbrev pub lookup_field : String → Fields → Option Value
lookup_field k end = none
lookup_field k (field j v fs) = if j == k then some v else lookup_field k fs

-- Python's `==` on JSON values: numbers by value, dictionaries whatever their order.
unfoldable mutual
  pub py_eq : Value → Value → Bool
  py_eq null null = true
  py_eq (str s) (str t) = s == t
  py_eq (arr xs) (arr ys) = items_eq xs ys
  py_eq (obj fs) (obj gs) = (size_fields fs == size_fields gs) && fields_in fs gs
  py_eq (bool b) w = num_eq (numerator (bool b)) (numerator w)
  py_eq (int n) w = num_eq (some (n, 0)) (numerator w)
  py_eq (flt m e) w = num_eq (some (m, e)) (numerator w)
  py_eq _ _ = false

  pub items_eq : Items → Items → Bool
  items_eq nil nil = true
  items_eq (cons x xs) (cons y ys) = py_eq x y && items_eq xs ys
  items_eq _ _ = false

  pub fields_in : Fields → Fields → Bool
  fields_in end gs = true
  fields_in (field k v fs) gs =
      elim (lookup_field k gs) [ none ↦ false | some w ↦ py_eq v w ] && fields_in fs gs

-- The keys in the order of their code points: `sorted(value, key=str)`.
unfoldable pub insert_field : String → Value → Fields → Fields
insert_field k v end = field k v end
insert_field k v (field j w fs) =
    let rest = insert_field k v fs in
    elim (compare k j) [ Ordering.gt ↦ field j w rest | _ ↦ field k v (field j w fs) ]

unfoldable mutual
  pub canonicalize : Value → Value
  canonicalize (arr xs) = arr (canonicalize_items xs)
  canonicalize (obj fs) = obj (canonicalize_fields fs)
  canonicalize v = v

  pub canonicalize_items : Items → Items
  canonicalize_items nil = nil
  canonicalize_items (cons v vs) = cons (canonicalize v) (canonicalize_items vs)

  pub canonicalize_fields : Fields → Fields
  canonicalize_fields end = end
  canonicalize_fields (field k v fs) = insert_field k (canonicalize v) (canonicalize_fields fs)

-- What the program takes from Python's libraries: `json.dumps` with sorted keys and no spaces,
-- SHA-256 of the UTF-8 in hexadecimal, `repr` of a value, the format `:g` of a float, the text that
-- pydantic writes for a time, and the methods `lower` and `capitalize` of a text.
pub record Platform : Type 0 where
  pub dumps : Value → String
  pub sha256_hex : String → String
  pub repr : Value → String
  pub format_g : Float → String
  pub isoformat : DateTime → String
  pub lower : String → String
  pub capitalize : String → String

module _ (py : Platform) where
  pub canonical_json : Value → String
  canonical_json v = py.dumps (canonicalize v)

  unfoldable pub hash_json : Value → String
  unfolding canonical_json
  hash_json v = append "sha256:" (py.sha256_hex (canonical_json v))

  -- `str(value)`: of a text the text, of any other JSON value its `repr`
  abbrev pub py_str : Value → String
  py_str (str s) = s
  py_str v = py.repr v

-- ===== src/Json/Defs.antt =====
-- The data type of JSON values, and what the program asks of a `dict`.
use Prim.Native.Nat.{ℕ}
use incident_desk.Prelude.{
  Bool, List, Option, Result, String, [], err, false, if◌then◌else◌, nat_eq, none, not, ok,
  other_error, some, string_eq, true, ◌&&◌, ◌==◌, ◌||◌, ◌∷◌,
}

mutual
  pub data Value : Type 0 where
    null : Value
    boolean : Bool → Value
    int : ℕ → Value
    real : String → Value
    string : String → Value
    array : Items → Value
    dict : Fields → Value

  pub data Items : Type 0 where
    no_items : Items
    item : Value → Items → Items

  pub data Fields : Type 0 where
    no_fields : Fields
    field : String → Value → Fields → Fields

-- d.get(k)
unfoldable pub get : String → Fields → Option Value
get k no_fields = none
get k (field j v fs) = if j == k then some v else get k fs

-- d.get(k), with the `None` of Python
unfoldable pub get_or_null : String → Fields → Value
unfolding get
get_or_null k fs = elim (get k fs) [ none ↦ null | some v ↦ v ]

-- bool(v)
unfoldable pub truthy : Value → Bool
truthy null = false
truthy (boolean b) = b
truthy (int n) = not (n == 0)
truthy (real t) = not (t == "0.0" || t == "-0.0")
truthy (string s) = not (s == "")
truthy (array no_items) = false
truthy (array (item _ _)) = true
truthy (dict no_fields) = false
truthy (dict (field _ _ _)) = true

-- a == b, but that two dicts are equal only in one order of their keys, and that numbers of
-- different Python types differ
unfoldable mutual
  pub same_value : Value → Value → Bool
  same_value null null = true
  same_value (boolean a) (boolean b) = if a then b else not b
  same_value (int a) (int b) = a == b
  same_value (real a) (real b) = a == b
  same_value (string a) (string b) = a == b
  same_value (array xs) (array ys) = same_items xs ys
  same_value (dict fs) (dict gs) = same_fields fs gs
  same_value _ _ = false

  pub same_items : Items → Items → Bool
  same_items no_items no_items = true
  same_items (item v xs) (item w ys) = same_value v w && same_items xs ys
  same_items _ _ = false

  pub same_fields : Fields → Fields → Bool
  same_fields no_fields no_fields = true
  same_fields (field j v fs) (field k w gs) = j == k && same_value v w && same_fields fs gs
  same_fields _ _ = false

-- v.get(k) on a value of unknown type
unfoldable pub method_get : String → Value → Result Value
unfolding get_or_null
method_get k (dict fs) = ok (get_or_null k fs)
method_get k _ = err (other_error "AttributeError")

-- v[k] on a dict
unfoldable pub index : String → Value → Result Value
unfolding get
index k (dict fs) = elim (get k fs) [ none ↦ err (other_error "KeyError") | some v ↦ ok v ]
index k _ = err (other_error "TypeError")

-- What a `set` or a `dict` compares keys by; lists and dicts cannot be hashed.
unfoldable pub hashable : Value → Bool
hashable (array _) = false
hashable (dict _) = false
hashable _ = true

-- A list of texts, as a value.
unfoldable pub texts : List String → Items
texts [] = no_items
texts (s ∷ rest) = item (string s) (texts rest)

-- ===== src/Json/Text.antt =====
-- Text as Python sees it: `string(n)`, slices, substring tests, and `json.dumps`, with and without
-- `sort_keys` and `ensure_ascii`.
use Prim.Native.Char.{Char, code}
use text.Mathlib.Text.{find?, is_lt}
use Prim.Native.String.{compare as compare_str}
use incident_desk.Prelude.{
  Bool, Option, String, false, if◌then◌else◌, leb, ltb, nat_eq, none, not, refl, some, string_eq,
  suc, true, zero, ℕ, ◌%◌, ◌&&◌, ◌+◌, ◌-◌, ◌/◌, ◌<>◌, ◌==◌, ◌||◌, ◌≡◌,
}
use incident_desk.Json.Defs.{
  Fields, Items, Value, array, boolean, dict, field, int, item, no_fields, no_items, null, real,
  string,
}

digit : ℕ → String
digit n =
    if n == 0
    then "0"
    else if n == 1
    then "1"
    else if n == 2
    then "2"
    else if n == 3
    then "3"
    else if n == 4
    then "4"
    else if n == 5
    then "5"
    else if n == 6
    then "6"
    else if n == 7
    then "7"
    else if n == 8
    then "8"
    else if n == 9
    then "9"
    else if n == 10
    then "a"
    else if n == 11
    then "b"
    else if n == 12
    then "c"
    else if n == 13
    then "d"
    else if n == 14
    then "e"
    else "f"

-- The fuel bounds the number of digits; `n` itself is enough.
digits : ℕ → ℕ → String
unfolding digit
digits zero n = digit n
digits (suc fuel) n =
    let rest = digits fuel (n / 10) in if ltb n 10 then digit n else rest <> digit (n % 10)

-- string(n)
unfoldable pub show : ℕ → String
unfolding digits
show n = digits n n

-- s[:n]
unfoldable pub take_chars : ℕ → String → String
take_chars zero s = ""
take_chars (suc n) String.[] = ""
take_chars (suc n) (String.◌∷◌ c s) = String.◌∷◌ c (take_chars n s)

-- s[n:]
unfoldable pub rest_after : ℕ → String → String
rest_after zero s = s
rest_after (suc n) String.[] = ""
rest_after (suc n) (String.◌∷◌ c s) = rest_after n s

-- s.removeprefix(p), if s starts with p
unfoldable pub after_prefix : String → String → Option String
after_prefix String.[] s = some s
after_prefix (String.◌∷◌ p ps) String.[] = none
after_prefix (String.◌∷◌ p ps) (String.◌∷◌ c s) =
    if code p == code c then after_prefix ps s else none

-- len(s)
unfoldable pub text_length : String → ℕ
text_length String.[] = 0
text_length (String.◌∷◌ c s) = suc (text_length s)

unfoldable pub in_range : ℕ → ℕ → ℕ → Bool
in_range low high n = leb low n && leb n high

-- The characters of `str.isspace`, which `\s` in a pattern matches.
unfoldable pub is_space : ℕ → Bool
unfolding in_range
is_space n =
    in_range 9 13 n
    || in_range 28 32 n
    || n == 133
    || n == 160
    || n == 5760
    || in_range 8192 8202 n
    || n == 8232
    || n == 8233
    || n == 8239
    || n == 8287
    || n == 12288

-- s.strip()
unfoldable pub left_stripped : String → String
unfolding is_space
left_stripped String.[] = ""
left_stripped (String.◌∷◌ c s) =
    let rest = left_stripped s in if is_space (code c) then rest else String.◌∷◌ c s

-- A character before a text whose end is stripped.
before_end : Char → String → String
unfolding is_space
before_end c String.[] = if is_space (code c) then "" else String.◌∷◌ c ""
before_end c s = String.◌∷◌ c s

right_stripped : String → String
unfolding before_end
right_stripped String.[] = ""
right_stripped (String.◌∷◌ c s) = before_end c (right_stripped s)

unfoldable pub strip : String → String
unfolding left_stripped right_stripped
strip s = right_stripped (left_stripped s)

-- t in s
unfoldable pub has_substring : String → String → Bool
has_substring t s = elim (find? s t) [ none ↦ false | some _ ↦ true ]

-- \uXXXX
unicode_escape : ℕ → String
unfolding digit
unicode_escape n =
    "\\u" <> digit (n / 4096 % 16) <> digit (n / 256 % 16) <> digit (n / 16 % 16) <> digit (n % 16)

-- One character inside a JSON string. Above the BMP, `ensure_ascii` writes a surrogate pair.
escape_char : Bool → Char → String
unfolding unicode_escape
escape_char ascii c =
    let n = code c in
    if n == 34
    then "\\\""
    else if n == 92
    then "\\\\"
    else if n == 10
    then "\\n"
    else if n == 13
    then "\\r"
    else if n == 9
    then "\\t"
    else if n == 8
    then "\\b"
    else if n == 12
    then "\\f"
    else if ltb n 32
    then unicode_escape n
    else if not ascii || ltb n 127
    then String.◌∷◌ c ""
    else if n == 127
    then String.◌∷◌ c ""
    else if ltb n 65536
    then unicode_escape n
    else unicode_escape (55296 + (n - 65536) / 1024) <> unicode_escape (56320 + (n - 65536) % 1024)

escape : Bool → String → String
unfolding escape_char
escape ascii String.[] = ""
escape ascii (String.◌∷◌ c s) = escape_char ascii c <> escape ascii s

quote : Bool → String → String
unfolding escape
quote ascii s = "\"" <> escape ascii s <> "\""

unfoldable mutual
  unfolding quote show

  pub dumps : Bool → Value → String
  dumps ascii null = "null"
  dumps ascii (boolean true) = "true"
  dumps ascii (boolean false) = "false"
  dumps ascii (int n) = show n
  dumps ascii (real t) = t
  dumps ascii (string s) = quote ascii s
  dumps ascii (array xs) = "[" <> dumps_items ascii "" xs <> "]"
  dumps ascii (dict fs) = "{" <> dumps_fields ascii "" fs <> "}"

  pub dumps_items : Bool → String → Items → String
  dumps_items ascii sep no_items = ""
  dumps_items ascii sep (item x xs) = sep <> dumps ascii x <> dumps_items ascii ", " xs

  pub dumps_fields : Bool → String → Fields → String
  dumps_fields ascii sep no_fields = ""
  dumps_fields ascii sep (field k v fs) =
      sep <> quote ascii k <> ": " <> dumps ascii v <> dumps_fields ascii ", " fs

-- sorted(d.items()), by the code points of the keys
insert_field : String → Value → Fields → Fields
insert_field k v no_fields = field k v no_fields
insert_field k v (field j w fs) =
    if is_lt (compare_str k j) then field k v (field j w fs) else field j w (insert_field k v fs)

unfoldable mutual
  unfolding insert_field

  pub sort_keys : Value → Value
  sort_keys (array xs) = array (sort_keys_items xs)
  sort_keys (dict fs) = dict (sort_keys_fields fs)
  sort_keys v = v

  pub sort_keys_items : Items → Items
  sort_keys_items no_items = no_items
  sort_keys_items (item x xs) = item (sort_keys x) (sort_keys_items xs)

  pub sort_keys_fields : Fields → Fields
  sort_keys_fields no_fields = no_fields
  sort_keys_fields (field k v fs) = insert_field k (sort_keys v) (sort_keys_fields fs)

dumps_runs :
    dumps true (
      sort_keys (
        dict (
          field "b"
            (array (item (int 12) (item null no_items)))
            (field "a" (string "é\n") no_fields))))
    ≡ "{\"a\": \"\\u00e9\\n\", \"b\": [12, null]}"
unfolding dumps sort_keys
dumps_runs = refl

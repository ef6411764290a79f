-- ===== src/Worker/Redaction.antt =====
-- worker/incident_worker/redaction.py. The two regular expressions are read as matchers: where one
-- matches at the head of a text it gives group 1 and what follows the match.
pub mod Sealed
use Prim.Native.Char.{code}
use incident_desk.Prelude.{
  Bool, Option, String, [], false, if◌then◌else◌, nat_eq, none, not, some, string_eq, suc, zero, ℕ,
  ◌+◌, ◌-◌, ◌<>◌, ◌==◌, ◌||◌, ◌∷◌,
}
use incident_desk.Json.Defs.{
  Fields, Items, Value, array, dict, field, item, no_fields, no_items, string,
}
use incident_desk.Json.Text.{in_range, is_space, take_chars}
use incident_desk.Worker.Contracts.{object_eq, source_eq}

-- The case folding of `(?i)` where it reaches the letters of the patterns: A to Z, dotted and
-- dotless I, the long s and the Kelvin sign.
fold_case : ℕ → ℕ
unfolding in_range
fold_case n =
    if in_range 65 90 n
    then n + 32
    else if n == 304 || n == 305
    then 105
    else if n == 383
    then 115
    else if n == 8490
    then 107
    else n

-- The text after `word`, in any case; `word` is in lower case.
after_word : String → String → Option String
unfolding fold_case
after_word String.[] s = some s
after_word (String.◌∷◌ w ws) String.[] = none
after_word (String.◌∷◌ w ws) (String.◌∷◌ c s) =
    if code w == fold_case (code c) then after_word ws s else none

-- The longest prefix whose characters satisfy `p`, and the rest.
span : (ℕ → Bool) → String → String × String
span p String.[] = ("", "")
span p (String.◌∷◌ c s) =
    let (taken, rest) = span p s in
    if p (code c) then (String.◌∷◌ c taken, rest) else ("", String.◌∷◌ c s)

pub chars : String → ℕ
chars String.[] = 0
chars (String.◌∷◌ c s) = suc (chars s)

-- [^\s,"]
is_token : ℕ → Bool
unfolding is_space
is_token n = not (is_space n || n == 44 || n == 34)

-- [^\s,"]+, and the text after it
after_token : String → Option String
unfolding span is_token
after_token s = let (taken, rest) = span is_token s in if chars taken == 0 then none else some rest

-- (?:Bearer\s+)?[^\s,"]+
after_bearer : String → Option String
unfolding after_word span is_space after_token
after_bearer s = elim (after_word "bearer" s) [
  | none ↦ after_token s
  | some r ↦
      let (gap, rest) = span is_space r in
      if chars gap == 0
      then after_token s
      else elim (after_token rest) [ none ↦ after_token s | some end ↦ some end ]
]

-- \s*[:=]\s*, and the text after it
after_separator : String → Option String
unfolding span is_space
after_separator s = elim ((span is_space s).1) [
  | String.[] ↦ none
  | String.◌∷◌ c rest ↦ if code c == 58 || code c == 61 then some (span is_space rest).1 else none
]

abbrev first_of_two {ℓ} : {A : Type ℓ} → Option A → Option A → Option A
first_of_two (some a) other = some a
first_of_two none other = other

-- api[_-]?key|password|secret|token
after_secret_word : String → Option String
unfolding after_word
after_secret_word s = first_of_two (after_word "apikey" s) (
    first_of_two (after_word "api_key" s) (
      first_of_two (after_word "api-key" s) (
        first_of_two (after_word "password" s)
          (first_of_two (after_word "secret" s) (after_word "token" s)))))

abbrev then_match : Option String → (String → Option String) → Option String
then_match none f = none
then_match (some s) f = f s

-- The two patterns: where group 1 ends, and where the match ends.
abbrev Matcher : Type 0
Matcher = String → Option (String × String)

abbrev matcher : (String → Option String) → (String → Option String) → Matcher
matcher group value s = elim (then_match (group s) after_separator) [
  | none ↦ none
  | some g ↦ elim (value g) [ none ↦ none | some rest ↦ some (g, rest) ]
]

authorization_pattern : Matcher
unfolding after_word after_separator after_bearer
authorization_pattern = matcher (after_word "authorization") after_bearer

secret_pattern : Matcher
unfolding after_secret_word after_separator after_token
secret_pattern = matcher after_secret_word after_token

abbrev pub redacted : String
redacted = "[REDACTED]"

-- pattern.sub(r"\1[REDACTED]", s); `skip` characters of a match are still to be passed over.
substitute : Matcher → ℕ → String → String
unfolding chars take_chars
substitute m skip String.[] = ""
substitute m (suc skip) (String.◌∷◌ c s) = substitute m skip s
substitute m zero (String.◌∷◌ c s) =
    let here = String.◌∷◌ c s in
    elim (m here) [
      | none ↦ String.◌∷◌ c (substitute m zero s)
      | some (g, rest) ↦
          take_chars (chars here - chars g) here
          <> (redacted <> substitute m (chars here - chars rest - 1) s)
    ]

unfoldable pub redact_text : String → String
unfolding substitute authorization_pattern secret_pattern
redact_text s = substitute secret_pattern zero (substitute authorization_pattern zero s)

-- re.fullmatch(r"(?i)(authorization|api[_-]?key|password|secret|token)", k)
ends_here : Option String → Bool
unfolding chars
ends_here none = false
ends_here (some rest) = chars rest == 0

unfoldable pub is_sensitive : String → Bool
unfolding ends_here after_word after_secret_word
is_sensitive k = ends_here (after_word "authorization" k) || ends_here (after_secret_word k)

unfoldable mutual
  unfolding redact_text is_sensitive

  pub redact : Value → Value
  redact (string s) = string (redact_text s)
  redact (array xs) = array (redact_items xs)
  redact (dict fs) = dict (redact_fields fs)
  redact v = v

  pub redact_items : Items → Items
  redact_items no_items = no_items
  redact_items (item v xs) = item (redact v) (redact_items xs)

  pub redact_fields : Fields → Fields
  redact_fields no_fields = no_fields
  redact_fields (field k v fs) =
      let kept = redact v in
      field k (if is_sensitive k then string redacted else kept) (redact_fields fs)

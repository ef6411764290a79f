-- ===== src/Worker/Redaction/Sealed.antt =====
-- What is left of a value after redaction.
use incident_desk.Prelude.{
  Bool, arith, false, if◌then◌else◌, nat_eq, not, refl, string_eq, true, ◌&&◌, ◌==◌, ◌≡◌,
}
use incident_desk.Json.Defs.{
  Fields, Items, Value, array, boolean, dict, field, int, item, no_fields, no_items, null, real,
  string,
}
use incident_desk.Worker.Contracts.{object_eq, source_eq}
use incident_desk.Worker.Redaction.{is_sensitive, redact, redact_fields, redact_items, redacted}

pub is_placeholder : Value → Bool
is_placeholder (string s) = s == redacted
is_placeholder _ = false

-- Below every key that names a secret stands the placeholder and nothing else, at every depth.
unfoldable mutual
  unfolding is_placeholder

  pub sealed : Value → Bool
  sealed (array xs) = sealed_items xs
  sealed (dict fs) = sealed_fields fs
  sealed _ = true

  pub sealed_items : Items → Bool
  sealed_items no_items = true
  sealed_items (item v xs) = sealed v && sealed_items xs

  pub sealed_fields : Fields → Bool
  sealed_fields no_fields = true
  sealed_fields (field k v fs) =
      let below = sealed v in
      (if is_sensitive k then is_placeholder v else below) && sealed_fields fs

unfoldable mutual
  -- The same keys at the same places, and the same other leaves but for the texts.
  pub same_shape : Value → Value → Bool
  same_shape null null = true
  same_shape (boolean a) (boolean b) = if a then b else not b
  same_shape (int a) (int b) = a == b
  same_shape (real a) (real b) = a == b
  same_shape (string a) (string b) = true
  same_shape (array xs) (array ys) = same_shape_items xs ys
  same_shape (dict fs) (dict gs) = same_shape_fields fs gs
  same_shape _ _ = false

  pub same_shape_items : Items → Items → Bool
  same_shape_items no_items no_items = true
  same_shape_items (item v xs) (item w ys) = same_shape v w && same_shape_items xs ys
  same_shape_items _ _ = false

  pub same_shape_fields : Fields → Fields → Bool
  same_shape_fields no_fields no_fields = true
  same_shape_fields (field j v fs) (field k w gs) =
      let below = same_shape v w in
      j == k && (if is_sensitive j then is_placeholder w else below) && same_shape_fields fs gs
  same_shape_fields _ _ = false

mutual
  unfolding sealed redact

  redact-sealed : (v : Value) → sealed (redact v) ≡ true
  redact-sealed null = refl
  redact-sealed (boolean b) = refl
  redact-sealed (int n) = refl
  redact-sealed (real t) = refl
  redact-sealed (string s) = refl
  redact-sealed (array xs) = redact_items-sealed xs
  redact-sealed (dict fs) = redact_fields-sealed fs

  redact_items-sealed : (xs : Items) → sealed_items (redact_items xs) ≡ true
  redact_items-sealed no_items = refl
  redact_items-sealed (item v xs) = ground (arith, redact-sealed v, redact_items-sealed xs)

  redact_fields-sealed : (fs : Fields) → sealed_fields (redact_fields fs) ≡ true
  redact_fields-sealed no_fields = refl
  redact_fields-sealed (field k v fs) =
      ground (arith, redact-sealed v, redact_fields-sealed fs, string_eq.beq_iff redacted redacted)

shape_below :
    (secret : Bool) (v w : Value)
    → same_shape v w ≡ true
    → (if secret
        then is_placeholder (if secret then string redacted else w)
        else same_shape v (if secret then string redacted else w))
      ≡ true
unfolding is_placeholder
shape_below true v w h = refl
shape_below false v w h = h

and_intro : (a b : Bool) → a ≡ true → b ≡ true → (a && b) ≡ true
and_intro a b p q = ground arith

mutual
  unfolding same_shape redact

  redact-shape : (v : Value) → same_shape v (redact v) ≡ true
  redact-shape null = refl
  redact-shape (boolean true) = refl
  redact-shape (boolean false) = refl
  redact-shape (int n) = (nat_eq.beq_iff n n).1 refl
  redact-shape (real t) = (string_eq.beq_iff t t).1 refl
  redact-shape (string s) = refl
  redact-shape (array xs) = redact_items-shape xs
  redact-shape (dict fs) = redact_fields-shape fs

  redact_items-shape : (xs : Items) → same_shape_items xs (redact_items xs) ≡ true
  redact_items-shape no_items = refl
  redact_items-shape (item v xs) = ground (arith, redact-shape v, redact_items-shape xs)

  redact_fields-shape : (fs : Fields) → same_shape_fields fs (redact_fields fs) ≡ true
  redact_fields-shape no_fields = refl
  redact_fields-shape (field k v fs) =
      and_intro _ _
        (and_intro _ _ ((string_eq.beq_iff k k).1 refl)
          (shape_below (is_sensitive k) v (redact v) (redact-shape v)))
        (redact_fields-shape fs)

-- Redaction leaves the placeholder, and nothing else, below every key that names a secret, at every
-- depth, and keeps all else in place: the same keys and list positions, the same numbers, Booleans
-- and nulls, and a text for a text.
pub redact_safe : (v : Value) → (sealed (redact v) ≡ true) × (same_shape v (redact v) ≡ true)
redact_safe v = (redact-sealed v, redact-shape v)

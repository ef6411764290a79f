-- ===== src/Prelude/Errors.antt =====
-- Exceptions as values. The constructors are the classes that the program tells apart; the text is
-- the exception's message.
use Prim.Native.Nat.{ℕ}
use Prim.Native.String.{String}
use mathlib.Core.Path.{◌≡◌, refl, subst}
use mathlib.Core.Bool.{Bool, true, false}
use incident_desk.Prelude.Tests.{if◌then◌else◌}
use mathlib.Core.Logic.{◌⊎◌, inl, inr}

pub data Exc : Type 0 where
  value_error permission_error runtime_error : String → Exc
  -- httpx.HTTPStatusError, with the status code
  http_status : ℕ → Exc
  -- a class below httpx.TransportError (ConnectError, ReadTimeout, ...), by its name
  transport_error : String → Exc
  -- any other class, by its name
  other_error : String → Exc

-- type(exc).__name__
abbrev pub class_name : Exc → String
class_name (value_error _) = "ValueError"
class_name (permission_error _) = "PermissionError"
class_name (runtime_error _) = "RuntimeError"
class_name (http_status _) = "HTTPStatusError"
class_name (transport_error name) = name
class_name (other_error name) = name

pub data Result {ℓ} (A : Type ℓ) : Type ℓ where
  ok : A → Result A
  err : Exc → Result A

-- A method that changes an object and may raise: what was written before a raise stays written.
abbrev pub Exec {ℓ} : Type ℓ → Type ℓ → Type ℓ
Exec S A = S → Result A × S

module _ {ℓ} {S A : Type ℓ} where
  abbrev pub lift : Result A → Exec S A
  lift r s = (r, s)

  abbrev pub raise : Exc → Exec S A
  raise e s = (err e, s)

  abbrev pub pure : A → Exec S A
  pure a s = (ok a, s)

module _ {ℓ} {S A B : Type ℓ} where
  abbrev pub continue : Result A → (A → Exec S B) → Exec S B
  continue (ok a) f s = f a s
  continue (err e) f s = (err e, s)

  infixl 5 ◌>>=◌ ◌>>◌
  abbrev pub ◌>>=◌ : Exec S A → (A → Exec S B) → Exec S B
  ◌>>=◌ m f s = let (r, s') = m s in continue r f s'

  abbrev pub ◌>>◌ : Exec S A → Exec S B → Exec S B
  m >> n = m >>= λ _. n

  -- A block keeps what its steps keep, whether it returns or raises.
  pub continue_keeps {κ} :
      (P : S → Type κ) (r : Result A) (f : A → Exec S B) (s : S)
      → P s
      → ((a : A) → r ≡ ok a → P (f a s).1)
      → P (continue r f s).1
  continue_keeps P (ok a) f s h k = k a refl
  continue_keeps P (err e) f s h k = h

module _ {ℓ} {S A B : Type ℓ} where
  -- A block that returns has a first step that returned.
  pub continue-eq-ok :
      (r : Result A) (f : A → Exec S B) (s : S) {b : B}
      → (continue r f s).0 ≡ ok b
      → (a : A) × (r ≡ ok a)
  continue-eq-ok (ok a) f s h = (a, refl)
  continue-eq-ok (err e) f s h = cc

pub is_ok {ℓ} : {A : Type ℓ} → Result A → Bool
is_ok (ok _) = true
is_ok (err _) = false

pub ok-injective {ℓ} : {A : Type ℓ} {a b : A} → ok a ≡ ok b → a ≡ b
ok-injective h = cc

-- To split on a computed result and keep the equation.
pub Result-cases {ℓ} :
    {A : Type ℓ} (r : Result A) → ((a : A) × (r ≡ ok a)) ⊎ ((e : Exc) × (r ≡ err e))
Result-cases (ok a) = inl (a, refl)
Result-cases (err e) = inr (e, refl)

-- If there is a result, `P` holds of it.
abbrev pub Yields {ℓ κ} : {A : Type ℓ} → (A → Type κ) → Result A → Type κ
Yields P (ok a) = P a
Yields P (err e) = Unit

module _ {ℓ κ} {S A B : Type ℓ} where
  pub continue-Yields :
      (P : B → Type κ) (r : Result A) (f : A → Exec S B) (s : S)
      → ((a : A) → r ≡ ok a → Yields P (f a s).0)
      → Yields P (continue r f s).0
  continue-Yields P (ok a) f s k = k a refl
  continue-Yields P (err e) f s k = tt

pub Yields-ok {ℓ κ} :
    {A : Type ℓ} (P : A → Type κ) (r : Result A) {a : A} → r ≡ ok a → Yields P r → P a
Yields-ok P r e y = subst (Yields P) e y

-- The rest of a block that only computes.
abbrev pub and_then {ℓ} : {A B : Type ℓ} → Result A → (A → Result B) → Result B
and_then (ok a) f = f a
and_then (err e) f = err e

pub and_then-Yields {ℓ κ μ} :
    {A B : Type ℓ} (P : A → Type κ) (Q : B → Type μ) (r : Result A) (f : A → Result B)
    → Yields P r
    → ((a : A) → P a → Yields Q (f a))
    → Yields Q (and_then r f)
and_then-Yields P Q (ok a) f h k = k a h
and_then-Yields P Q (err e) f h k = tt

pub always {ℓ} : {A : Type ℓ} (r : Result A) → Yields (λ a. Unit {0}) r
always (ok a) = tt
always (err e) = tt

-- A test that raises, before the rest.
pub Yields-guard {ℓ κ} :
    {A : Type ℓ} (P : A → Type κ) (b : Bool) (e : Exc) (r : Result A)
    → (b ≡ false → Yields P r)
    → Yields P (if b then err e else r)
Yields-guard P true e r h = tt
Yields-guard P false e r h = h refl

pub Yields-map {ℓ κ μ} :
    {A : Type ℓ} (P : A → Type κ) (Q : A → Type μ) (r : Result A)
    → ((a : A) → P a → Q a)
    → Yields P r
    → Yields Q r
Yields-map P Q (ok a) f h = f a h
Yields-map P Q (err e) f h = tt

-- `m` keeps `P`, whether it returns or raises: one rule for each way to build a method.
pub record Keeps {ℓ κ} {S A : Type ℓ} (P : S → Type κ) (m : Exec S A) : Type (ℓ ⊔ κ) where
  pub at : (s : S) → P s → P (m s).1

module _ {ℓ κ} {S A : Type ℓ} {P : S → Type κ} where
  pub Keeps-lift : (r : Result A) → Keeps P (lift {S = S} r)
  Keeps-lift r = record { at = λ s h. h }

  pub Keeps-raise : (e : Exc) → Keeps P (raise {S = S} {A = A} e)
  Keeps-raise e = record { at = λ s h. h }

  pub Keeps-pure : (a : A) → Keeps P (pure {S = S} a)
  Keeps-pure a = record { at = λ s h. h }

module _ {ℓ κ} {S A B : Type ℓ} {P : S → Type κ} where
  pub Keeps-bind :
      (m : Exec S A) (f : A → Exec S B) → Keeps P m → ((a : A) → Keeps P (f a)) → Keeps P (m >>= f)
  Keeps-bind m f km kf = record {
    at = λ s h.
        continue_keeps P (m s).0 f (m s).1 (km.at s h) (λ a _. (kf a).at (m s).1 (km.at s h));
  }

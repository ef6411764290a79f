-- ===== src/Prelude/Lists.antt =====
-- Python's lists: length, slices, `in`, `any`, `all`, and `list(dict.fromkeys(xs))`.
use Prim.Native.Nat.{ℕ, zero, suc, ◌+◌, ◌≤◌, min}
use mathlib.Core.Path.{◌≡◌, refl, ap}
use mathlib.Core.Logic.{◌⊎◌, inl, inr}
use mathlib.Core.Bool.{Bool, true, false, not, ◌&&◌, ◌||◌}
use mathlib.Core.List.{List, [], ◌∷◌, ◌++◌, map}
use native.Mathlib.Omega.{arith}
use incident_desk.Prelude.Tests.{if◌then◌else◌, Eq, ◌==◌, Bool-cases}

module _ {ℓ} {A : Type ℓ} where
  abbrev pub length : List A → ℕ
  length [] = 0
  length (x ∷ xs) = suc (length xs)

  -- xs[:n]
  abbrev pub take : ℕ → List A → List A
  take zero xs = []
  take (suc n) [] = []
  take (suc n) (x ∷ xs) = x ∷ take n xs

  -- xs[n:]
  abbrev pub drop : ℕ → List A → List A
  drop zero xs = xs
  drop (suc n) [] = []
  drop (suc n) (x ∷ xs) = drop n xs

  -- [x for x in xs if p(x)]
  abbrev pub select : (A → Bool) → List A → List A
  select p [] = []
  select p (x ∷ xs) = if p x then x ∷ select p xs else select p xs

  abbrev pub any : (A → Bool) → List A → Bool
  any p [] = false
  any p (x ∷ xs) = p x || any p xs

  abbrev pub all : (A → Bool) → List A → Bool
  all p [] = true
  all p (x ∷ xs) = p x && all p xs

  -- A statement about every element, by recursion: it computes to a tuple.
  abbrev pub All {κ} : (A → Type κ) → List A → Type κ
  All P [] = Unit
  All P (x ∷ xs) = P x × All P xs

  abbrev pub AnyOf : (A → Type 0) → List A → Type 0
  AnyOf P [] = ⊥
  AnyOf P (x ∷ xs) = P x ⊎ AnyOf P xs

  pub AnyOf-of-any :
      (test : A → Bool) (P : A → Type 0)
      → ((x : A) → test x ≡ true → P x)
      → (xs : List A) → any test xs ≡ true
      → AnyOf P xs
  AnyOf-of-any test P f [] h = cc
  AnyOf-of-any test P f (x ∷ xs) h = elim (Bool-cases (test x)) [
    | inl e ↦ inl (f x e)
    | inr e ↦ inr (AnyOf-of-any test P f xs (rw e at h))
  ]

module _ {ℓ} {A : Type ℓ} where
  pub length-append : (xs ys : List A) → length (xs ++ ys) ≡ length xs + length ys
  length-append [] ys = omega arith
  length-append (x ∷ xs) ys = omega (arith, length-append xs ys)

  pub length-take : (n : ℕ) (xs : List A) → length (take n xs) ≡ min n (length xs)
  length-take zero xs = omega arith
  length-take (suc n) [] = omega arith
  length-take (suc n) (x ∷ xs) = omega (arith, length-take n xs)

  pub length-select : (p : A → Bool) (xs : List A) → length (select p xs) ≤ length xs
  length-select p [] = omega arith
  length-select p (x ∷ xs) = ground (arith, length-select p xs)

  pub All-append {κ} : (P : A → Type κ) (xs ys : List A) → All P xs → All P ys → All P (xs ++ ys)
  All-append P [] ys h k = k
  All-append P (x ∷ xs) ys h k = (h.0, All-append P xs ys h.1 k)

  pub All-map {κ μ} :
      (P : A → Type κ) (Q : A → Type μ) (xs : List A) → ((x : A) → P x → Q x) → All P xs → All Q xs
  All-map P Q [] f h = tt
  All-map P Q (x ∷ xs) f h = (f x h.0, All-map P Q xs f h.1)

  pub All-take {κ} : (P : A → Type κ) (n : ℕ) (xs : List A) → All P xs → All P (take n xs)
  All-take P zero xs h = tt
  All-take P (suc n) [] h = tt
  All-take P (suc n) (x ∷ xs) h = (h.0, All-take P n xs h.1)

  pub All-always {κ} : (P : A → Type κ) (xs : List A) → ((x : A) → P x) → All P xs
  All-always P [] f = tt
  All-always P (x ∷ xs) f = (f x, All-always P xs f)

  -- What a comprehension keeps satisfies its test.
  pub All-select : (p : A → Bool) (xs : List A) → All (λ x. p x ≡ true) (select p xs)
  All-select p [] = tt
  All-select p (x ∷ xs) = elim (Bool-cases (p x)) [
    | inl kept ↦ rw kept (kept, All-select p xs)
    | inr gone ↦ rw gone (All-select p xs)
  ]

  pub All-of-select {κ} :
      (P : A → Type κ) (p : A → Bool) (xs : List A) → All P xs → All P (select p xs)
  All-of-select P p [] h = tt
  All-of-select P p (x ∷ xs) h = elim (Bool-cases (p x)) [
    | inl kept ↦ rw kept (h.0, All-of-select P p xs h.1)
    | inr gone ↦ rw gone (All-of-select P p xs h.1)
  ]

  pub length-map {κ} : {B : Type κ} (f : A → B) (xs : List A) → length (map f xs) ≡ length xs
  length-map f [] = refl
  length-map f (x ∷ xs) = ap suc (length-map f xs)

module _ {ℓ} {A : Type ℓ} ⦃e : Eq A⦄ where
  -- x in xs
  abbrev pub contains : A → List A → Bool
  contains a [] = false
  contains a (x ∷ xs) = a == x || contains a xs

  -- set(xs) <= set(ys)
  abbrev pub included : List A → List A → Bool
  included [] ys = true
  included (x ∷ xs) ys = contains x ys && included xs ys

  -- Each value once, in the order of its first occurrence, except those in `seen`.
  abbrev pub dedup_from : List A → List A → List A
  dedup_from seen [] = []
  dedup_from seen (x ∷ xs) =
      let rest = dedup_from (x ∷ seen) xs in
      let skip = dedup_from seen xs in if contains x seen then skip else x ∷ rest

  -- list(dict.fromkeys(xs))
  abbrev pub dedup : List A → List A
  dedup = dedup_from []

  abbrev pub NoRepeats : List A → Type 0
  NoRepeats [] = Unit
  NoRepeats (x ∷ xs) = (contains x xs ≡ false) × NoRepeats xs

module _ {ℓ} {A : Type ℓ} ⦃e : Eq A⦄ where
  pub contains-append :
      (a : A) (xs ys : List A) → contains a (xs ++ ys) ≡ (contains a xs || contains a ys)
  contains-append a [] ys = refl
  contains-append a (x ∷ xs) ys = ground (arith, contains-append a xs ys)

  pub contains-dedup_from :
      (a : A) (seen xs : List A)
      → contains a (dedup_from seen xs) ≡ (not (contains a seen) && contains a xs)
  contains-dedup_from a seen [] = ground arith
  contains-dedup_from a seen (x ∷ xs) =
      ground
        (arith, contains-dedup_from a seen xs, contains-dedup_from a (x ∷ seen) xs, e.beq_iff a x)

  pub NoRepeats-dedup_from : (seen xs : List A) → NoRepeats (dedup_from seen xs)
  NoRepeats-dedup_from seen [] = tt
  NoRepeats-dedup_from seen (x ∷ xs) = elim (Bool-cases (contains x seen)) [
    | inl old ↦ rw old (NoRepeats-dedup_from seen xs)
    | inr new ↦ rw new (
      ground (arith, contains-dedup_from x (x ∷ seen) xs, e.beq_iff x x),
      NoRepeats-dedup_from (x ∷ seen) xs,
    )
  ]

  pub contains-take :
      (a : A) (n : ℕ) (xs : List A) → contains a (take n xs) ≡ true → contains a xs ≡ true
  contains-take a zero xs h = cc
  contains-take a (suc n) [] h = cc
  contains-take a (suc n) (x ∷ xs) h = ground (arith, contains-take a n xs)

  pub NoRepeats-take : (n : ℕ) (xs : List A) → NoRepeats xs → NoRepeats (take n xs)
  NoRepeats-take zero xs h = tt
  NoRepeats-take (suc n) [] h = tt
  NoRepeats-take (suc n) (x ∷ xs) h =
      (ground (arith, contains-take x n xs), NoRepeats-take n xs h.1)

  pub included-append :
      (xs ys zs : List A)
      → included xs zs ≡ true
      → included ys zs ≡ true
      → included (xs ++ ys) zs ≡ true
  included-append [] ys zs h k = k
  included-append (x ∷ xs) ys zs h k = ground (arith, included-append xs ys zs)

  pub included-contains :
      (a : A) (xs ys : List A) → included xs ys ≡ true → contains a xs ≡ true → contains a ys ≡ true
  included-contains a [] ys h m = cc
  included-contains a (x ∷ xs) ys h m = elim (Bool-cases (a == x)) [
    | inl same ↦ rw ((e.beq_iff a x).0 same) (ground arith)
    | inr other ↦ included-contains a xs ys (ground arith) (ground arith)
  ]

  pub included_of_contains :
      (xs ys : List A)
      → ((a : A) → contains a xs ≡ true → contains a ys ≡ true)
      → included xs ys ≡ true
  included_of_contains [] ys f = refl
  included_of_contains (x ∷ xs) ys f = ground (
    arith,
    f x (ground (arith, e.beq_iff x x)),
    included_of_contains xs ys (λ a m. f a (ground arith)),
  )

  pub included_trans :
      (xs ys zs : List A) → included xs ys ≡ true → included ys zs ≡ true → included xs zs ≡ true
  included_trans [] ys zs h k = refl
  included_trans (x ∷ xs) ys zs h k =
      ground (arith, included-contains x ys zs k, included_trans xs ys zs)

  pub included_append_left : (xs ys : List A) → included xs (xs ++ ys) ≡ true
  included_append_left xs ys =
      included_of_contains xs (xs ++ ys) (λ a m. ground (arith, contains-append a xs ys))

-- ===== src/Query/Knowledge/Build/Batches.antt =====
-- What is sent in batches arrives as if it were sent at once.
use mathlib.Core.List.{map-append}
use incident_desk.Prelude.{
  Exec, List, Option, Result, String, [], ap, arith, continue, continue-eq-ok, drop, err, length,
  length-take, map, none, ok, pure, refl, some, subst, suc, sym, take, zero, ℕ, ◌++◌, ◌+◌, ◌>>=◌,
  ◌∙◌, ◌∷◌, ◌≡◌, ◌≤◌,
}
use incident_desk.Query.Knowledge.{Outside, Stores, onto, put_all, put_by}
use incident_desk.Query.Knowledge.Build.{
  embed_all, embed_batch, request_store, send_batches, settle,
}

take-drop {ℓ} : {A : Type ℓ} (n : ℕ) (xs : List A) → take n xs ++ drop n xs ≡ xs
take-drop zero xs = refl
take-drop (suc n) [] = refl
take-drop (suc n) (x ∷ xs) = ap (λ r. x ∷ r) (take-drop n xs)

length-drop {ℓ} : {A : Type ℓ} (n : ℕ) (xs : List A) → length (drop n xs) ≤ length xs
length-drop zero xs = omega arith
length-drop (suc n) [] = omega arith
length-drop (suc n) (x ∷ xs) = omega (arith, length-drop n xs)

put_all-append {ℓ} :
    {A : Type ℓ} (key : A → String) (xs ys zs : List A)
    → put_all key (xs ++ ys) zs ≡ put_all key ys (put_all key xs zs)
unfolding put_all
put_all-append key [] ys zs = refl
put_all-append key (x ∷ xs) ys zs = put_all-append key xs ys (put_by key x zs)

onto-append {ℓ} :
    {A : Type ℓ} (key : A → String) (xs ys : List A) (m : Option (List A))
    → onto key ys (onto key xs m) ≡ onto key (xs ++ ys) m
onto-append key xs ys none = refl
onto-append key xs ys (some zs) = ap some (sym (put_all-append key xs ys zs))

onto-nil {ℓ} : {A : Type ℓ} (key : A → String) (m : Option (List A)) → m ≡ onto key [] m
unfolding put_all
onto-nil key none = refl
onto-nil key (some zs) = refl

-- The rest of a list after its first batch has fewer elements.
length-rest {ℓ} :
    {A : Type ℓ} (n fuel : ℕ) (x : A) (xs : List A)
    → length (x ∷ xs) ≤ suc fuel
    → length (drop (suc n) (x ∷ xs)) ≤ fuel
length-rest n fuel x xs h = omega (arith, length-drop n xs)

module _ {ℓ} {S A B : Type ℓ} where
  pub bind-ok :
      (m : Exec S A) (f : A → Exec S B) {a : A} {s s' : S} → m s ≡ (ok a, s') → (m >>= f) s ≡ f a s'
  bind-ok m f e = ap (λ (r : Result A × S). continue r.0 f r.1) e

pub settle-keeps :
    {V : Type 0} (P : Stores V → Type 0) (r : Result (Unit {0})) (f : Stores V → Stores V)
    (s : Stores V)
    → ((s : Stores V) → P s → P (f s))
    → P s
    → P (settle r f s).1
unfolding settle
settle-keeps P (ok _) f s k h = k s h
settle-keeps P (err e) f s k h = h

settle-ok :
    {V : Type 0} (r : Result (Unit {0})) (f : Stores V → Stores V) (s : Stores V)
    → (settle r f s).0 ≡ ok tt
    → settle r f s ≡ (ok tt, f s)
unfolding settle
settle-ok (ok _) f s h = refl
settle-ok (err e) f s h = cc

module _ {V : Type 0} (o : Outside V) where
  pub request_store-ok :
      (f : Stores V → Stores V) (s : Stores V)
      → (request_store o f s).0 ≡ ok tt
      → request_store o f s ≡ (ok tt, f (record s { requests = s.requests + 1 }))
  unfolding request_store
  request_store-ok f s h = settle-ok (o.accepts s.requests) f _ h

  -- The embedding service answers one vector for each text, whatever the batch.
  abbrev pub EmbedsEach : (String → V) → Type 0
  EmbedsEach e = (xs : List String) → length xs ≤ 20 → o.embed xs ≡ ok (map e xs)

  abbrev pub noted : List (List String) → Stores V → Stores V
  noted bs s = record s { batches = bs }

  -- Enough fuel: the loop returns, with the vectors of all texts in order.
  pub embed_all_lem :
      (e : String → V) (fuel : ℕ) (xs : List String) (s : Stores V)
      → EmbedsEach e
      → length xs ≤ fuel
      → (bs : List (List String)) × (embed_all o fuel xs s ≡ (ok (map e xs), noted bs s))
  unfolding embed_all embed_batch
  embed_all_lem e zero [] s h l = (s.batches, refl)
  embed_all_lem e zero (x ∷ xs) s h l = absurd (omega arith)
  embed_all_lem e (suc fuel) [] s h l = (s.batches, refl)
  embed_all_lem e (suc fuel) (x ∷ xs) s h l =
      let first = take 20 (x ∷ xs) in
      let rest = drop 20 (x ∷ xs) in
      let s' = noted (s.batches ++ first ∷ []) s in
      let (bs, q) = embed_all_lem e fuel rest s' h (length-rest 19 fuel x xs l) in
      let p : embed_batch o first s ≡ (ok (map e first), s') =
        ap (λ r. (r, s')) (h first (omega (arith, length-take 20 (x ∷ xs)))) in
      let whole : map e first ++ map e rest ≡ map e (x ∷ xs) =
        sym (map-append e first rest) ∙ ap (map e) (take-drop 20 (x ∷ xs)) in
      let tail = λ (vs : List V). embed_all o fuel rest >>= (λ more. pure (vs ++ more)) in
      (
        bs,
        bind-ok (embed_batch o first) tail p
            ∙ bind-ok (embed_all o fuel rest) (λ more. pure (map e first ++ more)) q
            ∙ ap (λ vs. (ok vs, noted bs s)) whole,
      )

  -- If all batches are sent, what they write is what one request with everything would write.
  pub send_batches-onto :
      {A : Type 0} (size : ℕ) (key : A → String) (write : List A → Stores V → Stores V)
      (part : Stores V → Option (List A))
      → ((xs : List A) (s : Stores V) → part (write xs s) ≡ onto key xs (part s))
      → ((n : ℕ) (s : Stores V) → part (record s { requests = n }) ≡ part s)
      → (fuel : ℕ) (xs : List A) (s : Stores V) → length xs ≤ fuel
      → (send_batches o (suc size) write fuel xs s).0 ≡ ok tt
      → part (send_batches o (suc size) write fuel xs s).1 ≡ onto key xs (part s)
  unfolding send_batches
  send_batches-onto size key write part w n zero [] s l h = onto-nil key (part s)
  send_batches-onto size key write part w n zero (x ∷ xs) s l h = absurd (omega arith)
  send_batches-onto size key write part w n (suc fuel) [] s l h = onto-nil key (part s)
  send_batches-onto size key write part w n (suc fuel) (x ∷ xs) s l h =
      let first = take (suc size) (x ∷ xs) in
      let rest = drop (suc size) (x ∷ xs) in
      let send = request_store o (write first) in
      let more = λ (u : Unit {0}). send_batches o (suc size) write fuel rest in
      let (u, e) = continue-eq-ok (send s).0 more (send s).1 h in
      let s1 = record s { requests = s.requests + 1 } in
      let sent : send s ≡ (ok tt, write first s1) = request_store-ok (write first) s e in
      let all_sent : (send >>= more) s ≡ more tt (write first s1) = bind-ok send more sent in
      let h' : (more tt (write first s1)).0 ≡ ok tt = subst (λ r. r.0 ≡ ok tt) all_sent h in
      ap (λ r. part r.1) all_sent
      ∙ send_batches-onto size key write part w n fuel rest (write first s1)
          (length-rest size fuel x xs l) h'
      ∙ ap (onto key rest) (w first s1 ∙ ap (onto key first) (n (s.requests + 1) s))
      ∙ onto-append key first rest (part s)
      ∙ ap (λ ys. onto key ys (part s)) (take-drop (suc size) (x ∷ xs))

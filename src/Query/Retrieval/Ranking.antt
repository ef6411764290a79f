-- ===== src/Query/Retrieval/Ranking.antt =====
-- The fusion keeps every hit, once.
use incident_desk.Prelude.{
  All, Bool-cases, List, NoRepeats, String, [], any, ap, arith, contains, false, inl, inr, map,
  nat_eq, refl, string_eq, subst, sym, true, ℕ, ◌+◌, ◌==◌, ◌||◌, ◌∙◌, ◌∷◌, ◌≡◌,
}
use incident_desk.Query.Retrieval.{
  Fused, Scores, count_hit, count_hits, count_lists, fuse_ranked, goes_before, insert_hit,
  set_default, sort_hits,
}
use incident_desk.Worker.Contracts.{object_eq, source_eq}

abbrev keys : {V : Type 0} → List (String × V) → List String
keys = map (λ e. e.0)

module _ {T F : Type 0} (id : T → String) (sc : Scores F) where
  keys-set_default :
      (a k : String) (h : T) (es : List (String × T))
      → contains a (keys (set_default id sc k h es)) ≡ (contains a (keys es) || a == k)
  unfolding set_default
  keys-set_default a k h [] = ground arith
  keys-set_default a k h ((j, i) ∷ es) = elim (Bool-cases (j == k)) [
    | inl same ↦
        rw same
          (ground (arith, string_eq.beq_iff j k, string_eq.beq_iff a j, string_eq.beq_iff a k))
    | inr other ↦ rw other (ground (arith, keys-set_default a k h es))
  ]

  NoRepeats-set_default :
      (k : String) (h : T) (es : List (String × T))
      → NoRepeats (keys es)
      → NoRepeats (keys (set_default id sc k h es))
  unfolding set_default
  NoRepeats-set_default k h [] n = (refl, tt)
  NoRepeats-set_default k h ((j, i) ∷ es) n = elim (Bool-cases (j == k)) [
    | inl same ↦ rw same n
    | inr other ↦
        rw other (ground (arith, keys-set_default j k h es), NoRepeats-set_default k h es n.1)
  ]

  -- The entity of a key has that key as its id.
  IsKeyed : String × T → Type 0
  IsKeyed e = id e.1 ≡ e.0

  All-set_default :
      (k : String) (h : T) (es : List (String × T))
      → id h ≡ k
      → All IsKeyed es
      → All IsKeyed (set_default id sc k h es)
  unfolding set_default IsKeyed
  All-set_default k h [] e a = (e, tt)
  All-set_default k h ((j, i) ∷ es) e a = elim (Bool-cases (j == k)) [
    | inl same ↦ rw same a
    | inr other ↦ rw other (a.0, All-set_default k h es e a.1)
  ]

  -- What the fusion has at any moment.
  record IsFused (f : Fused id sc) : Type 0 where
    once : NoRepeats (keys f.entities)
    keyed : All IsKeyed f.entities

  count_hits-IsFused :
      (hits : List T) (seen : List String) (rank : ℕ) (f : Fused id sc)
      → IsFused f
      → IsFused (count_hits id sc hits seen rank f)
  unfolding count_hits count_hit
  count_hits-IsFused [] seen rank f i = i
  count_hits-IsFused (h ∷ hits) seen rank f i = elim (Bool-cases (contains (id h) seen)) [
    | inl old ↦ rw old (count_hits-IsFused hits seen rank f i)
    | inr new ↦ rw new (
        count_hits-IsFused hits (id h ∷ seen) (rank + 1) (count_hit id sc h (rank + 1) f) (record {
          once = NoRepeats-set_default (id h) h f.entities i.once;
          keyed = All-set_default (id h) h f.entities refl i.keyed;
        }))
  ]

  -- The hits that a list adds, given that those in `seen` are there already.
  keys-count_hits :
      (a : String) (hits : List T) (seen : List String) (rank : ℕ) (f : Fused id sc)
      → (contains a seen ≡ true → contains a (keys f.entities) ≡ true)
      → contains a (keys (count_hits id sc hits seen rank f).entities)
        ≡ (contains a (keys f.entities) || contains a (map id hits))
  unfolding count_hits count_hit
  keys-count_hits a [] seen rank f s = ground arith
  keys-count_hits a (h ∷ hits) seen rank f s = elim (Bool-cases (contains (id h) seen)) [
    | inl old ↦ rw old (elim (Bool-cases (a == id h)) [
      | inl same ↦
          let m : contains a seen ≡ true = rw ((string_eq.beq_iff a (id h)).0 same) old in
          ground (arith, keys-count_hits a hits seen rank f s, s m)
      | inr other ↦ ground (arith, keys-count_hits a hits seen rank f s)
    ])
    | inr new ↦
        let k = keys-set_default a (id h) h f.entities in
        rw new (
          ground (
            arith,
            k,
            keys-count_hits a hits (id h ∷ seen) (rank + 1) (count_hit id sc h (rank + 1) f)
                (λ m. ground (arith, k, s)),
          ))
  ]

  keys-count_lists :
      (a : String) (lists : List (List T)) (f : Fused id sc)
      → contains a (keys (count_lists id sc lists f).entities)
        ≡ (contains a (keys f.entities) || any (λ hits. contains a (map id hits)) lists)
  unfolding count_lists
  keys-count_lists a [] f = ground arith
  keys-count_lists a (hits ∷ lists) f = ground (
    arith,
    keys-count_lists a lists (count_hits id sc hits [] 0 f),
    keys-count_hits a hits [] 0 f (λ m. cc),
  )

  count_lists-IsFused :
      (lists : List (List T)) (f : Fused id sc) → IsFused f → IsFused (count_lists id sc lists f)
  unfolding count_lists
  count_lists-IsFused [] f i = i
  count_lists-IsFused (hits ∷ lists) f i =
      count_lists-IsFused lists (count_hits id sc hits [] 0 f) (count_hits-IsFused hits [] 0 f i)

  keys-insert_hit :
      (a : String) (scores : List (String × F)) (e : String × T) (es : List (String × T))
      → contains a (keys (insert_hit id sc scores e es)) ≡ (a == e.0 || contains a (keys es))
  unfolding insert_hit
  keys-insert_hit a scores e [] = refl
  keys-insert_hit a scores e (x ∷ xs) = elim (Bool-cases (goes_before id sc scores e.0 x.0)) [
    | inl first ↦ rw first refl
    | inr later ↦ rw later (ground (arith, keys-insert_hit a scores e xs))
  ]

  NoRepeats-insert_hit :
      (scores : List (String × F)) (e : String × T) (es : List (String × T))
      → contains e.0 (keys es) ≡ false
      → NoRepeats (keys es)
      → NoRepeats (keys (insert_hit id sc scores e es))
  unfolding insert_hit
  NoRepeats-insert_hit scores e [] c n = (refl, tt)
  NoRepeats-insert_hit scores e (x ∷ xs) c n =
      elim (Bool-cases (goes_before id sc scores e.0 x.0)) [
        | inl first ↦ rw first (c, n)
        | inr later ↦ rw later (
          ground (
            arith,
            keys-insert_hit x.0 scores e xs,
            string_eq.beq_iff x.0 e.0,
            string_eq.beq_iff e.0 x.0,
          ),
          NoRepeats-insert_hit scores e xs (ground arith) n.1,
        )
      ]

  All-insert_hit :
      (scores : List (String × F)) (e : String × T) (es : List (String × T))
      → IsKeyed e
      → All IsKeyed es
      → All IsKeyed (insert_hit id sc scores e es)
  unfolding insert_hit
  All-insert_hit scores e [] k a = (k, tt)
  All-insert_hit scores e (x ∷ xs) k a = elim (Bool-cases (goes_before id sc scores e.0 x.0)) [
    | inl first ↦ rw first (k, a)
    | inr later ↦ rw later (a.0, All-insert_hit scores e xs k a.1)
  ]

  keys-sort_hits :
      (a : String) (scores : List (String × F)) (es : List (String × T))
      → contains a (keys (sort_hits id sc scores es)) ≡ contains a (keys es)
  unfolding sort_hits
  keys-sort_hits a scores [] = refl
  keys-sort_hits a scores (e ∷ es) =
      ground
        (arith, keys-insert_hit a scores e (sort_hits id sc scores es), keys-sort_hits a scores es)

  sort_hits-once :
      (scores : List (String × F)) (es : List (String × T))
      → NoRepeats (keys es)
      → NoRepeats (keys (sort_hits id sc scores es))
  unfolding sort_hits
  sort_hits-once scores [] n = tt
  sort_hits-once scores (e ∷ es) n =
      NoRepeats-insert_hit scores e (sort_hits id sc scores es) (keys-sort_hits e.0 scores es ∙ n.0)
        (sort_hits-once scores es n.1)

  sort_hits-IsKeyed :
      (scores : List (String × F)) (es : List (String × T))
      → All IsKeyed es
      → All IsKeyed (sort_hits id sc scores es)
  unfolding sort_hits
  sort_hits-IsKeyed scores [] a = tt
  sort_hits-IsKeyed scores (e ∷ es) a =
      All-insert_hit scores e (sort_hits id sc scores es) a.0 (sort_hits-IsKeyed scores es a.1)

  ids-keys :
      (es : List (String × T))
      → All IsKeyed es
      → map id (map (λ (e : String × T). e.1) es) ≡ keys es
  unfolding IsKeyed
  ids-keys [] a = refl
  ids-keys (e ∷ es) a = rw (a.0, ids-keys es a.1) refl

  -- A fusion returns the hits of all its lists: an id is there exactly if some list has it, and it
  -- is there once, however many lists and synonyms have it.
  pub fuse_ranked_ids :
      (lists : List (List T))
      → NoRepeats (map id (fuse_ranked id sc lists))
        × ((a : String)
            → contains a (map id (fuse_ranked id sc lists))
              ≡ any (λ hits. contains a (map id hits)) lists)
  unfolding fuse_ranked
  fuse_ranked_ids lists =
      let f = count_lists id sc lists (record { entities = []; scores = [] }) in
      let i =
        count_lists-IsFused lists (record { entities = []; scores = [] })
          (record { once = tt; keyed = tt }) in
      let e =
        ids-keys (sort_hits id sc f.scores f.entities)
          (sort_hits-IsKeyed f.scores f.entities i.keyed) in
      (
        subst NoRepeats (sym e) (sort_hits-once f.scores f.entities i.once),
        λ a.
            ap (contains a) e
            ∙ keys-sort_hits a f.scores f.entities
            ∙ keys-count_lists a lists (record { entities = []; scores = [] }),
      )

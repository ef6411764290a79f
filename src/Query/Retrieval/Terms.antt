-- ===== src/Query/Retrieval/Terms.antt =====
-- The terms of a question.
-- At most 24 different terms, none empty, each one of the texts stripped; the question comes first.
use incident_desk.Prelude.{
  All, Bool, Bool-cases, List, NoRepeats, NoRepeats-dedup_from, NoRepeats-take, Option, String, [],
  ap, arith, contains, contains-dedup_from, contains-take, dedup, inl, inr, length, length-take,
  map, nat_eq, none, ok, ok-injective, refl, select, some, some-injective, string_eq, subst, sym,
  take, true, ◌&&◌, ◌++◌, ◌∷◌, ◌≡◌, ◌≤◌,
}
use incident_desk.Json.Defs.{
  Items, Value, array, boolean, dict, int, item, no_items, null, real, string, texts,
}
use incident_desk.Json.Text.{strip}
use incident_desk.Query.Retrieval.{
  is_nonempty, max_terms, retrieval_terms, strings_of, terms_of, with_expanded, with_string,
}
use incident_desk.Worker.Contracts.{object_eq, source_eq}

pub record AreTerms (query : String) (texts terms : List String) : Type 0 where
  pub few : length terms ≤ max_terms
  pub different : NoRepeats terms
  pub own : All (λ term. contains term (map strip texts) ≡ true) terms
  pub nonempty : All (λ term. is_nonempty term ≡ true) terms
  pub whole_question : is_nonempty (strip query) ≡ true → take 1 terms ≡ strip query ∷ []

contains-select :
    (p : String → Bool) (a : String) (xs : List String)
    → contains a (select p xs) ≡ (contains a xs && p a)
contains-select p a [] = refl
contains-select p a (x ∷ xs) = elim (Bool-cases (p x)) [
  | inl kept ↦ rw kept (ground (arith, contains-select p a xs, string_eq.beq_iff a x))
  | inr gone ↦ rw gone (ground (arith, contains-select p a xs, string_eq.beq_iff a x))
]

All-of_contains :
    (P : String → Type 0) (xs : List String)
    → ((a : String) → contains a xs ≡ true → P a)
    → All P xs
All-of_contains P [] f = tt
All-of_contains P (x ∷ xs) f =
    (f x (ground (arith, string_eq.beq_iff x x)), All-of_contains P xs (λ a m. f a (ground arith)))

-- A term is a stripped text, and not empty.
terms_of-known :
    (texts : List String) (a : String)
    → contains a (terms_of texts) ≡ true
    → (contains a (map strip texts) ≡ true) × (is_nonempty a ≡ true)
unfolding terms_of
terms_of-known texts a m =
    let all_terms = dedup (select is_nonempty (map strip texts)) in
    let kept : contains a all_terms ≡ true = contains-take a max_terms all_terms m in
    (
      ground (
        arith,
        contains-dedup_from a [] (select is_nonempty (map strip texts)),
        contains-select is_nonempty a (map strip texts),
      ),
      ground (
        arith,
        contains-dedup_from a [] (select is_nonempty (map strip texts)),
        contains-select is_nonempty a (map strip texts),
      ),
    )

terms_of-AreTerms :
    (query : String) (rest : List String) → AreTerms query (query ∷ rest) (terms_of (query ∷ rest))
unfolding terms_of
terms_of-AreTerms query rest =
    let all_terms = dedup (select is_nonempty (map strip (query ∷ rest))) in
    record {
      few = omega (arith, length-take max_terms all_terms);
      different =
          NoRepeats-take max_terms all_terms
            (NoRepeats-dedup_from [] (select is_nonempty (map strip (query ∷ rest))));
      own =
          All-of_contains _ (terms_of (query ∷ rest))
            (λ a m. (terms_of-known (query ∷ rest) a m).0);
      nonempty =
          All-of_contains _ (terms_of (query ∷ rest))
            (λ a m. (terms_of-known (query ∷ rest) a m).1);
      whole_question = λ h. rw h refl;
    }

with_string-some :
    (s : String) (o : Option (List String)) (ss : List String)
    → with_string s o ≡ some ss
    → (rest : List String) × (o ≡ some rest) × (ss ≡ s ∷ rest)
unfolding with_string
with_string-some s none ss h = cc
with_string-some s (some rest) ss h = (rest, refl, sym (some-injective h))

strings_of-some : (xs : Items) (ss : List String) → strings_of xs ≡ some ss → xs ≡ texts ss
unfolding strings_of texts
strings_of-some no_items ss h = subst (λ l. no_items ≡ texts l) (some-injective h) refl
strings_of-some (item (string s) xs) ss h =
    let (rest, e, q) = with_string-some s (strings_of xs) ss h in
    rw q (ap (item (string s)) (strings_of-some xs rest e))
strings_of-some (item null xs) ss h = cc
strings_of-some (item (boolean b) xs) ss h = cc
strings_of-some (item (int n) xs) ss h = cc
strings_of-some (item (real t) xs) ss h = cc
strings_of-some (item (array ys) xs) ss h = cc
strings_of-some (item (dict fs) xs) ss h = cc

-- Terms for a question, its keywords and the expansion that the model gave.
pub record Expands (query : String) (keywords : List String) (expanded : Value)
    (terms : List String) : Type 0 where
  pub strings : List String
  pub is_list : expanded ≡ array (texts strings)
  pub terms_are : AreTerms query (query ∷ strings ++ keywords) terms

with_expanded-Expands :
    (query : String) (keywords : List String) (xs : Items) (o : Option (List String))
    (terms : List String)
    → strings_of xs ≡ o
    → with_expanded query keywords o ≡ ok terms
    → Expands query keywords (array xs) terms
unfolding with_expanded
with_expanded-Expands query keywords xs none terms e h = cc
with_expanded-Expands query keywords xs (some ss) terms e h = record {
  strings = ss;
  is_list = ap array (strings_of-some xs ss e);
  terms_are =
      subst (AreTerms query (query ∷ ss ++ keywords)) (ok-injective h)
        (terms_of-AreTerms query (ss ++ keywords));
}

-- If there are retrieval terms, the expansion was a list of strings, and the terms are at most 24
-- different texts, none empty: the question, the expansion and the keywords, each stripped, with
-- the question first unless it is blank.
pub retrieval_terms_expand :
    (query : String) (keywords : List String) (expanded : Value) (terms : List String)
    → retrieval_terms query keywords expanded ≡ ok terms
    → Expands query keywords expanded terms
unfolding retrieval_terms
retrieval_terms_expand query keywords (array xs) terms h =
    with_expanded-Expands query keywords xs (strings_of xs) terms refl h
retrieval_terms_expand query keywords null terms h = cc
retrieval_terms_expand query keywords (boolean b) terms h = cc
retrieval_terms_expand query keywords (int n) terms h = cc
retrieval_terms_expand query keywords (real t) terms h = cc
retrieval_terms_expand query keywords (string s) terms h = cc
retrieval_terms_expand query keywords (dict fs) terms h = cc

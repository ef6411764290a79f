-- ===== src/Query/Retrieval.antt =====
-- query/app/core/retrieval.py: the terms that are searched for, and the fusion of ranked hits. The
-- scores are floating-point numbers; what the fusion uses of them is an interface.
pub mod Ranking
pub mod Terms
pub mod Requests
use Prim.Native.String.{compare}
use text.Mathlib.Text.{is_lt}
use incident_desk.Prelude.{
  Bool, Exc, List, Option, Result, String, [], contains, dedup, err, if◌then◌else◌, map, nat_eq,
  none, not, ok, select, some, string_eq, take, value_error, ℕ, ◌&&◌, ◌++◌, ◌+◌, ◌==◌, ◌||◌, ◌∷◌,
}
use incident_desk.Json.Defs.{Items, Value, array, item, no_items, string, texts}
use incident_desk.Json.Text.{strip}
use incident_desk.Worker.Contracts.{object_eq, source_eq}

abbrev pub max_terms : ℕ
max_terms = 24

with_string : String → Option (List String) → Option (List String)
with_string s none = none
with_string s (some rest) = some (s ∷ rest)

-- The strings of a JSON list, if it holds nothing else.
strings_of : Items → Option (List String)
unfolding with_string
strings_of no_items = some []
strings_of (item (string s) xs) = with_string s (strings_of xs)
strings_of (item _ xs) = none

pub is_nonempty : String → Bool
is_nonempty s = not (s == "")

pub terms_of : List String → List String
unfolding is_nonempty strip
terms_of texts = take max_terms (dedup (select is_nonempty (map strip texts)))

abbrev invalid_expansion : Exc
invalid_expansion = value_error "检索词扩展格式无效，请重试。"

with_expanded : String → List String → Option (List String) → Result (List String)
unfolding terms_of
with_expanded query keywords none = err invalid_expansion
with_expanded query keywords (some expanded) = ok (terms_of (query ∷ expanded ++ keywords))

unfoldable pub retrieval_terms : String → List String → Value → Result (List String)
unfolding with_expanded strings_of
retrieval_terms query keywords (array xs) = with_expanded query keywords (strings_of xs)
retrieval_terms query keywords v = err invalid_expansion

-- What the fusion uses of the scores: 0, `+`, 1 / (60 + rank), and `>`.
pub record Scores (F : Type 0) : Type 0 where
  pub zero_score : F
  pub plus : F → F → F
  pub share : ℕ → F
  pub above : F → F → Bool

module _ {F : Type 0} (sc : Scores F) where
  pub score_of : String → List (String × F) → F
  score_of k [] = sc.zero_score
  score_of k ((j, x) ∷ rest) = if j == k then x else score_of k rest

  -- scores[k] = scores.get(k, 0) + x
  add_score : String → F → List (String × F) → List (String × F)
  add_score k x [] = (k, sc.plus sc.zero_score x) ∷ []
  add_score k x ((j, y) ∷ rest) =
      let more = add_score k x rest in if j == k then (j, sc.plus y x) ∷ rest else (j, y) ∷ more

module _ {T F : Type 0} (id : T → String) (sc : Scores F) where
  pub record Fused : Type 0 where
    pub entities : List (String × T)
    pub scores : List (String × F)

  -- entities.setdefault(k, h)
  pub set_default : String → T → List (String × T) → List (String × T)
  set_default k h [] = (k, h) ∷ []
  set_default k h ((j, i) ∷ rest) =
      let more = set_default k h rest in if j == k then (j, i) ∷ rest else (j, i) ∷ more

  -- A hit of the given rank.
  pub count_hit : T → ℕ → Fused → Fused
  unfolding set_default add_score
  count_hit h rank f = record {
    entities = set_default (id h) h f.entities;
    scores = add_score sc (id h) (sc.share (60 + rank)) f.scores;
  }

  -- The hits of one list; `rank` hits have been counted.
  pub count_hits : List T → List String → ℕ → Fused → Fused
  unfolding count_hit
  count_hits [] seen rank f = f
  count_hits (h ∷ hits) seen rank f =
      let skipped = count_hits hits seen rank f in
      let counted = count_hits hits (id h ∷ seen) (rank + 1) (count_hit h (rank + 1) f) in
      if contains (id h) seen then skipped else counted

  pub count_lists : List (List T) → Fused → Fused
  unfolding count_hits
  count_lists [] f = f
  count_lists (hits ∷ lists) f = count_lists lists (count_hits hits [] 0 f)

  -- The key (-scores[key], key), in ascending order.
  pub goes_before : List (String × F) → String → String → Bool
  unfolding score_of
  goes_before scores a b =
      sc.above (score_of sc a scores) (score_of sc b scores)
      || not (sc.above (score_of sc b scores) (score_of sc a scores)) && is_lt (compare a b)

  pub insert_hit : List (String × F) → String × T → List (String × T) → List (String × T)
  unfolding goes_before
  insert_hit scores e [] = e ∷ []
  insert_hit scores e (x ∷ xs) =
      let rest = insert_hit scores e xs in
      if goes_before scores e.0 x.0 then e ∷ x ∷ xs else x ∷ rest

  pub sort_hits : List (String × F) → List (String × T) → List (String × T)
  unfolding insert_hit
  sort_hits scores [] = []
  sort_hits scores (e ∷ es) = insert_hit scores e (sort_hits scores es)

  abbrev ordered : Fused → List T
  ordered f = map (λ (e : String × T). e.1) (sort_hits f.scores f.entities)

  unfoldable pub fuse_ranked : List (List T) → List T
  unfolding count_lists sort_hits
  fuse_ranked lists = ordered (count_lists lists (record { entities = []; scores = [] }))

-- ===== src/Worker/Gather/Base.antt =====
-- The runtime that `assemble` is given, the state that it accumulates, and small pieces of Python.
use Prim.Native.String.{count}
use incident_desk.Prelude.{
  Bool, Exec, List, Option, Result, String, [], err, false, if◌then◌else◌, nat_eq, none, not, ok,
  other_error, pure, some, string_eq, true, ℕ, ◌++◌, ◌==◌, ◌∷◌,
}
use incident_desk.Json.Defs.{Value, boolean, dict, get, int, null, real, string}
use incident_desk.Json.Text.{dumps, show, sort_keys}
use incident_desk.Worker.Contracts.{
  ContextBundle, Evidence, Fact, Freshness, PlanStep, Retrieval, RunContext, Source, object_eq,
  source_eq,
}
use incident_desk.Worker.Session.{Answer, Page}

-- What `assemble` uses of its runtime, over a state `S` of the runtime's own, and of functions from
-- outside the repository.
pub record Tools (S : Type 0) : Type 0 where
  pub run : RunContext
  pub authorize : String → Exec S Answer
  pub hook : String → Value → Exec S (Unit {0})
  pub query : Source → PlanStep → Option String → Exec S Page
  pub sha256 : String → String
  pub repr : Value → String
  pub elapsed : S → Value
  pub dump_json : ContextBundle → String
  pub observed : Bool

pub record Gather (S : Type 0) : Type 0 where
  pub session : S
  pub facts : List Fact
  pub evidence : List Evidence
  pub missing : List String
  pub freshness : List Freshness
  pub records : List (Source × Page)
  pub log_versions : List String
  pub deployment_versions : List String
  pub retrieval : Option Retrieval

module _ {S : Type 0} where
  abbrev pub nothing_yet : S → Gather S
  nothing_yet s = record {
    session = s;
    facts = [];
    evidence = [];
    missing = [];
    freshness = [];
    records = [];
    log_versions = [];
    deployment_versions = [];
    retrieval = none;
  }

  -- A call of the runtime, which touches nothing that the loop has gathered.
  unfoldable pub on_session : {A : Type 0} → Exec S A → Exec (Gather S) A
  on_session m g = let (r, s) = m g.session in (r, record g { session = s })

  abbrev pub note_missing : String → Gather S → Gather S
  note_missing text g = record g { missing = g.missing ++ text ∷ [] }

  unfoldable pub add_missing : String → Exec (Gather S) (Unit {0})
  add_missing text g = (ok tt, note_missing text g)

  unfoldable pub when_true : Bool → Exec (Gather S) (Unit {0}) → Exec (Gather S) (Unit {0})
  when_true true m = m
  when_true false m = pure tt

-- `records[source] = page`
unfoldable pub set_record : Source → Page → List (Source × Page) → List (Source × Page)
set_record src p [] = (src, p) ∷ []
set_record src p ((other, q) ∷ rest) =
    let more = set_record src p rest in if other == src then (src, p) ∷ rest else (other, q) ∷ more

unfoldable pub find_record : Source → List (Source × Page) → Option Page
find_record src [] = none
find_record src ((other, q) ∷ rest) = if other == src then some q else find_record src rest

-- bool(next_cursor)
abbrev pub has_next : Option String → Bool
has_next none = false
has_next (some cursor) = not (cursor == "")

-- f"{v}"
unfoldable pub format : (Value → String) → Value → String
format repr null = "None"
format repr (boolean true) = "True"
format repr (boolean false) = "False"
format repr (int n) = show n
format repr (real t) = t
format repr (string s) = s
format repr v = repr v

-- c.get(k, default)
unfoldable pub get_default : String → Value → Value → Result Value
get_default k d (dict fs) = elim (get k fs) [ none ↦ ok d | some v ↦ ok v ]
get_default k d _ = err (other_error "AttributeError")

-- json.dumps(v, sort_keys=True, ensure_ascii=False)
abbrev pub canonical_json : Value → String
canonical_json v = dumps false (sort_keys v)

-- len(json.dumps(v))
abbrev pub dumped_length : Value → ℕ
dumped_length v = count (dumps true v)

abbrev pub snippet_limit : ℕ
snippet_limit = 12000

-- ===== src/Worker/Artifacts.antt =====
-- worker/incident_worker/artifacts.py: snapshots in an object store, with their metadata in a table.
-- The object store and the database may fail at every call; a transaction that fails changes nothing.
pub mod Objects
pub mod Integrity
pub mod Serving
pub mod Roundtrip
use incident_desk.Prelude.{
  Bool, Exec, List, Option, Result, String, [], contains, err, false, if◌then◌else◌, length, ltb,
  map, nat_eq, none, not, ok, other_error, permission_error, pure, raise, select, some, string_eq,
  true, value_error, ℕ, ◌&&◌, ◌*◌, ◌+◌, ◌<>◌, ◌==◌, ◌>>=◌, ◌>>◌, ◌||◌, ◌∷◌,
}
use incident_desk.Json.Defs.{Value}
use incident_desk.Json.Text.{dumps, sort_keys}
use incident_desk.Worker.Contracts.{RunContext, object_eq, source_eq}
use incident_desk.Worker.Session.{Answer}

pub data State : Type 0 where
  staged ready : State

abbrev is_ready : State → Bool
is_ready staged = false
is_ready ready = true

-- A row of the table `artifacts`.
pub record Artifact : Type 0 where
  pub key : String
  pub task : String
  pub team : String
  pub watermark : ℕ
  pub digest : String
  pub state : State
  pub created_at : ℕ

pub record Store : Type 0 where
  pub rows : List Artifact
  pub objects : List (String × String)

pub record Pointer : Type 0 where
  pub key : String
  pub sha256 : String

abbrev pub keys_of : List Artifact → List String
keys_of = map (λ (r : Artifact). r.key)

pub find_row : String → List Artifact → Option Artifact
find_row k [] = none
find_row k (r ∷ rs) = if r.key == k then some r else find_row k rs

pub find_object : String → List (String × String) → Option String
find_object k [] = none
find_object k ((j, raw) ∷ rest) = if j == k then some raw else find_object k rest

-- delete_object
pub without_object : String → List (String × String) → List (String × String)
without_object k objects = select (λ o. not (o.0 == k)) objects

-- update artifacts set state='ready' where key=...
pub mark_ready : String → List Artifact → List Artifact
mark_ready k [] = []
mark_ready k (r ∷ rs) =
    let rest = mark_ready k rs in if r.key == k then record r { state = ready } ∷ rest else r ∷ rest

-- insert into artifacts; the key is the primary key
insert_artifact : Artifact → Exec Store (Unit {0})
insert_artifact r s =
    if contains r.key (keys_of s.rows)
    then raise (other_error "UniqueViolation") s
    else pure tt (record s { rows = r ∷ s.rows })

-- A call of the object store or the database that may fail before it changes anything.
abbrev reached : Result (Unit {0}) → (Store → Store) → Exec Store (Unit {0})
reached (ok _) f s = (ok tt, f s)
reached (err e) f s = (err e, s)

abbrev put_object : String → String → Store → Store
put_object k raw s = record s { objects = (k, raw) ∷ without_object k s.objects }

abbrev set_ready : String → Store → Store
set_ready k s = record s { rows = mark_ready k s.rows }

module _ (sha256 : String → String) where
  abbrev raw_of : Value → String
  raw_of v = dumps true (sort_keys v)

  -- Artifacts.put: `scope` is what `authorize` answers, `unique` the fresh uuid, `upload` and
  -- `update` how the calls after the insert go.
  abbrev pub put_key : RunContext → Answer → String → String
  put_key run scope unique = scope.team <> "/" <> run.id <> "/" <> unique

  abbrev staged_row : RunContext → Answer → String → ℕ → Value → Artifact
  staged_row run scope unique now v = record {
    key = put_key run scope unique;
    task = run.id;
    team = scope.team;
    watermark = scope.watermark;
    digest = sha256 (raw_of v);
    state = staged;
    created_at = now;
  }

  put_scoped :
      RunContext
      → Answer
      → String
      → ℕ
      → (upload update : Result (Unit {0})) → Value
      → Exec Store Pointer
  unfolding insert_artifact mark_ready without_object
  put_scoped run scope unique now upload update v = do
    insert_artifact (staged_row run scope unique now v)
    reached upload (put_object (put_key run scope unique) (raw_of v))
    reached update (set_ready (put_key run scope unique))
    pure (record { key = put_key run scope unique; sha256 = sha256 (raw_of v) })

  unfoldable pub put :
      RunContext
      → (scope : Result Answer) → String
      → ℕ
      → (upload update : Result (Unit {0})) → Value
      → Exec Store Pointer
  unfolding put_scoped
  put run (ok scope) unique now upload update v = put_scoped run scope unique now upload update v
  put run (err e) unique now upload update v = raise e

  -- The row belongs to the task, the team and the watermark, and is ready.
  pub is_available : RunContext → Answer → Artifact → Bool
  is_available run scope r =
      r.task == run.id && r.team == scope.team && r.watermark == scope.watermark && is_ready r.state

  -- The object as S3 answers with it, if the call does not fail.
  checked_object :
      (String → Result Value)
      → Artifact
      → (download : Result (Unit {0})) → Option String
      → Result Value
  checked_object loads r (err e) o = err e
  checked_object loads r (ok _) none = err (other_error "NoSuchKey")
  checked_object loads r (ok _) (some raw) =
      if sha256 raw == r.digest then loads raw else err (value_error "artifact_integrity")

  checked_row :
      (String → Result Value)
      → RunContext
      → Answer
      → (download : Result (Unit {0})) → Store
      → Option Artifact
      → Result Value
  unfolding is_available checked_object find_object
  checked_row loads run scope download s none = err (permission_error "artifact_unavailable")
  checked_row loads run scope download s (some r) =
      if is_available run scope r
      then checked_object loads r download (find_object r.key s.objects)
      else err (permission_error "artifact_unavailable")

  -- Artifacts.get; `loads` is json.loads, and `query` and `download` are how the call of the database
  -- and that of S3 go.
  unfoldable pub get_artifact :
      (String → Result Value)
      → RunContext
      → Result Answer
      → (query download : Result (Unit {0})) → String
      → Store
      → Result Value
  unfolding checked_row find_row
  get_artifact loads run (err e) query download k s = err e
  get_artifact loads run (ok scope) (err e) download k s = err e
  get_artifact loads run (ok scope) (ok _) download k s =
      checked_row loads run scope download s (find_row k s.rows)

abbrev hour : ℕ
hour = 3600

-- The rows that a cleanup at `now` selects.
pub is_expired : (now days : ℕ) → Artifact → Bool
is_expired now days r =
    ltb (r.created_at + days * (24 * hour)) now
    || not (is_ready r.state) && ltb (r.created_at + hour) now

-- How the calls of a cleanup go: the query, delete_object and the DELETE for each key, the commit.
pub record CleanupCalls : Type 0 where
  pub query : Result (Unit {0})
  pub remove : String → Result (Unit {0})
  pub delete : String → Result (Unit {0})
  pub commit : Result (Unit {0})

-- What follows the two calls for a key: `same` are the objects before them, `fewer` those without it.
pub after_removal :
    (remove delete : Result (Unit {0})) (same fewer : List (String × String))
    → Result (Unit {0}) × List (String × String)
    → Result (Unit {0}) × List (String × String)
after_removal (err e) delete same fewer rest = (err e, same)
after_removal (ok _) (err e) same fewer rest = (err e, fewer)
after_removal (ok _) (ok _) same fewer rest = rest

-- delete_object and DELETE for each key, until one fails
pub delete_objects :
    CleanupCalls → List String → List (String × String) → Result (Unit {0}) × List (String × String)
unfolding without_object after_removal
delete_objects calls [] objects = (ok tt, objects)
delete_objects calls (k ∷ ks) objects =
    let rest = delete_objects calls ks (without_object k objects) in
    after_removal (calls.remove k) (calls.delete k) objects (without_object k objects) rest

-- The end of the transaction: what is raised in it, or by its commit, leaves the rows as they were.
pub committed :
    (done ending : Result (Unit {0})) (count : ℕ) (rolled_back new : Store) → Result ℕ × Store
committed (err e) ending count rolled_back new = (err e, rolled_back)
committed (ok _) (err e) count rolled_back new = (err e, rolled_back)
committed (ok _) (ok _) count rolled_back new = (ok count, new)

expired_rows : (now days : ℕ) → List Artifact → List Artifact
unfolding is_expired
expired_rows now days rows = select (is_expired now days) rows

clean_up : CleanupCalls → (now days : ℕ) → Exec Store ℕ
unfolding is_expired delete_objects committed expired_rows
clean_up calls now days s =
    let (done, objects) = delete_objects calls (keys_of (expired_rows now days s.rows)) s.objects in
    committed done calls.commit (length (expired_rows now days s.rows))
      (record { rows = s.rows; objects = objects })
      (record { rows = select (λ r. not (is_expired now days r)) s.rows; objects = objects })

-- What follows the query of the expired rows.
after_query : Result (Unit {0}) → Store → Result ℕ × Store → Result ℕ × Store
after_query (err e) s rest = (err e, s)
after_query (ok _) s rest = rest

-- Artifacts.cleanup: the rows are deleted in one transaction; the objects that were removed before
-- it failed stay removed.
unfoldable pub cleanup : CleanupCalls → (now days : ℕ) → Exec Store ℕ
unfolding clean_up after_query
cleanup calls now days s = after_query calls.query s (clean_up calls now days s)

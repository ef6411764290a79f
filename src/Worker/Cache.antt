-- ===== src/Worker/Cache.antt =====
-- worker/incident_worker/cache.py, `ContextCache`: the tables `context_cache` and `source_index`. A
-- method is one transaction, whose commit may fail; then it changes nothing. Times are seconds.
pub mod Latest
pub mod Lookup
use incident_desk.Prelude.{
  Bool, Exec, List, Option, Result, String, [], err, false, if◌then◌else◌, ltb, map, nat_eq, none,
  not, ok, permission_error, pure, raise, select, some, string_eq, true, ℕ, ◌&&◌, ◌+◌, ◌==◌, ◌∷◌,
}
use incident_desk.Json.Defs.{Value, array, int, item, no_items, string}
use incident_desk.Json.Text.{dumps}
use incident_desk.Worker.Contracts.{RunContext, Source, object_eq, source_eq, team}
use incident_desk.Worker.Session.{Answer, Page, SourceRow}

-- What `authorize` answers, with the query that the cache's key holds.
pub record Granted : Type 0 where
  pub answer : Answer
  pub query : Value

-- A row of `context_cache`; the bundle and the recording are the JSON that was written.
pub record CacheRow : Type 0 where
  pub key : String
  pub service : String
  pub watermark : ℕ
  pub bundle : String
  pub recording : String
  pub created_at : ℕ

-- A row of `source_index`
pub record IndexRow : Type 0 where
  pub service : String
  pub source : Source
  pub record_id : String
  pub version : String
  pub watermark : ℕ
  pub available : Bool

pub record CacheTables : Type 0 where
  pub cached : List CacheRow
  pub indexed : List IndexRow

unfoldable pub find_conflict : String → List CacheRow → Option CacheRow
find_conflict k [] = none
find_conflict k (r ∷ rows) = if r.key == k then some r else find_conflict k rows

-- set bundle=excluded.bundle,recording=excluded.recording,created_at=now(): the service and the
-- watermark of a row that is there are kept.
abbrev pub replacing : Option CacheRow → CacheRow → CacheRow
replacing none r = r
replacing (some x) r = record r { service = x.service; watermark = x.watermark }

-- insert ... on conflict(key) do update
pub upsert_cached : CacheRow → List CacheRow → List CacheRow
unfolding find_conflict
upsert_cached r rows =
    replacing (find_conflict r.key rows) r ∷ select (λ x. not (x.key == r.key)) rows

same_record : IndexRow → IndexRow → Bool
same_record x y = x.service == y.service && x.source == y.source && x.record_id == y.record_id

-- insert ... on conflict(service,source,record_id) do update
upsert_indexed : IndexRow → List IndexRow → List IndexRow
unfolding same_record
upsert_indexed r rows = r ∷ select (λ x. not (same_record x r)) rows

index_row : Answer → Source → SourceRow → IndexRow
index_row scope src row = record {
  service = scope.service;
  source = src;
  record_id = row.id;
  version = row.version;
  watermark = scope.watermark;
  available = not row.deleted;
}

index_rows : Answer → Source → List SourceRow → List IndexRow → List IndexRow
unfolding upsert_indexed index_row
index_rows scope src [] rows = rows
index_rows scope src (row ∷ more) rows =
    index_rows scope src more (upsert_indexed (index_row scope src row) rows)

-- for source, result in recording.items()
index_recording : Answer → List (Source × Page) → List IndexRow → List IndexRow
unfolding index_rows
index_recording scope [] rows = rows
index_recording scope ((src, page) ∷ more) rows =
    index_recording scope more (index_rows scope src page.records rows)

-- service=... and watermark<>...
unfoldable pub is_outdated : Answer → String → ℕ → Bool
is_outdated scope service watermark = service == scope.service && not (watermark == scope.watermark)

withdraw : Answer → IndexRow → IndexRow
unfolding is_outdated
withdraw scope r =
    if is_outdated scope r.service r.watermark then record r { available = false } else r

-- select ... where key=... and created_at>now()-interval '30 seconds'
pub find_cached : String → ℕ → List CacheRow → Option CacheRow
find_cached k now [] = none
find_cached k now (r ∷ rows) =
    if r.key == k && ltb now (r.created_at + 30) then some r else find_cached k now rows

-- The two statements of `get` that change the tables.
pub drop_outdated : Answer → CacheTables → CacheTables
unfolding is_outdated withdraw
drop_outdated scope s = record {
  cached = select (λ (r : CacheRow). not (is_outdated scope r.service r.watermark)) s.cached;
  indexed = map (withdraw scope) s.indexed;
}

-- The outside: the digest, `str` of a datetime, the JSON of a recording, and how pydantic and `json`
-- read what was written.
module _ (sha256 : String → String) (show_time : ℕ → String) where
  -- ContextCache.key
  unfoldable pub cache_key : RunContext → Granted → String
  cache_key run scope = sha256 (
      dumps true (
        array (
          item (string scope.answer.subject) (
            item (string scope.answer.team) (
              item (string scope.answer.service) (
                item (string (show_time run.start)) (
                  item (string (show_time run.end)) (
                    item (int scope.answer.watermark) (
                      item scope.query (
                        item (string "retrieval:2") (
                          item (string "ontology:1") (item (string "mapping:2") no_items))))))))))))

  get_granted : RunContext → Granted → ℕ → Result (Unit {0}) → Exec CacheTables (Option CacheRow)
  unfolding cache_key drop_outdated find_cached
  get_granted run scope now (ok _) s =
      let s' = drop_outdated scope.answer s in
      pure (find_cached (cache_key run scope) now s'.cached) s'
  get_granted run scope now (err e) s = raise e s

  -- ContextCache.get, up to the row; `ending` is how the transaction goes.
  unfoldable pub get_cached :
      RunContext
      → Result Granted
      → (now : ℕ) → (ending : Result (Unit {0})) → Exec CacheTables (Option CacheRow)
  unfolding get_granted
  get_cached run (ok scope) now ending s = get_granted run scope now ending s
  get_cached run (err e) now ending s = raise e s

  module _ (dump_recording : List (Source × Page) → String) where
    unfoldable pub cache_row :
        RunContext → Granted → (now : ℕ) → (bundle : String) → List (Source × Page) → CacheRow
    unfolding cache_key
    cache_row run scope now bundle recording = record {
      key = cache_key run scope;
      service = scope.answer.service;
      watermark = scope.answer.watermark;
      bundle = bundle;
      recording = dump_recording recording;
      created_at = now;
    }

    pub put_granted :
        RunContext
        → Granted
        → (now : ℕ) → (bundle : String) → List (Source × Page)
        → (ending : Result (Unit {0})) → Exec CacheTables (Unit {0})
    unfolding cache_row upsert_cached index_recording
    put_granted run scope now bundle recording (ok _) s = pure tt (record {
      cached = upsert_cached (cache_row run scope now bundle recording) s.cached;
      indexed = index_recording scope.answer recording s.indexed;
    })
    put_granted run scope now bundle recording (err e) s = raise e s

    -- ContextCache.put; `bundle` is the JSON that pydantic writes of it.
    unfoldable pub put_cached :
        RunContext
        → Result Granted
        → (now : ℕ) → (bundle : String) → List (Source × Page)
        → (ending : Result (Unit {0})) → Exec CacheTables (Unit {0})
    unfolding put_granted
    put_cached run (ok scope) now bundle recording ending s =
        if not (scope.answer.watermark == run.source_version)
        then raise (permission_error "source_changed") s
        else put_granted run scope now bundle recording ending s
    put_cached run (err e) now bundle recording ending s = raise e s

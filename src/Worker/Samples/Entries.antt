-- ===== src/Worker/Samples/Entries.antt =====
-- The cache with the sample task: two entries for one key, and a put that failed.
use incident_desk.Prelude.{
  List, String, [], err, false, ok, other_error, refl, some, some-injective, subst, ℕ, ◌∷◌, ◌≡◌,
}
use incident_desk.Json.Defs.{dict, no_fields}
use incident_desk.Json.Text.{dumps}
use incident_desk.Worker.Cache.{
  CacheRow, CacheTables, Granted, cache_key, cache_row, find_conflict, get_cached, is_outdated,
  put_cached,
}
use incident_desk.Worker.Cache.Latest.{CacheCall, looks_up, perform_call, stores, tables_after}
use incident_desk.Worker.Cache.Lookup.{IsCurrent, get_cached-IsCurrent, get_cached-put_cached}
use incident_desk.Worker.Contracts.{Source}
use incident_desk.Worker.Samples.{sample_answer, sample_run}
use incident_desk.Worker.Session.{Page}

abbrev whole_text : String → String
whole_text s = s

abbrev at_text : ℕ → String
at_text t = "2026"

abbrev no_recording : List (Source × Page) → String
no_recording recording = "{}"

abbrev sample_scope : Granted
sample_scope = record { answer = sample_answer; query = dict no_fields }

abbrev cache_history : List (CacheCall whole_text at_text no_recording)
cache_history =
    stores sample_run (ok sample_scope) 22 "b3" [] (err (other_error "OperationalError"))
    ∷ looks_up sample_run (ok sample_scope) 21 (ok tt)
    ∷ stores sample_run (ok sample_scope) 20 "b2" [] (ok tt)
    ∷ stores sample_run (ok sample_scope) 10 "b1" [] (ok tt)
    ∷ []

abbrev sample_row : CacheRow
sample_row = cache_row whole_text at_text no_recording sample_run sample_scope 20 "b2" []

get_cached-IsCurrent_example :
    IsCurrent whole_text at_text no_recording cache_history
      (cache_key whole_text at_text sample_run sample_scope)
      sample_scope
      45
      sample_row
unfolding get_cached put_cached tables_after perform_call cache_key dumps
get_cached-IsCurrent_example =
    get_cached-IsCurrent whole_text at_text no_recording cache_history sample_run sample_scope 45
      (ok tt) sample_row refl

-- The key has a row already, which has run out.
abbrev held : CacheTables
held = record {
  cached = cache_row whole_text at_text no_recording sample_run sample_scope 10 "b1" [] ∷ [];
  indexed = [];
}

get_cached-put_cached_example :
    (get_cached whole_text at_text sample_run
      (ok sample_scope)
      45
      (ok tt)
      (put_cached whole_text at_text no_recording sample_run
        (ok sample_scope)
        20
        "b2"
        []
        (ok tt)
        held).1).0
    ≡ ok (some sample_row)
unfolding find_conflict is_outdated cache_key cache_row dumps
get_cached-put_cached_example =
    get_cached-put_cached whole_text at_text no_recording sample_run sample_scope 20 45 "b2" [] held
      refl refl
      (λ x h.
        subst (λ (y : CacheRow). is_outdated sample_answer y.service y.watermark ≡ false)
          (some-injective h) refl)

-- ===== src/Worker/Cache/Lookup.antt =====
-- What a lookup in the cache finds.
use incident_desk.Prelude.{
  All, Bool, Bool-cases, List, Option, Option-cases, Result, String, [], arith, err, false,
  if◌then◌else◌, inl, inr, ltb, nat_eq, not, ok, ok-injective, refl, select, some, some-injective,
  string_eq, subst, true, ℕ, ◌&&◌, ◌+◌, ◌==◌, ◌∷◌, ◌≡◌,
}
use incident_desk.Worker.Cache.{
  CacheRow, CacheTables, Granted, cache_key, cache_row, drop_outdated, find_cached, find_conflict,
  get_cached, get_granted, is_outdated, put_cached, put_granted, replacing, upsert_cached,
}
use incident_desk.Worker.Cache.Latest.{CacheCall, IsLatest, tables_after, tables_after-IsLatest}
use incident_desk.Worker.Contracts.{RunContext, Source, object_eq, source_eq}
use incident_desk.Worker.Session.{Page}

module _ (sha256 : String → String) (show_time : ℕ → String)
    (dump_recording : List (Source × Page) → String) where
  pub record IsCurrent (history : List (CacheCall sha256 show_time dump_recording)) (k : String)
      (scope : Granted) (now : ℕ) (r : CacheRow) : Type 0 where
    pub same_key : r.key ≡ k
    pub latest : IsLatest sha256 show_time dump_recording history r
    pub young : ltb now (r.created_at + 30) ≡ true
    pub in_date : is_outdated scope.answer r.service r.watermark ≡ false

  find_kept-IsCurrent :
      (history : List (CacheCall sha256 show_time dump_recording)) (k : String) (scope : Granted)
      (now : ℕ) (x : CacheRow) (rest : List CacheRow) (r : CacheRow)
      → IsLatest sha256 show_time dump_recording history x
      → is_outdated scope.answer x.service x.watermark ≡ false
      → (find_cached k now rest ≡ some r → IsCurrent history k scope now r)
      → find_cached k now (x ∷ rest) ≡ some r
      → IsCurrent history k scope now r
  unfolding find_cached
  find_kept-IsCurrent history k scope now x rest r l d f h =
      let step : Bool → Option CacheRow = λ b. if b then some x else find_cached k now rest in
      elim (Bool-cases (x.key == k && ltb now (x.created_at + 30))) [
        | inl found ↦
            let same : x.key ≡ k = (string_eq.beq_iff x.key k).0 (ground arith) in
            subst (IsCurrent history k scope now)
              (some-injective (subst (λ b. step b ≡ some r) found h))
              (record { same_key = same; latest = l; young = ground arith; in_date = d })
        | inr other ↦ f (subst (λ b. step b ≡ some r) other h)
      ]

  find_cached-IsCurrent :
      (history : List (CacheCall sha256 show_time dump_recording)) (k : String) (scope : Granted)
      (now : ℕ) (entries : List CacheRow) (r : CacheRow)
      → All (IsLatest sha256 show_time dump_recording history) entries
      → find_cached k now
          (select (λ (x : CacheRow). not (is_outdated scope.answer x.service x.watermark)) entries)
        ≡ some r
      → IsCurrent history k scope now r
  unfolding find_cached
  find_cached-IsCurrent history k scope now [] r a h = cc
  find_cached-IsCurrent history k scope now (x ∷ entries) r a h =
      let rest =
        select (λ (y : CacheRow). not (is_outdated scope.answer y.service y.watermark)) entries in
      elim (Bool-cases (is_outdated scope.answer x.service x.watermark)) [
        | inl gone ↦
            find_cached-IsCurrent history k scope now entries r a.1
              (subst (λ b. find_cached k now (if not b then x ∷ rest else rest) ≡ some r) gone h)
        | inr stays ↦
            find_kept-IsCurrent history k scope now x rest r a.0 stays
              (λ g. find_cached-IsCurrent history k scope now entries r a.1 g)
              (subst (λ b. find_cached k now (if not b then x ∷ rest else rest) ≡ some r) stays h)
      ]

  -- After any history of calls, whatever transaction failed in it, a lookup that finds a row finds the
  -- bundle, the recording and the time that were last written for its key, less than 30 seconds ago,
  -- and no row of its service for another watermark.
  pub get_cached-IsCurrent :
      (history : List (CacheCall sha256 show_time dump_recording)) (run : RunContext)
      (scope : Granted) (now : ℕ) (ending : Result (Unit {0})) (r : CacheRow)
      → (get_cached sha256 show_time run
          (ok scope)
          now
          ending
          (tables_after sha256 show_time dump_recording history)).0
        ≡ ok (some r)
      → IsCurrent history (cache_key sha256 show_time run scope) scope now r
  unfolding get_cached get_granted drop_outdated
  get_cached-IsCurrent history run scope now (err e) r h = cc
  get_cached-IsCurrent history run scope now (ok u) r h =
      find_cached-IsCurrent history (cache_key sha256 show_time run scope) scope now
        (tables_after sha256 show_time dump_recording history).cached r
        (tables_after-IsLatest sha256 show_time dump_recording history) (ok-injective h)

  -- A put that is authorized for the watermark of its run and commits is what a lookup with the same
  -- scope finds right after it, if less than 30 seconds have passed and a row that had its key was not
  -- one of its service for another watermark.
  pub get_cached-put_cached :
      (run : RunContext) (scope : Granted) (earlier now : ℕ) (bundle : String)
      (recording : List (Source × Page)) (s : CacheTables)
      → scope.answer.watermark ≡ run.source_version
      → ltb now (earlier + 30) ≡ true
      → ((x : CacheRow)
          → find_conflict (cache_key sha256 show_time run scope) s.cached ≡ some x
          → is_outdated scope.answer x.service x.watermark ≡ false)
      → (get_cached sha256 show_time run
          (ok scope)
          now
          (ok tt)
          (put_cached sha256 show_time dump_recording run
            (ok scope)
            earlier
            bundle
            recording
            (ok tt)
            s).1).0
        ≡ ok (
            some (
              replacing
                (find_conflict (cache_key sha256 show_time run scope) s.cached)
                (cache_row sha256 show_time dump_recording run scope earlier bundle recording)))
  unfolding get_cached get_granted drop_outdated is_outdated put_cached put_granted upsert_cached
      cache_row find_cached
  get_cached-put_cached run scope earlier now bundle recording s w f d =
      let k = cache_key sha256 show_time run scope in
      let watermark_same : (scope.answer.watermark == run.source_version) ≡ true = ground arith in
      let itself : (scope.answer.watermark == scope.answer.watermark) ≡ true = ground arith in
      let service_same : (scope.answer.service == scope.answer.service) ≡ true =
        (string_eq.beq_iff scope.answer.service scope.answer.service).1 refl in
      let key_same : (k == k) ≡ true = (string_eq.beq_iff k k).1 refl in
      elim (Option-cases (find_conflict k s.cached)) [
        | inl e ↦ rw (watermark_same, e, service_same, itself, key_same, f) refl
        | inr (x, e) ↦ rw (watermark_same, e, d x e, key_same, f) refl
      ]

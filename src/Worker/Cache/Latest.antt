-- ===== src/Worker/Cache/Latest.antt =====
-- What is in the cache after a history of calls: for each key, what was written last.
use incident_desk.Prelude.{
  All, All-map, All-of-select, Bool, Bool-cases, Exec, List, Option, Result, String, [], arith, err,
  false, if◌then◌else◌, inl, inr, nat_eq, none, not, ok, permission_error, raise, refl, select,
  some, string_eq, true, ℕ, ◌==◌, ◌∙◌, ◌∷◌, ◌≡◌,
}
use incident_desk.Worker.Cache.{
  CacheRow, CacheTables, Granted, cache_row, drop_outdated, find_conflict, get_cached, get_granted,
  is_outdated, put_cached, put_granted, replacing, upsert_cached,
}
use incident_desk.Worker.Contracts.{RunContext, Source, object_eq, source_eq}
use incident_desk.Worker.Session.{Page}

module _ (sha256 : String → String) (show_time : ℕ → String)
    (dump_recording : List (Source × Page) → String) where
  -- The calls on the cache, with how their transactions go.
  pub data CacheCall : Type 0 where
    looks_up : RunContext → Result Granted → (now : ℕ) → (ending : Result (Unit {0})) → CacheCall
    stores :
        RunContext
        → Result Granted
        → (now : ℕ) → (bundle : String) → List (Source × Page)
        → (ending : Result (Unit {0})) → CacheCall

  unfoldable pub perform_call : CacheCall → CacheTables → CacheTables
  perform_call (looks_up run scope now ending) s =
      (get_cached sha256 show_time run scope now ending s).1
  perform_call (stores run scope now bundle recording ending) s =
      (put_cached sha256 show_time dump_recording run scope now bundle recording ending s).1

  -- The tables after a history of calls, the newest first.
  unfoldable pub tables_after : List CacheCall → CacheTables
  unfolding perform_call
  tables_after [] = record { cached = []; indexed = [] }
  tables_after (c ∷ older) = perform_call c (tables_after older)

  -- The row that a call writes: a put that is authorized, for the watermark of the run, and commits.
  pub writes : CacheCall → Option CacheRow
  writes (stores run (ok scope) now bundle recording (ok _)) =
      if not (scope.answer.watermark == run.source_version)
      then none
      else some (cache_row sha256 show_time dump_recording run scope now bundle recording)
  writes _ = none

  abbrev replaced : String → Option CacheRow → Option CacheRow → Option CacheRow
  replaced k none older = older
  replaced k (some r) older = if r.key == k then some r else older

  -- The newest row for a key that was written.
  pub last_written : String → List CacheCall → Option CacheRow
  unfolding writes
  last_written k [] = none
  last_written k (c ∷ older) = replaced k (writes c) (last_written k older)

  -- The newest row that was written for the key of `r` has its bundle, its recording and its time.
  pub record IsLatest (history : List CacheCall) (r : CacheRow) : Type 0 where
    pub written : CacheRow
    pub is_last : last_written r.key history ≡ some written
    pub same_bundle : written.bundle ≡ r.bundle
    pub same_recording : written.recording ≡ r.recording
    pub same_time : written.created_at ≡ r.created_at

  IsLatest-older :
      (c : CacheCall) (older : List CacheCall) (r : CacheRow)
      → last_written r.key (c ∷ older) ≡ last_written r.key older
      → IsLatest older r
      → IsLatest (c ∷ older) r
  IsLatest-older c older r e l = record {
    written = l.written;
    is_last = e ∙ l.is_last;
    same_bundle = l.same_bundle;
    same_recording = l.same_recording;
    same_time = l.same_time;
  }

  IsLatest-silent :
      (c : CacheCall) (older : List CacheCall) (entries : List CacheRow)
      → writes c ≡ none
      → All (IsLatest older) entries
      → All (IsLatest (c ∷ older)) entries
  unfolding last_written
  IsLatest-silent c older entries e a =
      All-map _ _ entries (λ r h. IsLatest-older c older r (rw e refl) h) a

  IsLatest-upsert :
      (c : CacheCall) (older : List CacheCall) (row : CacheRow) (entries : List CacheRow)
      → writes c ≡ some row
      → All (IsLatest older) entries
      → All (IsLatest (c ∷ older)) (select (λ x. not (x.key == row.key)) entries)
  unfolding last_written
  IsLatest-upsert c older row [] e a = tt
  IsLatest-upsert c older row (r ∷ entries) e a = elim (Bool-cases (r.key == row.key)) [
    | inl same ↦ rw same (IsLatest-upsert c older row entries e a.1)
    | inr other ↦
        let back : (row.key == r.key) ≡ false =
          ground (arith, string_eq.beq_iff r.key row.key, string_eq.beq_iff row.key r.key) in
        rw other (
          IsLatest-older c older r (rw (e, back) refl) a.0,
          IsLatest-upsert c older row entries e a.1,
        )
  ]

  stored_row-IsLatest :
      (c : CacheCall) (older : List CacheCall) (row : CacheRow) (o : Option CacheRow)
      → writes c ≡ some row
      → IsLatest (c ∷ older) (replacing o row)
  unfolding last_written
  stored_row-IsLatest c older row none e = record {
    written = row;
    is_last = rw (e, (string_eq.beq_iff row.key row.key).1 refl) refl;
    same_bundle = refl;
    same_recording = refl;
    same_time = refl;
  }
  stored_row-IsLatest c older row (some x) e = record {
    written = row;
    is_last = rw (e, (string_eq.beq_iff row.key row.key).1 refl) refl;
    same_bundle = refl;
    same_recording = refl;
    same_time = refl;
  }

  guarded-IsLatest :
      (history : List CacheCall) (b : Bool) (s : CacheTables) (m : Exec CacheTables (Unit {0}))
      → (b ≡ true → All (IsLatest history) (m s).1.cached)
      → (b ≡ false → All (IsLatest history) s.cached)
      → All
          (IsLatest history)
          (if not b then raise (permission_error "source_changed") s else m s).1.cached
  guarded-IsLatest history true s m f g = f refl
  guarded-IsLatest history false s m f g = g refl

  perform_call-IsLatest :
      (c : CacheCall) (older : List CacheCall) (s : CacheTables)
      → All (IsLatest older) s.cached
      → All (IsLatest (c ∷ older)) (perform_call c s).cached
  unfolding perform_call get_cached get_granted drop_outdated put_cached put_granted upsert_cached
      writes
  perform_call-IsLatest (looks_up run (err e) now ending) older s a =
      IsLatest-silent (looks_up run (err e) now ending) older s.cached refl a
  perform_call-IsLatest (looks_up run (ok scope) now (err e)) older s a =
      IsLatest-silent (looks_up run (ok scope) now (err e)) older s.cached refl a
  perform_call-IsLatest (looks_up run (ok scope) now (ok u)) older s a =
      IsLatest-silent (looks_up run (ok scope) now (ok u)) older _ refl (
        All-of-select (IsLatest older) (λ r. not (is_outdated scope.answer r.service r.watermark))
          s.cached a)
  perform_call-IsLatest (stores run (err e) now bundle recording ending) older s a =
      IsLatest-silent (stores run (err e) now bundle recording ending) older s.cached refl a
  perform_call-IsLatest (stores run (ok scope) now bundle recording (err e)) older s a =
      let c = stores run (ok scope) now bundle recording (err e) in
      guarded-IsLatest (c ∷ older) (scope.answer.watermark == run.source_version) s (raise e)
        (λ same. IsLatest-silent c older s.cached refl a)
        (λ other. IsLatest-silent c older s.cached refl a)
  perform_call-IsLatest (stores run (ok scope) now bundle recording (ok u)) older s a =
      let c = stores run (ok scope) now bundle recording (ok u) in
      let row = cache_row sha256 show_time dump_recording run scope now bundle recording in
      guarded-IsLatest (c ∷ older) (scope.answer.watermark == run.source_version) s
        (put_granted sha256 show_time dump_recording run scope now bundle recording (ok u))
        (λ same.
          let e : writes c ≡ some row = rw same refl in
          (
            stored_row-IsLatest c older row (find_conflict row.key s.cached) e,
            IsLatest-upsert c older row s.cached e a,
          ))
        (λ other. IsLatest-silent c older s.cached (rw other refl) a)

  pub tables_after-IsLatest :
      (history : List CacheCall) → All (IsLatest history) (tables_after history).cached
  unfolding tables_after
  tables_after-IsLatest [] = tt
  tables_after-IsLatest (c ∷ older) =
      perform_call-IsLatest c older (tables_after older) (tables_after-IsLatest older)

-- ===== src/Worker/Samples/Snapshots.antt =====
-- Snapshots of the sample task, stored and read back.
use incident_desk.Prelude.{List, Result, String, [], err, ok, other_error, refl, ◌∷◌, ◌≡◌}
use incident_desk.Json.Defs.{Value, dict, field, int, no_fields, string}
use incident_desk.Json.Text.{dumps, sort_keys, take_chars}
use incident_desk.Worker.Artifacts.{CleanupCalls, Pointer, Store, get_artifact, put}
use incident_desk.Worker.Artifacts.Integrity.{Operation, cleans, puts, stored}
use incident_desk.Worker.Artifacts.Roundtrip.{get_artifact-put}
use incident_desk.Worker.Artifacts.Serving.{Ends, get_artifact-Ends}
use incident_desk.Worker.Samples.{sample_answer, sample_run}

abbrev short_digest : String → String
short_digest s = take_chars 8 s

abbrev read_text : String → Result Value
read_text s = ok (string s)

abbrev snapshot : Value
snapshot = dict (field "logs" (int 1) no_fields)

abbrev no_failure : CleanupCalls
no_failure = record { query = ok tt; remove = λ k. ok tt; delete = λ k. ok tt; commit = ok tt }

abbrev failing_commit : CleanupCalls
failing_commit = record no_failure { commit = err (other_error "OperationalError") }

-- The first put is cut off after the insert; a cleanup removes nothing yet, and the next one selects
-- the row of that put, but cannot commit.
abbrev snapshot_history : List (Operation short_digest)
snapshot_history =
    cleans failing_commit 4000 30
    ∷ cleans no_failure 200 30
    ∷ puts sample_run (ok sample_answer) "u2" 20 (ok tt) (ok tt) snapshot
    ∷ puts sample_run (ok sample_answer) "u1" 10 (err (other_error "ClientError")) (ok tt) snapshot
    ∷ []

get_artifact-Ends_example :
    Ends short_digest read_text sample_run sample_answer
      (ok tt)
      (ok tt)
      "payments/task-1/u2"
      (stored short_digest snapshot_history)
      (get_artifact short_digest read_text sample_run
        (ok sample_answer)
        (ok tt)
        (ok tt)
        "payments/task-1/u2"
        (stored short_digest snapshot_history))
get_artifact-Ends_example =
    get_artifact-Ends short_digest read_text snapshot_history sample_run sample_answer (ok tt)
      (ok tt) "payments/task-1/u2"

abbrev empty_store : Store
empty_store = record { rows = []; objects = [] }

abbrev put_outcome : Result Pointer × Store
put_outcome =
    put short_digest sample_run (ok sample_answer) "u1" 10 (ok tt) (ok tt) snapshot empty_store

abbrev put_pointer : Pointer
put_pointer = record { key = "payments/task-1/u1"; sha256 = "{\"logs\":" }

get_artifact-put_example :
    get_artifact short_digest read_text sample_run
      (ok sample_answer)
      (ok tt)
      (ok tt)
      "payments/task-1/u1"
      put_outcome.1
    ≡ ok (string "{\"logs\": 1}")
unfolding put dumps sort_keys take_chars
get_artifact-put_example =
    get_artifact-put short_digest sample_run sample_answer "u1" 10 snapshot read_text empty_store
      put_outcome.1 put_pointer refl

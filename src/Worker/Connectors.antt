-- ===== src/Worker/Connectors.antt =====
-- worker/incident_worker/connectors.py: how a source is queried. The query of the deployments table
-- is written out as the selection that its SQL text makes.
pub mod Allowance
use Prim.Native.String.{compare}
use text.Mathlib.Text.{is_lt}
use incident_desk.Prelude.{
  Bool, Exec, List, Option, String, [], err, false, if◌then◌else◌, leb, length, ltb, map, nat_eq,
  none, not, ok, select, some, string_eq, suc, take, zero, ℕ, ◌&&◌, ◌+◌, ◌<>◌, ◌==◌, ◌>>=◌, ◌>>◌,
  ◌||◌, ◌∷◌,
}
use incident_desk.Json.Defs.{Value, boolean, dict, field, int, no_fields, string}
use incident_desk.Json.Text.{show}
use incident_desk.Worker.Circuit.{Circuit, call}
use incident_desk.Worker.Contracts.{
  PlanStep, Source, deployments, object_eq, service, source_eq, source_name,
}
use incident_desk.Worker.Session.{
  Answer, DeploymentRow, Page, Session, SourceRow, World, authorize, fetch, read_clock,
}

-- `circuits[src] = c`
abbrev set_circuit : Source → Circuit → (Source → Circuit) → Source → Circuit
set_circuit src c f other = if other == src then c else f other

module _ (w : World) where
  -- The POST to the source, through its circuit.
  circuit_fetch : Source → ℕ → Option String → Exec Session Page
  circuit_fetch src limit cursor s =
      let (r, (c, s')) = call (read_clock w) (fetch w src cursor limit) (s.circuits src, s) in
      (r, record s' { circuits = set_circuit src c s'.circuits })

  -- HTTPSource.query
  http_query : Source → PlanStep → Option String → Exec Session Page
  unfolding circuit_fetch
  http_query src s cursor = do authorize w (source_name src); circuit_fetch src s.limit cursor

-- The newest undeleted deployment of the service at or before `start`, by event time and watermark.
later : DeploymentRow → DeploymentRow → Bool
later a b =
    ltb b.event_time a.event_time || a.event_time == b.event_time && ltb b.watermark a.watermark

newest : List DeploymentRow → Option DeploymentRow
unfolding later
newest [] = none
newest (r ∷ rs) = elim (newest rs) [
  | none ↦ some r
  | some best ↦ if later best r then some best else some r
]

abbrev serves_at : Answer → DeploymentRow → Bool
serves_at scope r = r.service == scope.service && not r.deleted && leb r.event_time scope.start

in_force : Answer → List DeploymentRow → Option String
unfolding newest
in_force scope rows = elim (newest (select (serves_at scope) rows)) [
  | none ↦ none
  | some r ↦ some r.id
]

is_named : Option String → String → Bool
is_named none id = false
is_named (some j) id = j == id

-- The WHERE clause.
pub selected : Answer → ℕ → List DeploymentRow → DeploymentRow → Bool
unfolding in_force is_named
selected scope cursor rows r =
    r.service == scope.service
    && leb r.event_time scope.end
    && (leb scope.start r.event_time || is_named (in_force scope rows) r.id)
    && ltb cursor r.watermark

-- ORDER BY watermark, id
precedes_row : DeploymentRow → DeploymentRow → Bool
precedes_row a b =
    ltb a.watermark b.watermark || a.watermark == b.watermark && is_lt (compare a.id b.id)

insert_row : DeploymentRow → List DeploymentRow → List DeploymentRow
unfolding precedes_row
insert_row r [] = r ∷ []
insert_row r (s ∷ rs) =
    let rest = insert_row r rs in if precedes_row r s then r ∷ s ∷ rs else s ∷ rest

pub order_rows : List DeploymentRow → List DeploymentRow
unfolding insert_row
order_rows [] = []
order_rows (r ∷ rs) = insert_row r (order_rows rs)

abbrev row_content : DeploymentRow → Value
row_content r = dict (
    field "id" (string r.id) (
      field "service" (string r.service) (
        field "app_id" (string r.app_id) (
          field "version" (string r.version) (
            field "commit_sha" (string r.commit_sha) (
              field "watermark" (int r.watermark)
                (field "deleted" (boolean r.deleted) no_fields)))))))

abbrev row_record : (ℕ → String) → DeploymentRow → SourceRow
row_record isoformat r = record {
  id = r.id;
  event_time = isoformat r.event_time;
  content = row_content r;
  locator = "postgres://sources/deployments/" <> r.id;
  version = show r.watermark;
  deleted = r.deleted;
}

-- str(rows[limit - 1]["watermark"]), if there are more than `limit` rows
last_watermark : ℕ → List DeploymentRow → Option String
last_watermark n [] = none
last_watermark zero (r ∷ rs) = none
last_watermark (suc zero) (r ∷ []) = none
last_watermark (suc zero) (r ∷ s ∷ rs) = some (show r.watermark)
last_watermark (suc (suc n)) (r ∷ rs) = last_watermark (suc n) rs

abbrev deployment_page : World → Answer → ℕ → String → List DeploymentRow → Page
deployment_page w scope limit observed rows = record {
  records = map (row_record w.isoformat) (take limit rows);
  next_cursor = last_watermark limit rows;
  watermark = show scope.watermark;
  observed_at = observed;
  summary = no_fields;
  provenance = none;
  retrieval = none;
}

-- The SELECT statement: filter, order, `limit + 1` rows.
pub select_rows : Answer → ℕ → ℕ → List DeploymentRow → List DeploymentRow
unfolding selected order_rows
select_rows scope cursor limit rows =
    take (limit + 1) (order_rows (select (selected scope cursor rows) rows))

module _ (w : World) where
  read_rows : PlanStep → ℕ → Answer → Exec Session Page
  unfolding select_rows last_watermark
  read_rows s cursor scope t = elim (w.rows (length t.sent)) [
    | err e ↦ (err e, t)
    | ok rows ↦ (
      ok (
          deployment_page w scope s.limit (w.utc_now t.ticks)
            (select_rows scope cursor s.limit rows)),
      t,
    )
  ]

  -- DeploymentSource.query; `cursor` is the number that `int(cursor or 0)` reads.
  deployment_query : PlanStep → ℕ → Exec Session Page
  unfolding read_rows
  deployment_query s cursor = do scope ← authorize w "deployments"; read_rows s cursor scope

  -- REGISTRY[src].query(runtime, step, cursor); assemble asks for deployments without a cursor only
  unfoldable pub query_source : Source → PlanStep → Option String → Exec Session Page
  unfolding http_query deployment_query
  query_source deployments s cursor = deployment_query s 0
  query_source src s cursor = http_query w src s cursor

-- ===== src/Worker/Live.antt =====
-- worker/incident_worker/main.py, `process`, and the runtime that it gives to `assemble`: the calls
-- of a live task.
pub mod Allowance
use incident_desk.Prelude.{List, Result, none, pure, true, ℕ, ◌>>=◌, ◌>>◌}
use incident_desk.Worker.Assemble.{assemble}
use incident_desk.Worker.Circuit.{Circuit}
use incident_desk.Worker.Connectors.{query_source}
use incident_desk.Worker.Contracts.{ContextBundle, RunContext, Source}
use incident_desk.Worker.Gather.Base.{Tools}
use incident_desk.Worker.Session.{Page, Session, World, authorize, hook, new_session}

-- The runtime of a live task.
unfoldable pub live : World → RunContext → Tools Session
unfolding query_source authorize hook
live w run = record {
  run = run;
  authorize = authorize w;
  hook = λ name payload. (do hook w name payload true; pure tt);
  query = query_source w;
  sha256 = w.sha256;
  repr = w.repr;
  elapsed = λ s. w.elapsed s.ticks;
  dump_json = w.dump_json;
  observed = w.observed;
}

-- A task that starts with a new session, and assembles its context.
unfoldable pub assemble_live :
    World
    → RunContext
    → (Source → Circuit)
    → ℕ
    → Result (ContextBundle × List (Source × Page)) × Session
unfolding live assemble
assemble_live w run circuits ticks =
    assemble (live w run) none none (new_session w run circuits ticks)

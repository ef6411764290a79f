-- ===== src/Worker/Live/Allowance.antt =====
-- The budget of a live task, over the whole of `assemble`.
use incident_desk.Prelude.{Keeps-bind, Keeps-pure, none, true, ℕ}
use incident_desk.Worker.Assemble.Sessions.{assemble_keeps}
use incident_desk.Worker.Circuit.{Circuit}
use incident_desk.Worker.Connectors.Allowance.{query_source-Accounts}
use incident_desk.Worker.Contracts.{RunContext, Source}
use incident_desk.Worker.Gather.Sessions.{RuntimeKeeps}
use incident_desk.Worker.Live.{assemble_live, live}
use incident_desk.Worker.Session.{World, new_session}
use incident_desk.Worker.Session.Allowance.{
  Accounts, Accounts-WithinBudget, WithinBudget, authorize-Accounts, hook-Accounts,
  new_session-Accounts,
}

module _ (w : World) (run : RunContext) where
  live-RuntimeKeeps : RuntimeKeeps (live w run) (Accounts run 0)
  unfolding live
  live-RuntimeKeeps = record {
    authorizes = λ tool. record { at = λ s. authorize-Accounts w run 0 tool s };
    hooks = λ name payload.
        Keeps-bind _ _ (record { at = λ s. hook-Accounts w run 0 name payload true s })
          (λ _. Keeps-pure tt);
    queries =
        λ src step cursor. record { at = λ s. query_source-Accounts w run 0 src step cursor s };
  }

  -- Whatever the control plane, the sources and the clock answer, an assembly, whether it returns or
  -- raises, asks for at most as many authorizations as its budget has steps, and counts them all.
  pub assemble_live-WithinBudget :
      (circuits : Source → Circuit) (ticks : ℕ)
      → WithinBudget run (assemble_live w run circuits ticks).1
  unfolding assemble_live
  assemble_live-WithinBudget circuits ticks =
      Accounts-WithinBudget run (assemble_live w run circuits ticks).1 (
        (assemble_keeps (live w run) (Accounts run 0) live-RuntimeKeeps none none).at
          (new_session w run circuits ticks) (new_session-Accounts w run circuits ticks))

-- ===== src/Worker/Process/Ending.antt =====
-- How a task ends.
use incident_desk.Prelude.{
  Exec, List, Result, [], arith, class_name, contains, continue, err, nat_eq, ok, refl, string_eq,
  subst, suc, sym, true, zero, ℕ, ◌∷◌, ◌≡◌, ◌≤◌,
}
use incident_desk.Worker.Contracts.{RunContext, object_eq, source_eq}
use incident_desk.Worker.Investigation.{Model}
use incident_desk.Worker.Process.{
  Host, Outcome, Recording, analyse, answer_evidence_of, archive, base_of, by_harness, checkpoint,
  failed_if, finish_summary, finish_task, lease_check, process, process_body, saved_summary,
  status_of,
}
use incident_desk.Worker.Report.{report}
use incident_desk.Worker.Report.Status.{report_status-statuses, statuses}
use incident_desk.Worker.Session.{
  Answer, Call, Request, Session, World, call_task, event, hook, report_failure, report_result,
}
use incident_desk.Worker.Session.Delivery.{copies, send_result-IsDelivered}

abbrev pub Newest : (Request → Type 0) → List Call → Type 0
Newest P [] = ⊥
Newest P (c ∷ cs) = P c.request

-- A result with one of the three statuses.
abbrev pub IsResult : Request → Type 0
IsResult (report_result status report manifest id) = contains status statuses ≡ true
IsResult _ = ⊥

-- The newest request, given how the body of the task ends.
abbrev pub EndsWell : Result Answer → List Call → Type 0
EndsWell (ok a) sent = Newest IsResult sent
EndsWell (err e) sent = Newest (λ r. r ≡ report_failure (class_name e)) sent

module _ (w : World) (m : Model) (h : Host) (run : RunContext) where
  abbrev pub Good : Result Answer → Session → Type 0
  Good (ok a) s = Newest IsResult s.sent
  Good (err e) s = Unit

  good : (r : Result Answer) (s : Session) → Newest IsResult s.sent → Good r s
  good (ok a) s h = h
  good (err e) s h = tt

  continue-Good :
      {A : Type 0} (r : Result A) (f : A → Exec Session Answer) (s : Session)
      → ((a : A) → Good (f a s).0 (f a s).1)
      → Good (continue r f s).0 (continue r f s).1
  continue-Good (ok a) f s k = k a
  continue-Good (err e) f s k = tt

  copies-Newest :
      (n : ℕ) (c : Call) (sent before : List Call)
      → sent ≡ copies n c before
      → 1 ≤ n
      → IsResult c.request
      → Newest IsResult sent
  copies-Newest zero c sent before e h i = absurd (omega arith)
  copies-Newest (suc n) c sent before e h i = subst (Newest IsResult) (sym e) i

  finish_task-Good :
      (r : Outcome) (recording : Recording) (s : Session)
      → Good (finish_task w m h run r recording s).0 (finish_task w m h run r recording s).1
  unfolding finish_task status_of
  finish_task-Good r recording s =
      let x = hook w "run_finished" (finish_summary r) true s in
      continue-Good x.0 _ x.1 λ u.
        let sent =
          send_result-IsDelivered w (status_of r) (h.outcome_json r) (h.manifest recording r)
            h.callback_id x.1 in
        good _ _ (
          copies-Newest (suc sent.resent) _ _ x.1.sent sent.only_copies (omega arith) (
            report_status-statuses (base_of r).evidence (answer_evidence_of r) (base_of r).missing))

  ends_well :
      (r : Result Answer) (s : Session) → Good r s → EndsWell r (failed_if w m h run r s).sent
  unfolding failed_if call_task
  ends_well (ok a) s g = g
  ends_well (err e) s g = refl

  process_body-Good : (s : Session) → Good (process_body w m h run s).0 (process_body w m h run s).1
  unfolding process_body
  process_body-Good s = continue-Good h.connect _ s λ a.
      continue-Good (h.get_tuple run.generation) _ s λ current.
        let begun = checkpoint w m h run current s in
        continue-Good begun.0 _ begun.1 λ start.
          let made = by_harness w m h run h.harness start begun.1 in
          continue-Good made.0 _ made.1 λ result.
            let told = event w "checkpoint_saved" (saved_summary run) made.1 in
            continue-Good told.0 _ told.1 λ b.
              let analysed = analyse w m h run h.sandbox result.0 told.1 in
              continue-Good analysed.0 _ analysed.1 λ c.
                let archived = archive w m h run h.archived result.1 analysed.1 in
                continue-Good archived.0 _ archived.1 λ d.
                  continue-Good (lease_check h) _ archived.1
                    λ e. finish_task-Good result.0 result.1 archived.1

  -- The last request that the thread of a task makes, its heartbeats, which are another thread's,
  -- aside, is the report of its result, whose status is completed, partial or
  -- waiting_information, if its body returns; if anything raises on the way, the delivery of the result
  -- included, it is the report of the failure with the class of the exception.
  pub process-EndsWell :
      (s : Session) → EndsWell (process_body w m h run s).0 (process w m h run s).sent
  unfolding process
  process-EndsWell s =
      ends_well (process_body w m h run s).0 (process_body w m h run s).1 (process_body-Good s)

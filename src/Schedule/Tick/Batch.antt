-- ===== src/Schedule/Tick/Batch.antt =====
-- What a tick of the scheduler does to the whole batch: isolation, requests and the lock.
use hill90_app.Prelude.{
  ℕ, suc, ◌+◌, ◌≤◌, ◌≡◌, refl, ◌∙◌, ap, Bool, true, false, Option, List, [], ◌∷◌, arith, length,
  String,
}
use hill90_app.Prelude.Exec.{Result, ok, thrown}
use hill90_app.Schedule.Store.{Workflow, Work, Store}
use hill90_app.Schedule.Dispatch.{Due, Response, execute_workflow}
use hill90_app.Schedule.Dispatch.Outcome.{Quiet, record_failure-Quiet}
use hill90_app.Schedule.Dispatch.Advance.{
  rescheduled, execute_workflow-rescheduled, execute_workflow-requests,
}
use hill90_app.Schedule.Tick.{
  due_workflows, record_unexpected_failure, contain, contained, run_due, run_batch, unlock,
  under_lock, tick,
}

module _ (fails : ℕ → Bool) (parse_next : String → Result ℕ) (fetch : Work → Result Response)
    (now : ℕ) (join : Workflow → Option Due) where
  -- What each execution of the batch came to.
  pub outcomes : List Due → Store → List (Due × Result (Unit {0}))
  unfolding contained execute_workflow
  outcomes [] s = []
  outcomes (wf ∷ wfs) s =
      (wf, (execute_workflow fails parse_next fetch now wf s).0)
      ∷ outcomes wfs (contained fails parse_next fetch now join wf s)

  -- The schedule after executions with these outcomes.
  pub rescheduled_all : List (Due × Result (Unit {0})) → List Workflow → List Workflow
  unfolding rescheduled
  rescheduled_all [] ws = ws
  rescheduled_all ((wf, r) ∷ rest) ws =
      rescheduled_all rest (rescheduled fails parse_next fetch now wf r ws)

  unexpected_failure-Quiet :
      (id e : String) (s : Store)
      → Quiet fails parse_next fetch now s
          (record_unexpected_failure fails parse_next fetch now join id e s)
  unfolding record_unexpected_failure
  unexpected_failure-Quiet id e s = record_failure-Quiet fails parse_next fetch now id _ s

  contain-Quiet :
      (id : String) (p : Result (Unit {0}) × Store)
      → Quiet fails parse_next fetch now p.1 (contain fails parse_next fetch now join id p)
  unfolding contain
  contain-Quiet id (ok _, t) = (refl, refl)
  contain-Quiet id (thrown e, t) = unexpected_failure-Quiet id e t

  pub contained-rescheduled :
      (wf : Due) (s : Store)
      → ((contained fails parse_next fetch now join wf s).workflows
          ≡ rescheduled fails parse_next fetch now wf
              (execute_workflow fails parse_next fetch now wf s).0
              s.workflows)
        × (length (contained fails parse_next fetch now join wf s).dispatched
            ≤ length s.dispatched + 1)
  unfolding contained
  contained-rescheduled wf s =
      let quiet = contain-Quiet wf.id (execute_workflow fails parse_next fetch now wf s) in
      (
        quiet.0 ∙ execute_workflow-rescheduled fails parse_next fetch now wf s,
        rw (quiet.1) (execute_workflow-requests fails parse_next fetch now wf s),
      )

  -- The schedule after a batch is that of its executions one by one: whichever of them throw, each that
  -- returns has given its own workflow its next run, and one that throws has changed no row.
  pub run_due-rescheduled :
      (wfs : List Due) (s : Store)
      → (run_due fails parse_next fetch now join wfs s).workflows
        ≡ rescheduled_all (outcomes wfs s) s.workflows
  unfolding run_due rescheduled_all outcomes
  run_due-rescheduled [] s = refl
  run_due-rescheduled (wf ∷ wfs) s =
      run_due-rescheduled wfs (contained fails parse_next fetch now join wf s)
      ∙ ap (rescheduled_all (outcomes wfs (contained fails parse_next fetch now join wf s)))
          (contained-rescheduled wf s).0

  run_due-requests :
      (wfs : List Due) (s : Store)
      → length (run_due fails parse_next fetch now join wfs s).dispatched
        ≤ length s.dispatched + length wfs
  unfolding run_due
  run_due-requests [] s = omega arith
  run_due-requests (wf ∷ wfs) s = omega (
    arith,
    run_due-requests wfs (contained fails parse_next fetch now join wf s),
    (contained-rescheduled wf s).1,
  )

  run_batch-requests :
      (s : Store)
      → length (run_batch fails parse_next fetch now join s).dispatched
        ≤ length s.dispatched + length (due_workflows fails parse_next fetch now join s.workflows)
  unfolding run_batch
  run_batch-requests s = ground (
    arith,
    run_due-requests (due_workflows fails parse_next fetch now join s.workflows)
        (record s { queries = suc s.queries }),
  )

  -- Whatever fails, a tick sends at most one request for each due workflow, and is not running
  -- afterwards.
  pub tick-requests :
      (s : Store)
      → (length (tick fails parse_next fetch now join s).dispatched
          ≤ length s.dispatched
            + length (due_workflows fails parse_next fetch now join s.workflows))
        × ((tick fails parse_next fetch now join s).running ≡ false)
  unfolding tick under_lock unlock
  tick-requests s = ground (
    arith,
    run_batch-requests (record s { running = true; locked = true; queries = suc s.queries }),
  )

  -- While another instance holds the lock, a tick sends nothing, changes no workflow and no run, and
  -- leaves the lock held.
  pub tick-locked :
      (s : Store)
      → s.locked ≡ true
      → ((tick fails parse_next fetch now join s).workflows ≡ s.workflows)
        × ((tick fails parse_next fetch now join s).runs ≡ s.runs)
        × ((tick fails parse_next fetch now join s).dispatched ≡ s.dispatched)
        × ((tick fails parse_next fetch now join s).locked ≡ true)
  unfolding tick under_lock
  tick-locked s held = ground (arith, held)

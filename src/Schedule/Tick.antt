-- ===== src/Schedule/Tick.antt =====
-- services/api/src/services/workflow-scheduler.ts: `tick`, from its advisory lock to the loop over the due
-- workflows. `join` is what the query joins to a row: its agent and its model policy, or no agent.
pub mod Batch
pub mod Progress
use hill90_app.Prelude.{
  ℕ, suc, ◌≤◌, Bool, true, false, not, Option, none, some, List, [], ◌∷◌, if◌then◌else◌, leb, ◌&&◌,
  String,
}
use hill90_app.Prelude.Exec.{Result, ok, thrown, Exec, ◌>>=◌, ◌>>◌}
use hill90_app.Schedule.Store.{Workflow, Work, Store, statement, silent}
use hill90_app.Schedule.Dispatch.{Due, Response, record_failure, execute_workflow, ◌⋯◌}

module _ (fails : ℕ → Bool) (parse_next : String → Result ℕ) (fetch : Work → Result Response)
    (now : ℕ) (join : Workflow → Option Due) where
  -- `w.enabled = true AND w.next_run_at <= NOW()`; a null is not due.
  pub is_due : Workflow → Bool
  is_due w = w.enabled && elim w.next_run_at [ none ↦ false | some t ↦ leb t now ]

  unfoldable pub due_workflows : List Workflow → List Due
  unfolding is_due
  due_workflows [] = []
  due_workflows (w ∷ ws) =
      let rest = due_workflows ws in
      if is_due w then (elim (join w) [ none ↦ rest | some d ↦ d ∷ rest ]) else rest

  pub record_unexpected_failure : String → String → Store → Store
  unfolding record_failure
  record_unexpected_failure id e =
      record_failure fails parse_next fetch now id ("Scheduler tick failed for this workflow: " ⋯ e)

  -- One round of the loop, with its own `catch`.
  pub contain : String → Result (Unit {0}) × Store → Store
  unfolding record_unexpected_failure
  contain id (ok _, t) = t
  contain id (thrown e, t) = record_unexpected_failure id e t

  pub contained : Due → Store → Store
  unfolding execute_workflow contain
  contained wf s = contain wf.id (execute_workflow fails parse_next fetch now wf s)

  pub run_due : List Due → Store → Store
  unfolding contained
  run_due [] s = s
  run_due (wf ∷ wfs) s = run_due wfs (contained wf s)

  -- The rows of the query, run one by one.
  pub run_batch : Store → Store
  unfolding statement due_workflows run_due
  run_batch s =
      let (r, t) = statement fails (λ q. (due_workflows q.workflows, q)) s in
      elim r [ ok wfs ↦ run_due wfs t | thrown e ↦ t ]

  -- The `finally` that gives the lock back.
  pub unlock : Store → Store
  unfolding statement
  unlock s = (statement fails (silent (λ q. record q { locked = false })) s).1

  pub under_lock : Result Bool × Store → Store
  unfolding run_batch unlock
  under_lock (thrown e, t) = t
  under_lock (ok acquired, t) = if acquired then unlock (run_batch t) else t

  -- `locked` is the advisory lock, whoever holds it.
  pub tick : Store → Store
  unfolding statement under_lock
  tick s =
      let u = under_lock (
        statement fails (λ q. (not q.locked, record q { locked = true }))
          (record s { running = true })) in
      record u { running = false }

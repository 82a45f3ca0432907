-- ===== src/Schedule/Startup.antt =====
-- services/api/src/services/workflow-scheduler.ts: `initializeNextRuns`.
pub mod Untouched
use hill90_app.Prelude.{
  ℕ, Bool, true, false, Option, none, some, List, [], ◌∷◌, String, str_eq, not, ◌&&◌, is_some,
  or_else, if◌then◌else◌,
}
use hill90_app.Prelude.Exec.{Result, ok, thrown, Exec}
use hill90_app.Schedule.Store.{Workflow, Work, Store, statement, silent, update_workflow}
use hill90_app.Schedule.Dispatch.{Response, compute_next_run, cron_failure, record_failure}

-- `enabled = true AND next_run_at IS NULL`
pub is_uninitialized : Workflow → Bool
is_uninitialized w = w.enabled && not (is_some w.next_run_at)

unfoldable pub uninitialized : List Workflow → List Workflow
unfolding is_uninitialized
uninitialized [] = []
uninitialized (w ∷ ws) =
    let rest = uninitialized ws in if is_uninitialized w then w ∷ rest else rest

module _ (fails : ℕ → Bool) (parse_next : String → Result ℕ) (fetch : Work → Result Response)
    (now : ℕ) where
  -- What follows the computation of a row's next run.
  initialize_to : Workflow → Result (Option ℕ) → Exec Store (Unit {0})
  unfolding record_failure statement update_workflow cron_failure
  initialize_to w (thrown e) s = (
    ok tt,
    record_failure fails parse_next fetch now w.id (cron_failure (or_else w.schedule_cron "null") e)
        s,
  )
  initialize_to w (ok none) s = (ok tt, s)
  initialize_to w (ok (some t)) s =
      statement fails
        (silent (λ q. record q {
          workflows = update_workflow w.id (λ v. record v { next_run_at = some t }) q.workflows;
        }))
        s

  -- An UPDATE that throws ends the loop.
  initialize_all : List Workflow → Exec Store (Unit {0})
  unfolding initialize_to compute_next_run
  initialize_all [] s = (ok tt, s)
  initialize_all (w ∷ ws) s =
      let (r, t) = initialize_to w (compute_next_run parse_next w.schedule_cron) s in
      let later = initialize_all ws t in elim r [ thrown e ↦ (thrown e, t) | ok _ ↦ later ]

  initialize_selected : Result (List Workflow) × Store → Store
  unfolding initialize_all
  initialize_selected (thrown e, s) = s
  initialize_selected (ok ws, s) = (initialize_all ws s).1

  pub initialize_next_runs : Store → Store
  unfolding initialize_selected statement uninitialized
  initialize_next_runs s =
      initialize_selected (statement fails (λ q. (uninitialized q.workflows, q)) s)

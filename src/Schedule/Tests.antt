-- ===== src/Schedule/Tests.antt =====
-- A tick over two workflows, one of them for an agent that is down.
use hill90_app.Prelude.{
  ℕ, ◌≡◌, ◌<◌, refl, Bool, true, false, Option, none, some, [], ◌∷◌, String, arith, if◌then◌else◌,
  str_eq, ◌==◌,
}
use hill90_app.Prelude.Exec.{Result, ok}
use hill90_app.Schedule.Store.{Workflow, Work, Store}
use hill90_app.Schedule.Dispatch.{Due, Response, body}
use hill90_app.Schedule.Tick.{due_workflows, run_due, tick}
use hill90_app.Schedule.Tick.Batch.{outcomes, rescheduled_all, run_due-rescheduled}
use hill90_app.Schedule.Tick.Progress.{answers, tick-none_due}
use hill90_app.Schedule.Startup.{uninitialized}
use hill90_app.Schedule.Startup.Untouched.{names}

abbrev report : Workflow
report = record {
  id = "r";
  enabled = true;
  schedule_cron = some "0 * * * *";
  next_run_at = some 90;
  last_run_at = none;
}

abbrev backup : Workflow
backup = record {
  id = "b";
  enabled = true;
  schedule_cron = some "0 * * * *";
  next_run_at = some 100;
  last_run_at = none;
}

abbrev store : Store
store = record {
  workflows = report ∷ backup ∷ [];
  runs = [];
  threads = [];
  participants = [];
  messages = [];
  dispatched = [];
  next_id = 0;
  queries = 0;
  locked = false;
  running = false;
}

-- Every expression is an hour.
abbrev hourly : String → Result ℕ
hourly cron = ok 3700

abbrev accepts : Work → Result Response
accepts work = ok (body true)

abbrev due_of : Workflow → Due
due_of w = record {
  id = w.id;
  name = w.id;
  agent_id = "1";
  schedule_cron = w.schedule_cron;
  prompt = "go";
  created_by = "ann";
  agent_slug = "web";
  agent_status = if str_eq w.id "r" then "running" else "stopped";
  allowed_models = none;
}

abbrev join_all : Workflow → Option Due
join_all w = some (due_of w)

-- The run of the first workflow cannot be inserted.
abbrev third_fails : ℕ → Bool
third_fails n = n == 2

run_due-rescheduled_example :
    (run_due third_fails hourly accepts 100 join_all
      (due_of report ∷ due_of backup ∷ [])
      store).workflows
    ≡ rescheduled_all third_fails hourly accepts 100 join_all
        (outcomes third_fails hourly accepts 100 join_all
          (due_of report ∷ due_of backup ∷ [])
          store)
        store.workflows
run_due-rescheduled_example =
    run_due-rescheduled third_fails hourly accepts 100 join_all (due_of report ∷ due_of backup ∷ [])
      store

abbrev held_store : Store
held_store = record store { locked = true }

join_all-id : (w : Workflow) (d : Due) → join_all w ≡ some d → d.id ≡ w.id
join_all-id w d e = ground (arith, e)

hourly-later : (cron : String) (t : ℕ) → hourly cron ≡ ok t → 100 < t
hourly-later cron t e = ground (arith, e)

tick-none_due_example :
    due_workflows answers hourly accepts 100 join_all
      (tick answers hourly accepts 100 join_all store).workflows
    ≡ []
tick-none_due_example =
    tick-none_due hourly accepts 100 join_all join_all-id hourly-later store refl

abbrev fresh_workflow : Workflow
fresh_workflow = record backup { id = "f"; next_run_at = none }

abbrev fresh_store : Store
fresh_store = record store { workflows = report ∷ fresh_workflow ∷ [] }

report-named : names (uninitialized fresh_store.workflows) "r" ≡ false
unfolding names uninitialized
report-named = refl

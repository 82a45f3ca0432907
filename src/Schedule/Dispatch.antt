-- ===== src/Schedule/Dispatch.antt =====
-- services/api/src/helpers/cron.ts (`computeNextRun`), services/chat-dispatch.ts (`dispatchChatWork`) and
-- services/workflow-scheduler.ts (`executeWorkflow`). The cron library and the agent's HTTP answer are
-- parameters.
pub mod Outcome
pub mod Advance
use hill90_app.Prelude.{
  ℕ, suc, Bool, true, false, Option, none, some, List, [], ◌∷◌, ◌++◌, String, str_eq, map, ◌==◌,
  or_else, if◌then◌else◌,
}
use hill90_app.Prelude.Exec.{Result, ok, thrown, Exec, ◌>>=◌, ◌>>◌}
use hill90_app.Schedule.Store.{
  Workflow, Run, Participant, Message, Work, Store, statement, returning, silent, update_workflow,
}

-- A row of the scheduler's query for due workflows.
pub record Due : Type 0 where
  pub id : String
  pub name : String
  pub agent_id : String
  pub schedule_cron : Option String
  pub prompt : String
  pub created_by : String
  pub agent_slug : String
  pub agent_status : String
  pub allowed_models : Option (List String)

-- What the agent's HTTP server answers: a status that is not a success, with its text, or the
-- `accepted` field of its body.
pub data Response : Type 0 where
  not_ok : String → String → Response
  body : Bool → Response

pub record DispatchResult : Type 0 where
  pub accepted : Bool
  pub error : Option String

infixr 66 ◌⋯◌
abbrev pub ◌⋯◌ : String → String → String
a ⋯ b = Prim.Native.String.◌++◌ a b

-- `cronExpr` falsy is no schedule; the library may throw.
unfoldable pub compute_next_run : (String → Result ℕ) → Option String → Result (Option ℕ)
compute_next_run parse_next none = ok none
compute_next_run parse_next (some cron) =
    if str_eq cron ""
    then ok none
    else (elim (parse_next cron) [ ok t ↦ ok (some t) | thrown e ↦ thrown e ])

unfoldable pub cron_failure : String → String → String
cron_failure cron e = "Cannot schedule next run: cron expression \"" ⋯ cron ⋯ "\" is invalid — " ⋯ e

-- `wf.allowed_models?.[0] || 'default'`
first_model : Option (List String) → String
first_model none = "default"
first_model (some []) = "default"
first_model (some (m ∷ ms)) = if str_eq m "" then "default" else m

module _ (fails : ℕ → Bool) (parse_next : String → Result ℕ) (fetch : Work → Result Response)
    (now : ℕ) where
  insert_run : String → Exec Store ℕ
  unfolding statement
  insert_run workflow_id = statement fails (
      returning (λ id s. record s {
        runs =
            s.runs
            ++ record {
              id = id;
              workflow_id = workflow_id;
              status = "running";
              error = none;
              thread_id = none;
            }
              ∷ [];
      }))

  -- `recordCronFailure` and `recordUnexpectedFailure`: an insert whose own failure is only logged.
  unfoldable pub record_failure : String → String → Store → Store
  unfolding statement
  record_failure workflow_id message s =
      (statement fails
        (returning (λ id t. record t {
          runs =
              t.runs
              ++ record {
                id = id;
                workflow_id = workflow_id;
                status = "error";
                error = some message;
                thread_id = none;
              }
                ∷ [];
        }))
        s).1

  insert_thread : String → Exec Store ℕ
  unfolding statement
  insert_thread title =
      statement fails (returning (λ id s. record s { threads = s.threads ++ (id, title) ∷ [] }))

  insert_participant : ℕ → String → String → Exec Store (Unit {0})
  unfolding statement
  insert_participant thread_id participant_id participant_type = statement fails (
      silent (λ s. record s {
        participants =
            s.participants
            ++ record {
              thread_id = thread_id;
              participant_id = participant_id;
              participant_type = participant_type;
            }
              ∷ [];
      }))

  insert_message : ℕ → String → String → Exec Store ℕ
  unfolding statement
  insert_message thread_id author_id content = statement fails (
      returning (λ id s. record s {
        messages =
            s.messages
            ++ record { id = id; thread_id = thread_id; author_id = author_id; content = content }
              ∷ [];
      }))

  -- The request is sent, whatever comes back.
  dispatch_chat_work : Work → Exec Store DispatchResult
  dispatch_chat_work work s =
      let sent = record s { dispatched = s.dispatched ++ work ∷ [] } in
      elim (fetch work) [
        | thrown e ↦ (thrown e, sent)
        | ok response ↦ elim response [
          | not_ok status text ↦ (
            ok (record {
              accepted = false;
              error = some ("Agentbox returned " ⋯ status ⋯ ": " ⋯ text);
            }),
            sent,
          )
          | body accepted ↦ (ok (record { accepted = accepted; error = none }), sent)
        ]
      ]

  update_run : ℕ → (Run → Run) → List Run → List Run
  update_run id f [] = []
  update_run id f (r ∷ rs) = (if r.id == id then f r else r) ∷ update_run id f rs

  set_run_thread : ℕ → ℕ → Exec Store (Unit {0})
  unfolding statement update_run
  set_run_thread run_id thread_id = statement fails (
      silent (λ s. record s {
        runs = update_run run_id (λ r. record r { thread_id = some thread_id }) s.runs;
      }))

  check_accepted : DispatchResult → Exec Store (Unit {0})
  check_accepted result s =
      if result.accepted
      then (ok tt, s)
      else (thrown (or_else result.error "Agent rejected work"), s)

  -- The body of the `try`.
  dispatch_run : Due → ℕ → Exec Store (Unit {0})
  unfolding insert_thread insert_participant insert_message dispatch_chat_work set_run_thread
      check_accepted first_model
  dispatch_run wf run_id = do
    thread_id ← insert_thread ("Workflow: " ⋯ wf.name)
    insert_participant thread_id wf.agent_id "agent"
    insert_participant thread_id wf.created_by "human"
    message_id ← insert_message thread_id wf.created_by wf.prompt
    result ← dispatch_chat_work (record {
      agent_slug = wf.agent_slug;
      thread_id = thread_id;
      message_id = message_id;
      content = wf.prompt;
      model = first_model wf.allowed_models;
    })
    set_run_thread run_id thread_id
    check_accepted result

  -- The `catch`, whose own statement is guarded.
  mark_run_failed : ℕ → String → Store → Store
  unfolding statement update_run
  mark_run_failed run_id e s =
      let message = if str_eq e "" then "Unknown error" else e in
      (statement fails
        (silent (λ t. record t {
          runs =
              update_run run_id (λ r. record r { status = "error"; error = some message }) t.runs;
        }))
        s).1

  pub guarded_dispatch : Due → ℕ → Store → Store
  unfolding dispatch_run mark_run_failed
  guarded_dispatch wf run_id s =
      let (r, t) = dispatch_run wf run_id s in
      elim r [ ok _ ↦ t | thrown e ↦ mark_run_failed run_id e t ]

  -- `computeNextRun` in its `try`: an invalid expression is recorded, and the next run is null.
  pub next_or_record : Due → Store → Option ℕ × Store
  unfolding compute_next_run record_failure
  next_or_record wf s = elim (compute_next_run parse_next wf.schedule_cron) [
    | ok next ↦ (next, s)
    | thrown e ↦ (none, record_failure wf.id (cron_failure (or_else wf.schedule_cron "null") e) s)
  ]

  advance : Due → (Workflow → Workflow) → Exec Store (Unit {0})
  unfolding statement update_workflow
  advance wf f =
      statement fails (silent (λ s. record s { workflows = update_workflow wf.id f s.workflows }))

  -- The end of both branches: the next run is computed and stored.
  finish : Due → (Option ℕ → Workflow → Workflow) → Exec Store (Unit {0})
  unfolding next_or_record advance
  finish wf f s = let (next, t) = next_or_record wf s in advance wf (f next) t

  -- The run of a workflow whose agent is up.
  execute_running : Due → Exec Store (Unit {0})
  unfolding insert_run guarded_dispatch finish
  execute_running wf = do
    run_id ← insert_run wf.id
    λ s.
        finish wf (λ next w. record w { last_run_at = some now; next_run_at = next })
          (guarded_dispatch wf run_id s)

  unfoldable pub execute_workflow : Due → Exec Store (Unit {0})
  unfolding execute_running finish
  execute_workflow wf =
      if str_eq wf.agent_status "running"
      then execute_running wf
      else finish wf (λ next w. record w { next_run_at = next })

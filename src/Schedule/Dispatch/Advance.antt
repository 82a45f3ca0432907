-- ===== src/Schedule/Dispatch/Advance.antt =====
-- When `executeWorkflow` gives a workflow its next run, and what it sends.
use hill90_app.Prelude.{
  ℕ, ◌+◌, ◌≤◌, ◌≡◌, ◌≢◌, refl, ◌∙◌, ap, sym, Bool, true, false, Option, some, List, String, arith,
  str_eq, eq_iff, length, if◌then◌else◌, inl, inr, Bool-cases,
}
use hill90_app.Prelude.Exec.{Result, ok, thrown, Exec}
use hill90_app.Schedule.Store.{Workflow, Work, Store, update_workflow}
use hill90_app.Schedule.Dispatch.{
  Due, Response, insert_run, guarded_dispatch, advance, execute_running, finish, execute_workflow,
}
use hill90_app.Schedule.Dispatch.Outcome.{
  next_or_record-next, guarded_dispatch-Sends, next_of, Quiet,
}

module _ (fails : ℕ → Bool) (parse_next : String → Result ℕ) (fetch : Work → Result Response)
    (now : ℕ) where
  -- The row of a workflow after its execution.
  abbrev pub advanced : Due → Workflow → Workflow
  advanced wf w =
      if str_eq wf.agent_status "running"
      then record w { last_run_at = some now; next_run_at = next_of fails parse_next fetch now wf }
      else record w { next_run_at = next_of fails parse_next fetch now wf }

  -- The schedule that an execution with this result leaves.
  unfoldable pub rescheduled : Due → Result (Unit {0}) → List Workflow → List Workflow
  rescheduled wf (ok _) ws = update_workflow wf.id (advanced wf) ws
  rescheduled wf (thrown e) ws = ws

  -- What the schedule becomes when `f` changes the row and the code has this result.
  abbrev after : Due → (Workflow → Workflow) → Result (Unit {0}) → List Workflow → List Workflow
  after wf f r ws = elim r [ ok _ ↦ update_workflow wf.id f ws | thrown e ↦ ws ]

  abbrev Leaves : Due → (Workflow → Workflow) → Store → Result (Unit {0}) × Store → Type 0
  Leaves wf f s out =
      (out.1.workflows ≡ after wf f out.0 s.workflows)
      × (length out.1.dispatched ≤ length s.dispatched + 1)

  advance-workflows :
      (wf : Due) (f : Workflow → Workflow) (s : Store)
      → ((advance fails parse_next fetch now wf f s).1.workflows
          ≡ after wf f (advance fails parse_next fetch now wf f s).0 s.workflows)
        × ((advance fails parse_next fetch now wf f s).1.dispatched ≡ s.dispatched)
  unfolding advance
  advance-workflows wf f s = ground arith

  finish-workflows :
      (wf : Due) (f : Option ℕ → Workflow → Workflow) (s : Store)
      → ((finish fails parse_next fetch now wf f s).1.workflows
          ≡ after wf
              (f (next_of fails parse_next fetch now wf))
              (finish fails parse_next fetch now wf f s).0
              s.workflows)
        × ((finish fails parse_next fetch now wf f s).1.dispatched ≡ s.dispatched)
  unfolding finish
  finish-workflows wf f s = ground (
    arith,
    next_or_record-next fails parse_next fetch now wf s,
    λ (t : Store). advance-workflows wf (f (next_of fails parse_next fetch now wf)) t,
  )

  insert_run-Quiet :
      (id : String) (s : Store)
      → Quiet fails parse_next fetch now s (insert_run fails parse_next fetch now id s).1
  unfolding insert_run
  insert_run-Quiet id s = ground arith

  Leaves-bind :
      (wf : Due) (f : Workflow → Workflow) (s : Store) (k : ℕ → Exec Store (Unit {0}))
      (p : Result ℕ × Store)
      → Quiet fails parse_next fetch now s p.1
      → ((a : ℕ) (t : Store) → Quiet fails parse_next fetch now s t → Leaves wf f s (k a t))
      → Leaves wf f s (elim p.0 [ ok a ↦ k a p.1 | thrown e ↦ (thrown e, p.1) ])
  Leaves-bind wf f s k (ok a, t) quiet h = h a t quiet
  Leaves-bind wf f s k (thrown e, t) quiet h = ground (arith, quiet)

  Leaves-if :
      (wf : Due) (f g : Workflow → Workflow) (s : Store) (x y : Exec Store (Unit {0})) (b : Bool)
      → Leaves wf f s (x s)
      → Leaves wf g s (y s)
      → Leaves wf (λ w. if b then f w else g w) s ((if b then x else y) s)
  Leaves-if wf f g s x y true h k = h
  Leaves-if wf f g s x y false h k = k

  execute_running-workflows :
      (wf : Due) (s : Store)
      → Leaves wf
          (λ w. record w {
            last_run_at = some now;
            next_run_at = next_of fails parse_next fetch now wf;
          })
          s
          (execute_running fails parse_next fetch now wf s)
  unfolding execute_running
  execute_running-workflows wf s =
      Leaves-bind wf _ s
        (λ run_id t.
          finish fails parse_next fetch now wf
            (λ next w. record w { last_run_at = some now; next_run_at = next })
            (guarded_dispatch fails parse_next fetch now wf run_id t))
        (insert_run fails parse_next fetch now wf.id s) (insert_run-Quiet wf.id s)
        λ run_id t quiet.
          execute_rest t (guarded_dispatch fails parse_next fetch now wf run_id t) quiet
            (guarded_dispatch-Sends fails parse_next fetch now wf run_id t)
    where
      execute_rest :
          (t u : Store)
          → Quiet fails parse_next fetch now s t
          → (u.workflows ≡ t.workflows) × (length u.dispatched ≤ length t.dispatched + 1)
          → Leaves wf
              (λ w. record w {
                last_run_at = some now;
                next_run_at = next_of fails parse_next fetch now wf;
              })
              s
              (finish fails parse_next fetch now wf
                (λ next w. record w { last_run_at = some now; next_run_at = next })
                u)
      execute_rest t u quiet sent =
          let done =
            finish-workflows wf (λ next w. record w { last_run_at = some now; next_run_at = next })
              u in
          (
            done.0 ∙ ap (after wf _ _) (sent.0 ∙ quiet.0),
            rw (done.1) (rw (sym (ap (λ (l : List Work). length l) quiet.1)) sent.1),
          )

  skip-workflows :
      (wf : Due) (s : Store)
      → Leaves wf
          (λ w. record w { next_run_at = next_of fails parse_next fetch now wf })
          s
          (finish fails parse_next fetch now wf (λ next w. record w { next_run_at = next }) s)
  skip-workflows wf s =
      let done = finish-workflows wf (λ next w. record w { next_run_at = next }) s in
      (done.0, rw (done.1) (omega arith))

  execute_workflow-Leaves :
      (wf : Due) (s : Store)
      → Leaves wf (advanced wf) s (execute_workflow fails parse_next fetch now wf s)
  unfolding execute_workflow
  execute_workflow-Leaves wf s =
      Leaves-if wf _ _ s _ _ (str_eq wf.agent_status "running") (execute_running-workflows wf s)
        (skip-workflows wf s)

  after-rescheduled :
      (wf : Due) (r : Result (Unit {0})) (ws : List Workflow)
      → after wf (advanced wf) r ws ≡ rescheduled wf r ws
  unfolding rescheduled
  after-rescheduled wf (ok _) ws = refl
  after-rescheduled wf (thrown e) ws = refl

  -- An execution that returns has given exactly its own workflow the next run that its cron expression
  -- names, none for an invalid one; one that throws has left the schedule alone.
  pub execute_workflow-rescheduled :
      (wf : Due) (s : Store)
      → (execute_workflow fails parse_next fetch now wf s).1.workflows
        ≡ rescheduled wf (execute_workflow fails parse_next fetch now wf s).0 s.workflows
  execute_workflow-rescheduled wf s =
      (execute_workflow-Leaves wf s).0 ∙ after-rescheduled wf _ s.workflows

  -- An execution sends at most one request, whichever statements fail.
  pub execute_workflow-requests :
      (wf : Due) (s : Store)
      → length (execute_workflow fails parse_next fetch now wf s).1.dispatched
        ≤ length s.dispatched + 1
  execute_workflow-requests wf s = (execute_workflow-Leaves wf s).1

  -- A workflow whose agent is not running sends nothing.
  pub execute_workflow-skips :
      (wf : Due) (s : Store)
      → wf.agent_status ≢ "running"
      → (execute_workflow fails parse_next fetch now wf s).1.dispatched ≡ s.dispatched
  unfolding execute_workflow
  execute_workflow-skips wf s down = elim (Bool-cases (str_eq wf.agent_status "running")) [
    | inl e ↦ ground (arith, down, e, eq_iff wf.agent_status "running")
    | inr e ↦ rw e (finish-workflows wf (λ next w. record w { next_run_at = next }) s).1
  ]

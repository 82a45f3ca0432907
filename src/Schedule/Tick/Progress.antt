-- ===== src/Schedule/Tick/Progress.antt =====
-- A tick over a database that answers leaves no workflow due.
use hill90_app.Prelude.{
  ℕ, ◌≡◌, ◌<◌, refl, Bool, true, false, Option, none, some, List, [], ◌∷◌, arith, if◌then◌else◌,
  String, str_eq, eq_iff, ◌||◌, leb,
}
use hill90_app.Prelude.Exec.{Result, ok, thrown}
use hill90_app.Schedule.Store.{Workflow, Work, Store, statement, update_workflow}
use hill90_app.Schedule.Dispatch.{Due, Response, execute_workflow, compute_next_run}
use hill90_app.Schedule.Dispatch.Advance.{rescheduled, advanced}
use hill90_app.Schedule.Tick.{
  is_due, due_workflows, contained, run_due, run_batch, unlock, under_lock, tick,
}
use hill90_app.Schedule.Tick.Batch.{contained-rescheduled}

-- A database none of whose statements fails.
abbrev pub answers : ℕ → Bool
answers _ = false

module _ (parse_next : String → Result ℕ) (fetch : Work → Result Response) (now : ℕ)
    (join : Workflow → Option Due) where
  mentions : List Due → String → Bool
  mentions [] id = false
  mentions (d ∷ ds) id = str_eq d.id id || mentions ds id

  -- Every due row that the query joins is still to come.
  Waiting : List Due → List Workflow → Type 0
  Waiting ds [] = Unit {0}
  Waiting ds (w ∷ ws) =
      (is_due answers parse_next fetch now join w ≡ true
        → (d : Due) → join w ≡ some d
        → mentions ds w.id ≡ true)
      × Waiting ds ws

  -- The query's rows are those that wait.
  Waiting-more :
      (d : Due) (ds : List Due) (ws : List Workflow) → Waiting ds ws → Waiting (d ∷ ds) ws
  unfolding Waiting mentions
  Waiting-more d ds [] h = tt
  Waiting-more d ds (w ∷ ws) (h, k) =
      (λ due e joined. ground (arith, h due e joined), Waiting-more d ds ws k)

  Waiting-join :
      (due : Bool) (o : Option Due) (ws : List Workflow) (ds : List Due)
      → Waiting ds ws
      → Waiting (if due then (elim o [ none ↦ ds | some d ↦ d ∷ ds ]) else ds) ws
  Waiting-join false o ws ds h = h
  Waiting-join true none ws ds h = h
  Waiting-join true (some d) ws ds h = Waiting-more d ds ws h

  Waiting-due_workflows :
      (joins : (w : Workflow) (d : Due) → join w ≡ some d → d.id ≡ w.id) (ws : List Workflow)
      → Waiting (due_workflows answers parse_next fetch now join ws) ws
  unfolding Waiting due_workflows mentions
  Waiting-due_workflows joins [] = tt
  Waiting-due_workflows joins (w ∷ ws) = (
    λ due d e. ground (arith, due, e, joins w d e, eq_iff d.id w.id),
    Waiting-join (is_due answers parse_next fetch now join w) (join w) ws _
        (Waiting-due_workflows joins ws),
  )

  execute-ok :
      (wf : Due) (s : Store) → (execute_workflow answers parse_next fetch now wf s).0 ≡ ok tt
  unfolding execute_workflow
  execute-ok wf s = ground arith

  -- The cron library names later instants only.
  abbrev NamesLater : Type 0
  NamesLater = (cron : String) (t : ℕ) → parse_next cron ≡ ok t → now < t

  -- The next run is none or later.
  abbrev Later : Option ℕ → Type 0
  Later o = elim o [ none ↦ Unit {0} | some t ↦ now < t ]

  parsed-Later :
      (later : NamesLater) (cron : String) (r : Result ℕ)
      → parse_next cron ≡ r
      → (e : Bool)
      → Later
          (elim (if e then ok none else (elim r as (λ x. Result (Option ℕ)) [
            | ok t ↦ ok (some t)
            | thrown e ↦ thrown e
          ])) [ ok next ↦ next | thrown x ↦ none ])
  parsed-Later later cron r h true = tt
  parsed-Later later cron (ok t) h false = later cron t h
  parsed-Later later cron (thrown x) h false = tt

  next_of-Later :
      (later : NamesLater) (cron : Option String)
      → Later (elim (compute_next_run parse_next cron) [ ok next ↦ next | thrown e ↦ none ])
  unfolding compute_next_run
  next_of-Later later none = tt
  next_of-Later later (some cron) = parsed-Later later cron (parse_next cron) refl (str_eq cron "")

  leb-Later : (o : Option ℕ) → Later o → (elim o [ none ↦ false | some t ↦ leb t now ]) ≡ false
  leb-Later none h = refl
  leb-Later (some t) h = ground (arith, h)

  advanced-not_due :
      (later : NamesLater) (wf : Due) (w : Workflow)
      → is_due answers parse_next fetch now join (advanced answers parse_next fetch now wf w)
        ≡ false
  unfolding is_due
  advanced-not_due later wf w =
      let next = leb-Later _ (next_of-Later later wf.schedule_cron) in ground (arith, next)

  abbrev Waits : List Due → Workflow → Type 0
  Waits ds w =
      is_due answers parse_next fetch now join w ≡ true
      → (d : Due) → join w ≡ some d
      → mentions ds w.id ≡ true

  Waits-if :
      (ds : List Due) (b : Bool) (x w : Workflow)
      → is_due answers parse_next fetch now join x ≡ false
      → (b ≡ false → Waits ds w)
      → Waits ds (if b then x else w)
  Waits-if ds true x w h k = λ due d joined. ground (arith, h, due)
  Waits-if ds false x w h k = k refl

  Waiting-update :
      (later : NamesLater) (d : Due) (ds : List Due) (ws : List Workflow)
      → Waiting (d ∷ ds) ws
      → Waiting ds (update_workflow d.id (advanced answers parse_next fetch now d) ws)
  unfolding Waiting mentions update_workflow
  Waiting-update later d ds [] h = tt
  Waiting-update later d ds (w ∷ ws) (h, k) = (
    Waits-if ds (str_eq w.id d.id) (advanced answers parse_next fetch now d w) w
        (advanced-not_due later d w)
        (λ other due e joined.
          ground (arith, h due e joined, other, eq_iff w.id d.id, eq_iff d.id w.id)),
    Waiting-update later d ds ws k,
  )

  Waiting-contained :
      (later : NamesLater) (d : Due) (ds : List Due) (s : Store)
      → Waiting (d ∷ ds) s.workflows
      → Waiting ds (contained answers parse_next fetch now join d s).workflows
  unfolding rescheduled
  Waiting-contained later d ds s h =
      rw (contained-rescheduled answers parse_next fetch now join d s).0
        (rw (execute-ok d s) (Waiting-update later d ds s.workflows h))

  run_due-Waiting :
      (later : NamesLater) (ds : List Due) (s : Store)
      → Waiting ds s.workflows
      → Waiting [] (run_due answers parse_next fetch now join ds s).workflows
  unfolding run_due
  run_due-Waiting later [] s h = h
  run_due-Waiting later (d ∷ ds) s h =
      run_due-Waiting later ds (contained answers parse_next fetch now join d s)
        (Waiting-contained later d ds s h)

  none_row :
      (due : Bool) (o : Option Due) (ds : List Due)
      → (due ≡ true → (d : Due) → o ≡ some d → false ≡ true)
      → ds ≡ []
      → (if due then (elim o [ none ↦ ds | some d ↦ d ∷ ds ]) else ds) ≡ []
  none_row false o ds h k = k
  none_row true none ds h k = k
  none_row true (some d) ds h k = ground (arith, h refl d refl)

  none_due :
      (ws : List Workflow) → Waiting [] ws → due_workflows answers parse_next fetch now join ws ≡ []
  unfolding Waiting mentions due_workflows
  none_due [] h = refl
  none_due (w ∷ ws) (h, k) =
      none_row (is_due answers parse_next fetch now join w) (join w)
        (due_workflows answers parse_next fetch now join ws) h (none_due ws k)

  -- If no statement of the tick fails, the lock is free, the join keeps a workflow's identifier and the
  -- cron library names later instants, then after the tick no workflow that has an agent is due.
  pub tick-none_due :
      (joins : (w : Workflow) (d : Due) → join w ≡ some d → d.id ≡ w.id)
      (later : (cron : String) (t : ℕ) → parse_next cron ≡ ok t → now < t) (s : Store)
      → s.locked ≡ false
      → due_workflows answers parse_next fetch now join
          (tick answers parse_next fetch now join s).workflows
        ≡ []
  unfolding tick under_lock run_batch unlock statement
  tick-none_due joins later s free =
      rw free (none_due _ (run_due-Waiting later _ _ (Waiting-due_workflows joins s.workflows)))

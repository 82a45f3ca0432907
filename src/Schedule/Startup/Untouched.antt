-- ===== src/Schedule/Startup/Untouched.antt =====
-- The rows that the startup leaves alone.
use hill90_app.Prelude.{
  ℕ, suc, ◌≡◌, refl, ◌∙◌, Bool, false, Option, none, some, List, [], ◌∷◌, String, arith, str_eq,
  eq_iff, ◌||◌, if◌then◌else◌,
}
use hill90_app.Prelude.Exec.{Result, ok, thrown}
use hill90_app.Schedule.Store.{Workflow, Work, Store, statement, update_workflow}
use hill90_app.Schedule.Dispatch.{Response, compute_next_run, record_failure}
use hill90_app.Schedule.Startup.{
  uninitialized, initialize_to, initialize_all, initialize_selected, initialize_next_runs,
}

pub find_workflow : String → List Workflow → Option Workflow
find_workflow id [] = none
find_workflow id (w ∷ ws) = if str_eq w.id id then some w else find_workflow id ws

unfoldable pub names : List Workflow → String → Bool
names [] id = false
names (w ∷ ws) id = str_eq w.id id || names ws id

find_workflow-update :
    (id j : String) (f : Workflow → Workflow) (ws : List Workflow)
    → str_eq j id ≡ false
    → ((w : Workflow) → (f w).id ≡ w.id)
    → find_workflow id (update_workflow j f ws) ≡ find_workflow id ws
unfolding find_workflow update_workflow
find_workflow-update id j f [] other keeps = refl
find_workflow-update id j f (w ∷ ws) other keeps = ground (
  arith,
  other,
  keeps w,
  find_workflow-update id j f ws other keeps,
  eq_iff w.id j,
  eq_iff w.id id,
  eq_iff j id,
)

or_left : (x y : Bool) → (x || y) ≡ false → x ≡ false
or_left x y h = ground (arith, h)

or_right : (x y : Bool) → (x || y) ≡ false → y ≡ false
or_right x y h = ground (arith, h)

module _ (fails : ℕ → Bool) (parse_next : String → Result ℕ) (fetch : Work → Result Response)
    (now : ℕ) where
  initialize_to-find :
      (id : String) (w : Workflow) (r : Result (Option ℕ)) (s : Store)
      → str_eq w.id id ≡ false
      → find_workflow id (initialize_to fails parse_next fetch now w r s).1.workflows
        ≡ find_workflow id s.workflows
  unfolding initialize_to record_failure statement
  initialize_to-find id w (thrown e) s other = ground arith
  initialize_to-find id w (ok none) s other = refl
  initialize_to-find id w (ok (some t)) s other = ground (
    arith,
    find_workflow-update id w.id (λ v. record v { next_run_at = some t }) s.workflows other
        (λ v. refl),
  )

  initialize_all-follow :
      (id : String) (ws : List Workflow) (found : Option Workflow)
      (later : (t : Store)
        → find_workflow id t.workflows ≡ found
        → find_workflow id (initialize_all fails parse_next fetch now ws t).1.workflows ≡ found)
      (p : Result (Unit {0}) × Store)
      → find_workflow id p.1.workflows ≡ found
      → find_workflow id
          (elim p.0 as (λ x. Result (Unit {0}) × Store) [
            | ok x ↦ initialize_all fails parse_next fetch now ws p.1
            | thrown e ↦ (thrown e, p.1)
          ]).1.workflows
        ≡ found
  initialize_all-follow id ws found later (ok _, t) same = later t same
  initialize_all-follow id ws found later (thrown e, t) same = same

  initialize_all-find :
      (id : String) (ws : List Workflow) (s : Store)
      → names ws id ≡ false
      → find_workflow id (initialize_all fails parse_next fetch now ws s).1.workflows
        ≡ find_workflow id s.workflows
  unfolding initialize_all names
  initialize_all-find id [] s h = refl
  initialize_all-find id (w ∷ ws) s h =
      initialize_all-follow id ws (find_workflow id s.workflows)
        (λ t same. initialize_all-find id ws t (or_right (str_eq w.id id) (names ws id) h) ∙ same)
        (initialize_to fails parse_next fetch now w (compute_next_run parse_next w.schedule_cron) s)
        (initialize_to-find id w (compute_next_run parse_next w.schedule_cron) s
          (or_left (str_eq w.id id) (names ws id) h))

  -- Whichever statements fail, the startup changes no row of a workflow that is disabled or has a next
  -- run already.
  pub initialize_next_runs-find :
      (id : String) (s : Store)
      → names (uninitialized s.workflows) id ≡ false
      → find_workflow id (initialize_next_runs fails parse_next fetch now s).workflows
        ≡ find_workflow id s.workflows
  unfolding initialize_next_runs initialize_selected statement
  initialize_next_runs-find id s h = ground (
    arith,
    initialize_all-find id (uninitialized s.workflows) (record s { queries = suc s.queries }) h,
  )

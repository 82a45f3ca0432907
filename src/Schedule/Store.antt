-- ===== src/Schedule/Store.antt =====
-- The tables that the scheduler reads and writes, and a database whose statements may fail:
-- `fails n` says that the n-th statement throws, and then it has no effect.
use hill90_app.Prelude.{ℕ, suc, Bool, Option, List, [], ◌∷◌, String, str_eq, if◌then◌else◌}
use hill90_app.Prelude.Exec.{ok, thrown, Exec}

-- A row of `workflows`; an instant is a number.
pub record Workflow : Type 0 where
  pub id : String
  pub enabled : Bool
  pub schedule_cron : Option String
  pub next_run_at : Option ℕ
  pub last_run_at : Option ℕ

-- A row of `workflow_runs`.
pub record Run : Type 0 where
  pub id : ℕ
  pub workflow_id : String
  pub status : String
  pub error : Option String
  pub thread_id : Option ℕ

pub record Participant : Type 0 where
  pub thread_id : ℕ
  pub participant_id : String
  pub participant_type : String

pub record Message : Type 0 where
  pub id : ℕ
  pub thread_id : ℕ
  pub author_id : String
  pub content : String

-- A request to an agent's `/work`.
pub record Work : Type 0 where
  pub agent_slug : String
  pub thread_id : ℕ
  pub message_id : ℕ
  pub content : String
  pub model : String

pub record Store : Type 0 where
  pub workflows : List Workflow
  pub runs : List Run
  pub threads : List (ℕ × String)
  pub participants : List Participant
  pub messages : List Message
  pub dispatched : List Work
  -- the next identifier that an INSERT returns
  pub next_id : ℕ
  pub queries : ℕ
  pub locked : Bool
  pub running : Bool

module _ (fails : ℕ → Bool) where
  -- One statement, with what it returns.
  unfoldable pub statement : {A : Type 0} → (Store → A × Store) → Exec Store A
  statement f s =
      let t = record s { queries = suc s.queries } in
      if fails s.queries then (thrown "database", t) else (ok (f t).0, (f t).1)

-- `INSERT … RETURNING id`
abbrev pub returning : (ℕ → Store → Store) → Store → ℕ × Store
returning f s = (s.next_id, f s.next_id (record s { next_id = suc s.next_id }))

abbrev pub silent : (Store → Store) → Store → Unit {0} × Store
silent f s = (tt, f s)

unfoldable pub update_workflow : String → (Workflow → Workflow) → List Workflow → List Workflow
update_workflow id f [] = []
update_workflow id f (w ∷ ws) = (if str_eq w.id id then f w else w) ∷ update_workflow id f ws

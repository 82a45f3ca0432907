-- ===== src/Agent/World.antt =====
-- What a reconciliation pass reads and writes: the tables, the API's in-memory state, and a database
-- whose statements may fail. `fails n` says that the n-th statement throws; it then has no effect.
use hill90_app.Prelude.{ℕ, suc, Bool, Option, List, String, if◌then◌else◌}
use hill90_app.Prelude.Exec.{ok, thrown, Exec}
use hill90_app.Agent.Reconcile.{Row}
use hill90_app.Agent.Verification.{Verification}

pub record Session : Type 0 where
  pub agent_id : String
  pub stopped_at : Option ℕ
  pub stopped_at_estimated : Bool

-- A row of `agent_status_history`, and one of `notifications` by what it is about.
pub record Change : Type 0 where
  pub agent_id : String
  pub old_status : String
  pub new_status : String

pub data Notice : Type 0 where
  container_deleted : String → String → Notice
  token_expired : String → String → ℕ → Notice

pub record World : Type 0 where
  pub agents : List Row
  pub sessions : List Session
  pub history : List Change
  pub notices : List Notice
  pub verification : Verification
  pub escalated : List (String × ℕ)
  -- the pass's own set of patched rows
  pub patched : List String
  pub queries : ℕ

module _ (fails : ℕ → Bool) where
  -- One statement.
  unfoldable pub query : (World → World) → Exec World (Unit {0})
  query f w =
      let w' = record w { queries = suc w.queries } in
      if fails w.queries then (thrown "database", w') else (ok tt, f w')

  -- A statement in a `try` whose `catch` only logs.
  unfoldable pub best_effort : (World → World) → World → World
  unfolding query
  best_effort f w = (query f w).1

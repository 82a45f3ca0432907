-- ===== src/Agent/Pass.antt =====
-- services/api/src/services/agent-reconciler.ts: one reconciliation pass.
pub mod Tables
pub mod Writes
pub mod Told
pub mod Outcome
pub mod Sweeps
use hill90_app.Prelude.{
  ℕ, suc, Bool, true, false, Option, none, some, List, [], ◌∷◌, ◌++◌, String, str_eq, not, ◌&&◌,
  ◌||◌, leb, ltb, ◌==◌, ◌/◌, or_else, is_some, map, if◌then◌else◌,
}
use hill90_app.Prelude.Exec.{Result, ok, thrown, Exec}
use hill90_app.Agent.Reconcile.{
  Row, Patch, Container, ReconcileResult, container_absent, reconcile_agent_statuses,
}
use hill90_app.Agent.Update.{patched_row}
use hill90_app.Agent.Verification.{record_reconcile_pass, record_reconcile_failure}
use hill90_app.Agent.World.{
  World, Session, Change, Notice, container_deleted, token_expired, query, best_effort,
}

-- `WHERE id = $n`
pub update_by_id : String → (Row → Row) → List Row → List Row
update_by_id id f [] = []
update_by_id id f (row ∷ rows) = (if str_eq row.id id then f row else row) ∷ update_by_id id f rows

-- `Set.has`, over a list
pub member : String → List String → Bool
member a [] = false
member a (b ∷ bs) = str_eq b a || member a bs

pub find_agent : String → List Row → Option Row
find_agent id [] = none
find_agent id (row ∷ rows) = if str_eq row.id id then some row else find_agent id rows

module _ (fails : ℕ → Bool) where
  -- `notify`: an insert that is best effort.
  notify : Notice → World → World
  unfolding best_effort
  notify n = best_effort fails (λ w. record w { notices = w.notices ++ n ∷ [] })

  record_change : Patch → World → World
  unfolding best_effort
  record_change p = best_effort fails (λ w. record w {
    history =
        w.history
        ++ record { agent_id = p.id; old_status = p.previous_status; new_status = p.status } ∷ [];
  })

  -- What follows the UPDATE: nothing if the status is the same, or else the history row and, for a
  -- container that was deleted, the notice to the owner.
  after_update : Patch → World → World
  unfolding notify record_change
  after_update p w =
      if str_eq p.status p.previous_status
      then w
      else (let w' = record_change p w in
          if str_eq p.status "stopped" && str_eq (or_else p.container_state "") container_absent
          then notify (container_deleted p.created_by p.id) w'
          else w')

  -- The callback that writes a patch.
  pub apply_patch : Patch → Exec World (Unit {0})
  unfolding query after_update update_by_id
  apply_patch p w =
      let w₀ = record w { patched = p.id ∷ w.patched } in
      let (r, w₁) =
        query fails (λ v. record v { agents = update_by_id p.id (patched_row p) v.agents }) w₀ in
      elim r [ thrown e ↦ (thrown e, w₁) | ok _ ↦ (ok tt, after_update p w₁) ]

  module _ (now : ℕ) where
    close_for : Option Row → Session → Session
    close_for none s = s
    close_for (some a) s =
        if not (is_some s.stopped_at) && not (str_eq a.status "running")
        then record s {
          stopped_at = some (or_else a.container_finished_at now);
          stopped_at_estimated = not (is_some a.container_finished_at);
        }
        else s

    pub close_session : List Row → Session → Session
    unfolding close_for find_agent
    close_session agents s = close_for (find_agent s.agent_id agents) s

    pub close_sessions_for_stopped_agents : World → World
    unfolding close_session best_effort
    close_sessions_for_stopped_agents =
        best_effort fails (λ w. record w { sessions = map (close_session w.agents) w.sessions })

  pub expiry_of : String → List (String × ℕ) → Option ℕ
  expiry_of k [] = none
  expiry_of k ((j, e) ∷ m) = if str_eq j k then some e else expiry_of k m

  set_expiry : String → ℕ → List (String × ℕ) → List (String × ℕ)
  set_expiry k e [] = (k, e) ∷ []
  set_expiry k e ((j, d) ∷ m) = if str_eq j k then (k, e) ∷ m else (j, d) ∷ set_expiry k e m

  -- `escalatedTokenExpiry.get(row.id) === row.model_router_exp`
  pub already_escalated : String → ℕ → List (String × ℕ) → Bool
  unfolding expiry_of
  already_escalated id exp m = elim (expiry_of id m) [ none ↦ false | some e ↦ e == exp ]

  escalate_expired : (now : ℕ) → Row → ℕ → World → World
  unfolding already_escalated set_expiry notify
  escalate_expired now row exp w =
      if ltb now exp || already_escalated row.id exp w.escalated
      then w
      else notify (token_expired row.created_by row.id exp)
          (record w { escalated = set_expiry row.id exp w.escalated })

  -- One round of `escalateUnrenewedTokens`; `skip` is its second argument.
  pub escalate_row : (now : ℕ) → (Row → Bool) → Row → World → World
  unfolding escalate_expired
  escalate_row now skip row w =
      if not (str_eq row.status "running") || skip row
      then w
      else (elim row.model_router_exp [ none ↦ w | some exp ↦ escalate_expired now row exp w ])

  pub escalate_unrenewed_tokens : (now : ℕ) → (Row → Bool) → List Row → World → World
  unfolding escalate_row
  escalate_unrenewed_tokens now skip [] w = w
  escalate_unrenewed_tokens now skip (row ∷ rows) w =
      escalate_unrenewed_tokens now skip rows (escalate_row now skip row w)

  module _ (now : ℕ) (inspect : String → Result (Option Container)) where
    -- The `try` block once the rows are read.
    finish_pass : List Row → Result ReconcileResult × World → Option ReconcileResult × World
    unfolding close_sessions_for_stopped_agents escalate_unrenewed_tokens member
        record_reconcile_pass record_reconcile_failure
    finish_pass rows (thrown e, w) =
        (none, record w { verification = record_reconcile_failure w.verification })
    finish_pass rows (ok r, w) =
        let swept = close_sessions_for_stopped_agents now w in
        let w' = record swept {
          verification = record_reconcile_pass r.unverified swept.verification;
        } in
        (
          some r,
          escalate_unrenewed_tokens (now / 1000)
              (λ row. member row.id w'.patched || member row.agent_id r.unverified) rows w',
        )

    unfoldable pub run_reconcile_pass : World → Option ReconcileResult × World
    unfolding finish_pass reconcile_agent_statuses apply_patch query record_reconcile_failure
    run_reconcile_pass w =
        let (r, w₁) = query fails (λ v. v) (record w { patched = [] }) in
        elim r [
          | thrown e ↦ (none, record w₁ { verification = record_reconcile_failure w₁.verification })
          | ok _ ↦ finish_pass w₁.agents (reconcile_agent_statuses inspect apply_patch w₁.agents w₁)
        ]

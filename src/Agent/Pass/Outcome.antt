-- ===== src/Agent/Pass/Outcome.antt =====
-- What a pass that succeeds has written and counted, and what the API reports after any pass.
use hill90_app.Agent.Verification.History.{listed, record_reconcile_pass-verified}
use hill90_app.Prelude.{
  ℕ, ◌+◌, ◌/◌, ◌≡◌, ◌∙◌, ap, refl, inl, inr, Bool, true, false, not, ◌||◌, Option, none, some, List,
  [], ◌∷◌, map, String, arith, length, if◌then◌else◌, Bool-cases, suc,
}
use hill90_app.Prelude.Exec.{Result, ok, thrown}
use hill90_app.Agent.Reconcile.{Row, Container, ReconcileResult, reconcile_agent_statuses}
use hill90_app.Agent.Verification.{
  unknown_status, reported_status, is_status_verified, record_reconcile_pass,
}
use hill90_app.Agent.World.{World, query}
use hill90_app.Agent.Pass.{
  member, apply_patch, run_reconcile_pass, finish_pass, escalate_unrenewed_tokens,
  close_sessions_for_stopped_agents, escalate_row,
}
use hill90_app.Agent.Pass.Tables.{Distinct, write_all-map}
use hill90_app.Agent.Pass.Told.{told_row, changes, rose, fell, settled-told, count_all-changes}
use hill90_app.Agent.Pass.Writes.{count_all, faulted, count_all-counts, reconcile_all-ok}

module _ (fails : ℕ → Bool) (inspect : String → Result (Option Container)) where
  -- What a pass that ends with a result guarantees.
  pub record IsComplete (before : World) (r : ReconcileResult) (after : World) : Type 0 where
    pub table : after.agents ≡ map (told_row inspect) before.agents
    pub all_checked : r.checked ≡ length before.agents
    pub risen : r.promoted ≡ changes rose before.agents after.agents
    pub fallen : r.demoted ≡ changes fell before.agents after.agents
    pub sums : r.reconciled ≡ r.promoted + r.demoted
    pub listed : r.unverified ≡ faulted fails inspect before.agents

  module _ (now : ℕ) where
    escalate_row-agents :
        (clock : ℕ) (skip : Row → Bool) (row : Row) (w : World)
        → ((escalate_row fails clock skip row w).agents ≡ w.agents)
          × ((escalate_row fails clock skip row w).verification ≡ w.verification)
    unfolding escalate_row
    escalate_row-agents clock skip row w = ground arith

    escalate-agents :
        (clock : ℕ) (skip : Row → Bool) (rows : List Row) (w : World)
        → ((escalate_unrenewed_tokens fails clock skip rows w).agents ≡ w.agents)
          × ((escalate_unrenewed_tokens fails clock skip rows w).verification ≡ w.verification)
    unfolding escalate_unrenewed_tokens
    escalate-agents clock skip [] w = (refl, refl)
    escalate-agents clock skip (row ∷ rows) w =
        let (agents, verified) = escalate_row-agents clock skip row w in
        let (agents', verified') =
          escalate-agents clock skip rows (escalate_row fails clock skip row w) in
        (agents' ∙ agents, verified' ∙ verified)

    close_sessions-agents :
        (w : World)
        → ((close_sessions_for_stopped_agents fails now w).agents ≡ w.agents)
          × ((close_sessions_for_stopped_agents fails now w).verification ≡ w.verification)
    unfolding close_sessions_for_stopped_agents
    close_sessions-agents w = ground arith

    -- Where the loop over the rows ends, and what the pass makes of it.
    finish_pass-ok :
        (rows : List Row) (r : ReconcileResult) (w : World)
        → let after = finish_pass fails now inspect rows (ok r, w) in
          (after.0 ≡ some r)
          × (after.1.agents ≡ w.agents)
          × ((a : String) → is_status_verified a after.1.verification ≡ not (listed a r.unverified))
    unfolding finish_pass
    finish_pass-ok rows r w =
        let swept = close_sessions_for_stopped_agents fails now w in
        let w' = record swept {
          verification = record_reconcile_pass r.unverified swept.verification;
        } in
        let skip : Row → Bool =
          λ row. member row.id w'.patched || member row.agent_id r.unverified in
        let (agents, verified) = escalate-agents (now / 1000) skip rows w' in
        (
          refl,
          agents ∙ (close_sessions-agents w).0,
          λ a.
              ap (is_status_verified a) verified
              ∙ record_reconcile_pass-verified a r.unverified swept.verification,
        )

    finish_pass-thrown :
        (rows : List Row) (e : String) (w : World) (a : String)
        → let after = finish_pass fails now inspect rows (thrown e, w) in
          (after.0 ≡ none) × (is_status_verified a after.1.verification ≡ false)
    unfolding finish_pass is_status_verified
    finish_pass-thrown rows e w a = (refl, refl)

    -- The world once the rows are read, and the pass by whether that failed.
    abbrev opened : World → World
    opened w = record w { patched = []; queries = suc w.queries }

    abbrev loop : World → Result ReconcileResult × World
    loop w = reconcile_agent_statuses inspect (apply_patch fails) w.agents (opened w)

    run_broken :
        (w : World) (a : String)
        → fails w.queries ≡ true
        → ((run_reconcile_pass fails now inspect w).0 ≡ none)
          × (is_status_verified a (run_reconcile_pass fails now inspect w).1.verification ≡ false)
    unfolding run_reconcile_pass is_status_verified
    run_broken w a broken = ground (arith, broken)

    run_works :
        (w : World)
        → fails w.queries ≡ false
        → run_reconcile_pass fails now inspect w ≡ finish_pass fails now inspect w.agents (loop w)
    unfolding run_reconcile_pass
    run_works w works =
        let read : query fails (λ v. v) (record w { patched = [] }) ≡ (ok tt, opened w) =
          unfold query in rw works in
        rw (run_reconcile_pass, read) (rw read)

    finish-IsComplete :
        (w : World) (r : ReconcileResult) (x : Result ReconcileResult) (w' : World)
        → Distinct w.agents
        → loop w ≡ (x, w')
        → (finish_pass fails now inspect w.agents (x, w')).0 ≡ some r
        → IsComplete w r (finish_pass fails now inspect w.agents (x, w')).1
    unfolding reconcile_agent_statuses
    finish-IsComplete w r (thrown e) w' d _ h = cc ((finish_pass-thrown w.agents e w' "").0, h)
    finish-IsComplete w r (ok r₀) w' d run h =
        let start : ReconcileResult = record {
          checked = length w.agents;
          reconciled = 0;
          promoted = 0;
          demoted = 0;
          unverified = [];
        } in
        let (result, agents, _) = finish_pass-ok w.agents r₀ w' in
        let (counts, table) = reconcile_all-ok fails inspect w.agents start r₀ (opened w) w' run in
        let (checked, sums, listed') =
          count_all-counts fails inspect w.agents start (omega arith) in
        let same : r ≡ count_all fails inspect w.agents start = cc (result, h, counts) in
        let (up, down) = count_all-changes inspect fails w.agents start in
        let told : (finish_pass fails now inspect w.agents (ok r₀, w')).1.agents
            ≡ map (told_row inspect) w.agents =
          agents ∙ table ∙ write_all-map inspect w.agents d ∙ settled-told inspect w.agents in
        record {
          table = told;
          risen = rw (same, told) (omega (arith, up));
          fallen = rw (same, told) (omega (arith, down));
          all_checked = rw same checked;
          sums = rw same sums;
          listed = rw same listed';
        }

    -- A pass that ends with a result, over rows with different keys, has brought every row to what
    -- its inspection says, whichever other statements failed: a running container makes the agent
    -- running, one that is gone or is seen down for the second time makes a running agent stopped,
    -- and what was seen is recorded, or cleared where the inspection threw. It has counted every row,
    -- promoted as many as the table shows to have become running and demoted as many as have ceased
    -- to be, reconciled their sum, and listed exactly the agents whose inspection threw.
    pub run_reconcile_pass-IsComplete :
        (w : World) (r : ReconcileResult)
        → Distinct w.agents
        → (run_reconcile_pass fails now inspect w).0 ≡ some r
        → IsComplete w r (run_reconcile_pass fails now inspect w).1
    run_reconcile_pass-IsComplete w r d h = elim (Bool-cases (fails w.queries)) [
      | inl broken ↦ cc ((run_broken w "" broken).0, h)
      | inr works ↦
          let (x, w') = loop w in
          let same = run_works w works in rw same (finish-IsComplete w r x w' d refl (rw same at h))
    ]

    finish-reports :
        (rows : List Row) (x : Result ReconcileResult) (w' : World) (a recorded : String)
        → let after = finish_pass fails now inspect rows (x, w') in
          reported_status a recorded after.1.verification ≡ (elim after.0 [
            | none ↦ unknown_status
            | some r ↦ if listed a r.unverified then unknown_status else recorded
          ])
    unfolding reported_status
    finish-reports rows (thrown e) w' a recorded = ground (arith, finish_pass-thrown rows e w' a)
    finish-reports rows (ok r) w' a recorded =
        let (result, _, verified) = finish_pass-ok rows r w' in
        rw result (rw (verified a) (ground arith))

    -- After any pass, the API reports `unknown` for every agent if the pass has failed, and
    -- otherwise for exactly the agents that it could not inspect.
    pub run_reconcile_pass-reports :
        (w : World) (a recorded : String)
        → reported_status a recorded (run_reconcile_pass fails now inspect w).1.verification
          ≡ (elim (run_reconcile_pass fails now inspect w).0 [
            | none ↦ unknown_status
            | some r ↦ if listed a r.unverified then unknown_status else recorded
          ])
    run_reconcile_pass-reports w a recorded = elim (Bool-cases (fails w.queries)) [
      | inl broken ↦ unfold reported_status in ground (arith, run_broken w a broken)
      | inr works ↦
          let (x, w') = loop w in rw (run_works w works) (finish-reports w.agents x w' a recorded)
    ]

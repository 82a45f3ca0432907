-- ===== src/Agent/Pass/Writes.antt =====
-- What the loop of a pass has written and counted.
use hill90_app.Agent.Verification.History.{listed}
use mathlib.Core.List.{append-nil, append_assoc}
use hill90_app.Prelude.{
  ℕ, ◌+◌, ◌≡◌, ◌∙◌, ap, sym, inl, inr, Bool, Option, List, [], ◌∷◌, ◌++◌, String, arith, Bool-cases,
  Option-cases, suc,
}
use hill90_app.Prelude.Exec.{Result, ok, thrown}
use hill90_app.Agent.Reconcile.{
  Row, Patch, Container, ReconcileResult, decide, patch_of, count, apply_decision, reconcile_all,
}
use hill90_app.Agent.Update.{patched_row}
use hill90_app.Agent.World.{World}
use hill90_app.Agent.Pass.{update_by_id, after_update, apply_patch}
use hill90_app.Agent.Pass.Tables.{write, write_all}

module _ (fails : ℕ → Bool) (inspect : String → Result (Option Container)) where
  after_update-agents : (p : Patch) (w : World) → (after_update fails p w).agents ≡ w.agents
  unfolding after_update
  after_update-agents p w = ground arith

  pub apply_patch-agents :
      (p : Patch) (w : World)
      → (apply_patch fails p w).0 ≡ ok tt
      → (apply_patch fails p w).1.agents ≡ update_by_id p.id (patched_row p) w.agents
  unfolding apply_patch
  apply_patch-agents p w h = elim (Bool-cases (fails w.queries)) [
    | inl broken ↦ ground (arith, broken)
    | inr works ↦ ground (
      arith,
      works,
      after_update-agents p (record w {
        patched = p.id ∷ w.patched;
        queries = suc w.queries;
        agents = update_by_id p.id (patched_row p) w.agents;
      }),
    )
  ]

  apply_decision-agents :
      (row : Row) (w : World)
      → let d = decide row (inspect row.agent_id) in
        (apply_decision inspect (apply_patch fails) d w).0 ≡ ok tt
        → (apply_decision inspect (apply_patch fails) d w).1.agents ≡ write inspect row w.agents
  unfolding apply_decision write
  apply_decision-agents row w h =
      elim (Option-cases (patch_of (decide row (inspect row.agent_id)))) [
        | inl quiet ↦ ground (arith, quiet)
        | inr (p, patch) ↦ ground (arith, patch, apply_patch-agents p w)
      ]

  -- The counters after every round, whatever is written.
  unfoldable pub count_all : List Row → ReconcileResult → ReconcileResult
  unfolding decide count
  count_all [] r = r
  count_all (row ∷ rows) r = count_all rows (count row (decide row (inspect row.agent_id)) r)

  pub reconcile_all-ok :
      (rows : List Row) (r r' : ReconcileResult) (w w' : World)
      → reconcile_all inspect (apply_patch fails) rows r w ≡ (ok r', w')
      → (r' ≡ count_all rows r) × (w'.agents ≡ write_all inspect rows w.agents)
  unfolding reconcile_all count_all write_all
  reconcile_all-ok [] r r' w w' h = ground arith
  reconcile_all-ok (row ∷ rows) r r' w w' h =
      let d = decide row (inspect row.agent_id) in
      let (outcome, w₁) = apply_decision inspect (apply_patch fails) d w in
      ground (arith, apply_decision-agents row w, reconcile_all-ok rows (count row d r) r' w₁ w')

  -- Whose inspection threw, in the order of the rows.
  pub faulted : List Row → List String
  faulted [] = []
  faulted (row ∷ rows) = elim (inspect row.agent_id) [
    | thrown _ ↦ row.agent_id ∷ faulted rows
    | ok _ ↦ faulted rows
  ]

  abbrev fault : Row → Result (Option Container) → List String
  fault row (thrown e) = row.agent_id ∷ []
  fault row (ok seen) = []

  count-counts :
      (row : Row) (seen : Result (Option Container)) (r : ReconcileResult)
      → r.reconciled ≡ r.promoted + r.demoted
      → let c = count row (decide row seen) r in
        (c.checked ≡ r.checked)
        × (c.reconciled ≡ c.promoted + c.demoted)
        × (c.unverified ≡ r.unverified ++ fault row seen)
  unfolding count decide
  count-counts row (thrown e) r h = ground arith
  count-counts row (ok seen) r h = ground (arith, append-nil r.unverified)

  faulted-cons :
      (row : Row) (rows : List Row)
      → faulted (row ∷ rows) ≡ fault row (inspect row.agent_id) ++ faulted rows
  unfolding faulted
  faulted-cons row rows = ground arith

  pub count_all-counts :
      (rows : List Row) (r : ReconcileResult)
      → r.reconciled ≡ r.promoted + r.demoted
      → let c = count_all rows r in
        (c.checked ≡ r.checked)
        × (c.reconciled ≡ c.promoted + c.demoted)
        × (c.unverified ≡ r.unverified ++ faulted rows)
  unfolding count_all
  count_all-counts [] r h = unfold faulted in ground (arith, append-nil r.unverified)
  count_all-counts (row ∷ rows) r h =
      let (checked, sums, listed) = count-counts row (inspect row.agent_id) r h in
      let (checked', sums', listed') =
        count_all-counts rows (count row (decide row (inspect row.agent_id)) r) sums in
      (
        checked' ∙ checked,
        sums',
        listed'
            ∙ ap (λ l. l ++ faulted rows) listed
            ∙ append_assoc r.unverified (fault row (inspect row.agent_id)) (faulted rows)
            ∙ ap (λ l. r.unverified ++ l) (sym (faulted-cons row rows)),
      )

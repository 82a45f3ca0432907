-- ===== src/Agent/Pass/Told.antt =====
-- What the answer of an inspection makes of an agent's row, said without the decision of the code, and the
-- corrections, read off the table before and after.
use hill90_app.Prelude.{
  ℕ, ◌+◌, ◌≡◌, refl, Bool, false, not, ◌&&◌, ◌||◌, Option, none, some, List, [], ◌∷◌, map, String,
  str_eq, if◌then◌else◌, arith, eq_iff, inl, inr, Option-cases, Bool-cases,
}
use hill90_app.Prelude.Exec.{Result, ok, thrown}
use hill90_app.Agent.Reconcile.{
  Row, Container, ReconcileResult, decide, patch_of, count, seen_state, is_running,
  already_observed_not_running,
}
use mathlib.Core.Path.{ap₂}
use hill90_app.Agent.Update.{settle}
use hill90_app.Agent.Pass.Tables.{settled}
use hill90_app.Agent.Pass.Writes.{count_all}

-- The last sighting of the container was of one that was down.
abbrev pub seen_down : Option String → Bool
seen_down none = false
seen_down (some s) = not (str_eq s "running")

abbrev pub ended : String → String → Option ℕ → Row → Row
ended state message finished row = record row {
  status = "stopped";
  container_id = none;
  container_state = some state;
  error_message = some message;
  container_finished_at = finished;
}

-- A row after an inspection: one that throws clears the sighting; a running container makes the agent
-- running; one that is gone stops a running agent, and one that is down stops it at the second sighting. What was
-- seen is recorded in each case.
abbrev pub told : Result (Option Container) → Row → Row
told (thrown e) row = record row { container_state = none }
told (ok none) row =
    if str_eq row.status "running"
    then ended "absent" "Container not found" none row
    else record row { container_state = some "absent" }
told (ok (some c)) row =
    if str_eq c.status "running"
    then (if str_eq row.status "running"
        then record row { container_state = some c.status }
        else record row {
          status = "running";
          container_id = some c.container_id;
          container_state = some c.status;
          error_message = none;
          container_finished_at = none;
        })
    else if str_eq row.status "running"
        && (str_eq c.status "absent" || seen_down row.container_state)
    then ended c.status (Prim.Native.String.◌++◌ "Container " c.status) c.finished_at row
    else record row { container_state = some c.status }

-- A row that has become running, and one that has ceased to be.
abbrev pub rose : Row → Row → Bool
rose before after = not (str_eq before.status "running") && str_eq after.status "running"

abbrev pub fell : Row → Row → Bool
fell before after = str_eq before.status "running" && not (str_eq after.status "running")

-- How many rows have changed so from one table to the other.
abbrev pub changes : (Row → Row → Bool) → List Row → List Row → ℕ
changes f [] after = 0
changes f (x ∷ xs) [] = 0
changes f (x ∷ xs) (y ∷ ys) = (if f x y then 1 else 0) + changes f xs ys

settle-thrown : (row : Row) (e : String) → settle row (thrown e) ≡ told (thrown e) row
unfolding settle decide patch_of
settle-thrown row e = elim (Option-cases row.container_state) [
  | inl h ↦ ground (arith, h)
  | inr (s, h) ↦ ground (arith, h)
]

settle-absent : (row : Row) → settle row (ok none) ≡ told (ok none) row
unfolding settle decide patch_of seen_state is_running
settle-absent row = elim (Option-cases row.container_state) [
  | inl h ↦ ground (arith, h)
  | inr (s, h) ↦ ground (arith, h, eq_iff s "absent")
]

settle-present : (row : Row) (c : Container) → settle row (ok (some c)) ≡ told (ok (some c)) row
unfolding settle decide patch_of seen_state is_running already_observed_not_running
settle-present row c = elim (Option-cases row.container_state) [
  | inl h ↦ ground (arith, h)
  | inr (s, h) ↦ ground (arith, h, eq_iff s c.status)
]

settle-told : (row : Row) (seen : Result (Option Container)) → settle row seen ≡ told seen row
settle-told row (thrown e) = settle-thrown row e
settle-told row (ok none) = settle-absent row
settle-told row (ok (some c)) = settle-present row c

-- A round counts a row as promoted if it has risen, and as demoted if it has fallen.
count-changes :
    (row : Row) (seen : Result (Option Container)) (r : ReconcileResult)
    → let c = count row (decide row seen) r in
      (c.promoted ≡ r.promoted + (if rose row (told seen row) then 1 else 0))
      × (c.demoted ≡ r.demoted + (if fell row (told seen row) then 1 else 0))
unfolding count decide seen_state is_running already_observed_not_running
count-changes row (thrown e) r = ground arith
count-changes row (ok none) r = elim (Bool-cases (str_eq row.status "running")) [
  | inl e ↦ rw e (ground (arith, e))
  | inr e ↦ rw e (ground (arith, e))
]
count-changes row (ok (some c)) r = elim (Bool-cases (str_eq row.status "running")) [
  | inl e ↦ elim (Bool-cases (str_eq c.status "running")) [
    | inl up ↦ rw (e, up) (ground (arith, e, up))
    | inr down ↦ elim (Bool-cases (str_eq c.status "absent" || seen_down row.container_state)) [
      | inl twice ↦ rw (e, down, twice) (ground (arith, e, down, twice))
      | inr once ↦ rw (e, down, once) (ground (arith, e, down, once))
    ]
  ]
  | inr e ↦ elim (Bool-cases (str_eq c.status "running")) [
    | inl up ↦ rw (e, up) (ground (arith, e, up))
    | inr down ↦ rw (e, down) (ground (arith, e, down))
  ]
]

module _ (inspect : String → Result (Option Container)) where
  abbrev pub told_row : Row → Row
  told_row row = told (inspect row.agent_id) row

  pub settled-told : (rows : List Row) → map (settled inspect) rows ≡ map told_row rows
  settled-told [] = refl
  settled-told (row ∷ rows) =
      ap₂ (λ r l. r ∷ l) (settle-told row (inspect row.agent_id)) (settled-told rows)

  pub count_all-changes :
      (fails : ℕ → Bool) (rows : List Row) (r : ReconcileResult)
      → let c = count_all fails inspect rows r in
        (c.promoted ≡ r.promoted + changes rose rows (map told_row rows))
        × (c.demoted ≡ r.demoted + changes fell rows (map told_row rows))
  unfolding count_all
  count_all-changes fails [] r = (omega arith, omega arith)
  count_all-changes fails (row ∷ rows) r =
      let c = count row (decide row (inspect row.agent_id)) r in
      let (up, down) = count-changes row (inspect row.agent_id) r in
      let (ups, downs) = count_all-changes fails rows c in
      (omega (arith, up, ups), omega (arith, down, downs))

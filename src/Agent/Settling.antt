-- ===== src/Agent/Settling.antt =====
-- When reconciliation may change a recorded status, and that it converges to what the daemon says.
use hill90_app.Prelude.{
  ◌≡◌, ◌≢◌, ◌⊎◌, inl, inr, true, false, Option, none, some, String, arith, eq_iff, str_eq, or_else,
  ap, ◌∙◌, Bool-cases, sym,
}
use hill90_app.Prelude.Exec.{Result, ok, thrown}
use hill90_app.Agent.Reconcile.{
  Row, Container, decide, patch_of, is_running, already_observed_not_running, container_absent,
  unchanged, seen_state,
}
use hill90_app.Agent.Update.{settle}

-- A sighting that is enough to demote: no container, one that reports itself absent, or one that
-- is down while the row already carries an earlier sighting that was not running.
pub data IsConfirmed (row : Row) : Result (Option Container) → Type 0 where
  gone : IsConfirmed row (ok none)
  twice :
      (c : Container)
      → c.status ≢ "running"
      → (c.status ≡ container_absent) ⊎ (already_observed_not_running row ≡ true)
      → IsConfirmed row (ok (some c))

ne_of_str_eq : {a b : String} → str_eq a b ≡ false → a ≢ b
ne_of_str_eq {a} {b} h = ground (arith, eq_iff a b)

-- A running container leaves a row that says so.
settle_up :
    (row : Row) (c : Container)
    → c.status ≡ "running"
    → ((settle row (ok (some c))).status ≡ "running")
      × ((settle row (ok (some c))).container_state ≡ some "running")
unfolding settle decide patch_of is_running
settle_up row c up = ground (
  arith,
  eq_iff row.status "running",
  eq_iff c.status "running",
  eq_iff (or_else row.container_state "") c.status,
)

-- The grace period: a first sighting that is down is only recorded.
settle_grace :
    (row : Row) (c : Container)
    → row.status ≡ "running"
    → already_observed_not_running row ≡ false
    → c.status ≢ "running"
    → c.status ≢ container_absent
    → settle row (ok (some c)) ≡ record row { container_state = some c.status }
unfolding settle decide patch_of is_running
settle_grace row c was fresh down exists = ground (
  arith,
  eq_iff row.status "running",
  eq_iff c.status "running",
  eq_iff c.status container_absent,
)

-- A row recorded as running loses that status only by a confirmed sighting.
pub settle-IsConfirmed :
    (row : Row) (seen : Result (Option Container))
    → row.status ≡ "running"
    → (settle row seen).status ≢ "running"
    → IsConfirmed row seen
unfolding settle decide patch_of
settle-IsConfirmed row (thrown e) was now = ground (arith, eq_iff row.status "running")
settle-IsConfirmed row (ok none) was now = gone
settle-IsConfirmed row (ok (some c)) was now = elim (Bool-cases (str_eq c.status "running")) [
  | inl up ↦ absurd (now (settle_up row c ((eq_iff _ _).0 up)).0)
  | inr down ↦ elim (Bool-cases (str_eq c.status container_absent)) [
    | inl absent ↦ twice c (ne_of_str_eq down) (inl ((eq_iff _ _).0 absent))
    | inr exists ↦ elim (Bool-cases (already_observed_not_running row)) [
      | inl before ↦ twice c (ne_of_str_eq down) (inr before)
      | inr fresh ↦ absurd (
          now (
            ap (λ r. r.status)
              (settle_grace row c was fresh (ne_of_str_eq down) (ne_of_str_eq exists))
            ∙ was))
    ]
  ]
]

-- An inspection that fails changes nothing but the stale observation, which it clears.
settle-thrown :
    (row : Row) (e : String) → settle row (thrown e) ≡ record row { container_state = none }
unfolding settle decide patch_of
settle-thrown row e = ground arith

-- A container that was last seen running, or not seen at all, exits and is up again at the next
-- pass: the agent is still recorded as running, and so is its container.
settle_blip :
    (row : Row) (down up : Container)
    → row.status ≡ "running"
    → already_observed_not_running row ≡ false
    → down.status ≢ "running"
    → down.status ≢ container_absent
    → up.status ≡ "running"
    → let after = settle (settle row (ok (some down))) (ok (some up)) in
      (after.status ≡ "running") × (after.container_state ≡ some "running")
settle_blip row down up was fresh is_down exists is_up =
    rw (settle_grace row down was fresh is_down exists)
      (settle_up (record row { container_state = some down.status }) up is_up)

-- A round that finds nothing to write.
module _ (row : Row) where
  unchanged_up :
      (c : Container)
      → c.status ≡ "running"
      → row.status ≡ "running"
      → row.container_state ≡ some "running"
      → decide row (ok (some c)) ≡ unchanged
  unfolding decide is_running
  unchanged_up c up was same =
      ground
        (arith, eq_iff row.status "running", eq_iff c.status "running", eq_iff "running" c.status)

  unchanged_down :
      (seen : Option Container)
      → is_running seen ≡ false
      → row.status ≢ "running"
      → row.container_state ≡ some (seen_state seen)
      → decide row (ok seen) ≡ unchanged
  unfolding decide
  unchanged_down seen down was same =
      ground (arith, eq_iff row.status "running", eq_iff (seen_state seen) (seen_state seen))

  settle_down :
      (seen : Option Container)
      → is_running seen ≡ false
      → (str_eq row.status "running" ≡ false) ⊎ (already_observed_not_running row ≡ true)
      → ((settle row (ok seen)).status ≢ "running")
        × ((settle row (ok seen)).container_state ≡ some (seen_state seen))
  unfolding settle decide patch_of
  settle_down seen down was = ground (
    arith,
    eq_iff row.status "running",
    eq_iff (or_else row.container_state "") (seen_state seen),
    eq_iff "stopped" "running",
  )

settle_twice_up :
    (row : Row) (seen : Option Container)
    → is_running seen ≡ true
    → let after = settle (settle row (ok seen)) (ok seen) in
      (str_eq after.status "running" ≡ is_running seen) × (decide after (ok seen) ≡ unchanged)
unfolding is_running
settle_twice_up row none up = cc
settle_twice_up row (some c) up =
    let is_up = (eq_iff c.status "running").0 up in
    let (was, same) = settle_up (settle row (ok (some c))) c is_up in
    (
      (eq_iff _ _).1 was ∙ sym up,
      unchanged_up (settle (settle row (ok (some c))) (ok (some c))) c is_up was same,
    )

-- After one round that sees the container down, the row is settled or carries the sighting.
settle_down_once :
    (row : Row) (seen : Option Container)
    → is_running seen ≡ false
    → (str_eq (settle row (ok seen)).status "running" ≡ false)
      ⊎ (already_observed_not_running (settle row (ok seen)) ≡ true)
unfolding settle decide patch_of is_running already_observed_not_running
settle_down_once row none down = ground (arith, eq_iff "stopped" "running")
settle_down_once row (some c) down = ground (arith, eq_iff "stopped" "running")

-- Two rounds that see the same answer of the daemon bring the recorded status to that answer, and
-- a third one writes nothing.
pub settle_twice :
    (row : Row) (seen : Option Container)
    → let after = settle (settle row (ok seen)) (ok seen) in
      (str_eq after.status "running" ≡ is_running seen) × (decide after (ok seen) ≡ unchanged)
settle_twice row seen = elim (Bool-cases (is_running seen)) [
  | inl up ↦ settle_twice_up row seen up
  | inr down ↦
      let once = settle row (ok seen) in
      let (stopped, same) = settle_down once seen down (settle_down_once row seen down) in
      (
        ground (arith, down, eq_iff (settle once (ok seen)).status "running"),
        unchanged_down (settle once (ok seen)) seen down stopped same,
      )
]

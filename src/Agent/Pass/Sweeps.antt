-- ===== src/Agent/Pass/Sweeps.antt =====
-- The two sweeps at the end of a pass: sessions of agents that are down, and expired tokens.
use mathlib.Core.Path.{ap₂}
use hill90_app.Prelude.{
  ℕ, ◌≡◌, ◌≢◌, ◌∙◌, ap, refl, inl, inr, Bool, false, not, ◌&&◌, Option, none, some, List, [], ◌∷◌,
  map, String, arith, str_eq, eq_iff, All, is_some, or_else, Bool-cases, if◌then◌else◌, eq_refl,
}
use hill90_app.Agent.Reconcile.{Row}
use hill90_app.Agent.World.{World, Session}
use hill90_app.Agent.Pass.{
  find_agent, close_for, close_session, close_sessions_for_stopped_agents, expiry_of, set_expiry,
  already_escalated, escalate_expired, escalate_row,
}

module _ (fails : ℕ → Bool) (now : ℕ) where
  -- No session is open whose agent is recorded as anything but running.
  abbrev pub IsSwept : List Row → Session → Type 0
  IsSwept agents s =
      (a : Row) → find_agent s.agent_id agents ≡ some a → a.status ≢ "running" → s.stopped_at ≢ none

  -- A session that the sweep closes ends when Docker says that the container did, and is marked as
  -- an estimate exactly if Docker could not say.
  pub data IsClosed (agents : List Row) (before after : Session) : Type 0 where
    kept : after ≡ before → IsClosed agents before after
    closed :
        (a : Row)
        → find_agent before.agent_id agents ≡ some a
        → a.status ≢ "running"
        → before.stopped_at ≡ none
        → after.stopped_at ≡ some (or_else a.container_finished_at now)
        → after.stopped_at_estimated ≡ not (is_some a.container_finished_at)
        → IsClosed agents before after

  close_for-IsClosed :
      (agents : List Row) (s : Session) (found : Option Row)
      → find_agent s.agent_id agents ≡ found
      → ((close_for fails now found s).agent_id ≡ s.agent_id)
        × IsSwept agents (close_for fails now found s)
        × IsClosed agents s (close_for fails now found s)
        × (close_for fails now found (close_for fails now found s) ≡ close_for fails now found s)
  unfolding close_for
  close_for-IsClosed agents s none e = (refl, λ a here _. cc (here, e), kept refl, refl)
  close_for-IsClosed agents s (some b) e =
      elim (Bool-cases (not (is_some s.stopped_at) && not (str_eq b.status "running"))) [
        | inl shut ↦ rw shut (
          refl,
          λ a here down. cc,
          closed b e (ground (arith, shut, eq_iff b.status "running")) (ground (arith, shut)) refl
              refl,
          refl,
        )
        | inr left ↦ rw left (
          refl,
          λ a here down open_still.
              (let same : b ≡ a = cc (here, e) in
                let b_down : b.status ≢ "running" = rw same down in
                ground (arith, left, eq_iff b.status "running", open_still, b_down)),
          kept refl,
          rw left,
        )
      ]

  abbrev pub Swept : List Row → Session → Type 0
  Swept agents s =
      IsSwept agents (close_session fails now agents s)
      × IsClosed agents s (close_session fails now agents s)

  close_session-Swept : (agents : List Row) (s : Session) → Swept agents s
  unfolding close_session
  close_session-Swept agents s =
      let (same, swept, how, idem) =
        close_for-IsClosed agents s (find_agent s.agent_id agents) refl in
      (swept, how)

  close_session_idem :
      (agents : List Row) (s : Session)
      → close_session fails now agents (close_session fails now agents s)
        ≡ close_session fails now agents s
  unfolding close_session
  close_session_idem agents s =
      let (same, swept, how, idem) =
        close_for-IsClosed agents s (find_agent s.agent_id agents) refl in
      ap
        (λ (k : String).
          close_for fails now (find_agent k agents)
            (close_for fails now (find_agent s.agent_id agents) s))
        same
      ∙ idem

  All-Swept : (agents : List Row) (ss : List Session) → All (Swept agents) ss
  All-Swept agents [] = tt
  All-Swept agents (s ∷ ss) = (close_session-Swept agents s, All-Swept agents ss)

  map-close_session_idem :
      (agents : List Row) (ss : List Session)
      → map (close_session fails now agents) (map (close_session fails now agents) ss)
        ≡ map (close_session fails now agents) ss
  map-close_session_idem agents [] = refl
  map-close_session_idem agents (s ∷ ss) =
      ap₂ (λ (x : Session) (xs : List Session). x ∷ xs) (close_session_idem agents s)
        (map-close_session_idem agents ss)

  -- Where its statement does not fail, the sweep leaves no session open for an agent that is not
  -- recorded as running; it ends exactly the open sessions of such agents, at the instant that
  -- Docker reported or, marked as an estimate, at the present; and a second sweep changes nothing.
  pub close_sessions-Swept :
      (w : World)
      → fails w.queries ≡ false
      → let after = (close_sessions_for_stopped_agents fails now w).sessions in
        (after ≡ map (close_session fails now w.agents) w.sessions)
        × All (Swept w.agents) w.sessions
        × (map (close_session fails now w.agents) after ≡ after)
  unfolding close_sessions_for_stopped_agents
  close_sessions-Swept w works =
      let same : (close_sessions_for_stopped_agents fails now w).sessions
          ≡ map (close_session fails now w.agents) w.sessions =
        ground (arith, works) in
      (same, All-Swept w.agents w.sessions, rw same (map-close_session_idem w.agents w.sessions))

  expiry_of-set_expiry :
      (k j : String) (e : ℕ) (m : List (String × ℕ))
      → expiry_of fails j (set_expiry fails k e m)
        ≡ (if str_eq k j then some e else expiry_of fails j m)
  unfolding expiry_of set_expiry
  expiry_of-set_expiry k j e [] = refl
  expiry_of-set_expiry k j e ((i, d) ∷ m) =
      ground (arith, eq_iff k j, eq_iff i k, eq_iff i j, expiry_of-set_expiry k j e m)

  escalate_expired_idem :
      (row : Row) (exp : ℕ) (w : World)
      → escalate_expired fails now row exp (escalate_expired fails now row exp w)
        ≡ escalate_expired fails now row exp w
  unfolding escalate_expired already_escalated
  escalate_expired_idem row exp w =
      ground (arith, expiry_of-set_expiry row.id row.id exp w.escalated, eq_refl row.id)

  -- An agent whose token has expired is escalated once for that expiry: a second round over the same
  -- row changes nothing, whether or not the first notice could be written.
  pub escalate_row_idem :
      (skip : Row → Bool) (row : Row) (w : World)
      → escalate_row fails now skip row (escalate_row fails now skip row w)
        ≡ escalate_row fails now skip row w
  unfolding escalate_row
  escalate_row_idem skip row w =
      ground (arith, escalate_expired_idem row (or_else row.model_router_exp 0) w)

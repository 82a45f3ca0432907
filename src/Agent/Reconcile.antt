-- ===== src/Agent/Reconcile.antt =====
-- services/api/src/services/docker.ts: `reconcileAgentStatuses`, the decision that it takes for one agent
-- and the loop. `inspectContainer` is a parameter: it throws, finds nothing (a 404), or finds a
-- container.
use hill90_app.Prelude.{
  ℕ, ◌+◌, Bool, true, false, Option, none, some, List, [], ◌∷◌, ◌++◌, String, str_eq, not, ◌&&◌,
  ◌||◌, length, if◌then◌else◌,
}
use hill90_app.Prelude.Exec.{Result, ok, thrown, Exec}

-- A row of `agents`; an instant is a number.
pub record Row : Type 0 where
  pub id : String
  pub agent_id : String
  pub status : String
  pub container_id : Option String
  pub container_state : Option String
  pub created_by : String
  pub error_message : Option String
  pub container_finished_at : Option ℕ
  pub model_router_exp : Option ℕ

-- What `inspectContainer` returns of a container that exists.
pub record Container : Type 0 where
  pub status : String
  pub container_id : String
  pub finished_at : Option ℕ

abbrev pub container_absent : String
container_absent = "absent"

-- The outer option of a field is JavaScript's `undefined`: this patch has no opinion on it.
pub record Patch : Type 0 where
  pub id : String
  pub agent_id : String
  pub created_by : String
  pub previous_status : String
  pub status : String
  pub container_state : Option String
  pub container_id : Option (Option String)
  pub error_message : Option (Option String)
  pub container_finished_at : Option (Option ℕ)

-- A patch that only records what was seen.
observation : Row → Option String → Patch
observation agent seen = record {
  id = agent.id;
  agent_id = agent.agent_id;
  created_by = agent.created_by;
  previous_status = agent.status;
  status = agent.status;
  container_state = seen;
  container_id = none;
  error_message = none;
  container_finished_at = none;
}

-- `state!.containerId`
id_of : Option Container → Option String
id_of none = none
id_of (some c) = some c.container_id

promotion : Row → String → Option Container → Patch
unfolding id_of
promotion agent seen state = record {
  id = agent.id;
  agent_id = agent.agent_id;
  created_by = agent.created_by;
  previous_status = agent.status;
  status = "running";
  container_state = some seen;
  container_id = some (id_of state);
  error_message = some none;
  container_finished_at = some none;
}

-- `state ? Container ${state.status} : 'Container not found'`
message_of : Option Container → String
message_of none = "Container not found"
message_of (some c) = Prim.Native.String.◌++◌ "Container " c.status

finished_of : Option Container → Option ℕ
finished_of none = none
finished_of (some c) = c.finished_at

demotion : Row → String → Option Container → Patch
unfolding message_of finished_of
demotion agent seen state = record {
  id = agent.id;
  agent_id = agent.agent_id;
  created_by = agent.created_by;
  previous_status = agent.status;
  status = "stopped";
  container_state = some seen;
  container_id = some none;
  error_message = some (some (message_of state));
  container_finished_at = some (finished_of state);
}

-- What one round of the loop decides, and how it is counted.
pub data Decision : Type 0 where
  unverified : Option Patch → Decision
  promoted demoted observed : Patch → Decision
  unchanged : Decision

unfoldable pub seen_state : Option Container → String
seen_state none = container_absent
seen_state (some c) = c.status

unfoldable pub is_running : Option Container → Bool
is_running none = false
is_running (some c) = str_eq c.status "running"

-- `agent.container_state !== null && agent.container_state !== 'running'`
unfoldable pub already_observed_not_running : Row → Bool
already_observed_not_running agent = elim agent.container_state [
  | none ↦ false
  | some s ↦ not (str_eq s "running")
]

-- `agent.container_state !== containerState`
differs : Option String → String → Bool
differs none seen = true
differs (some s) seen = not (str_eq s seen)

decide_inspected : Row → Option Container → Decision
unfolding is_running already_observed_not_running seen_state differs observation promotion demotion
decide_inspected agent state =
    let seen = seen_state state in
    let running = is_running state in
    let confirmed_down = str_eq seen container_absent || already_observed_not_running agent in
    if running && not (str_eq agent.status "running")
    then promoted (promotion agent seen state)
    else if not running && str_eq agent.status "running" && confirmed_down
    then demoted (demotion agent seen state)
    else if not running && str_eq agent.status "running"
    then observed (observation agent (some seen))
    else if differs agent.container_state seen
    then observed (observation agent (some seen))
    else unchanged

unfoldable pub decide : Row → Result (Option Container) → Decision
unfolding decide_inspected observation
decide agent (thrown e) =
    unverified (elim agent.container_state [ none ↦ none | some _ ↦ some (observation agent none) ])
decide agent (ok state) = decide_inspected agent state

pub record ReconcileResult : Type 0 where
  pub checked : ℕ
  pub reconciled : ℕ
  pub promoted : ℕ
  pub demoted : ℕ
  pub unverified : List String

unfoldable pub patch_of : Decision → Option Patch
patch_of (unverified p) = p
patch_of (promoted p) = some p
patch_of (demoted p) = some p
patch_of (observed p) = some p
patch_of unchanged = none

-- The counters after a round; a round that throws never gets here, but the agent of an inspection
-- that threw is listed before its patch is applied.
unfoldable pub count : Row → Decision → ReconcileResult → ReconcileResult
count agent (unverified p) r = record r { unverified = r.unverified ++ agent.agent_id ∷ [] }
count agent (promoted p) r = record r { promoted = r.promoted + 1; reconciled = r.reconciled + 1 }
count agent (demoted p) r = record r { demoted = r.demoted + 1; reconciled = r.reconciled + 1 }
count agent (observed p) r = r
count agent unchanged r = r

module _ {S : Type 0} (inspect : String → Result (Option Container))
    (apply_patch : Patch → Exec S (Unit {0})) where
  unfoldable pub apply_decision : Decision → Exec S (Unit {0})
  unfolding patch_of
  apply_decision d s = elim (patch_of d) [ none ↦ (ok tt, s) | some p ↦ apply_patch p s ]

  -- The loop over the agents. A patch that throws ends it.
  unfoldable pub reconcile_all : List Row → ReconcileResult → Exec S ReconcileResult
  unfolding apply_decision decide count
  reconcile_all [] r s = (ok r, s)
  reconcile_all (agent ∷ agents) r s =
      let d = decide agent (inspect agent.agent_id) in
      let (outcome, s') = apply_decision d s in
      let later = reconcile_all agents (count agent d r) s' in
      elim outcome [ thrown e ↦ (thrown e, s') | ok _ ↦ later ]

  unfoldable pub reconcile_agent_statuses : List Row → Exec S ReconcileResult
  unfolding reconcile_all
  reconcile_agent_statuses agents = reconcile_all agents (record {
    checked = length agents;
    reconciled = 0;
    promoted = 0;
    demoted = 0;
    unverified = [];
  })

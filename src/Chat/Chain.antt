-- ===== src/Chat/Chain.antt =====
-- services/api/src/routes/chat.ts, the end of `chatCallbackHandler`: the agents that a finished message mentions
-- are dispatched to, in a chain with a budget of hops and of time.
pub mod Rows
pub mod Chosen
pub mod Fresh
use hill90_app.Chat.Store.{
  skip, when, log, draw_id, pure, ◌>>=◌, ◌>>◌, Role, ThreadType, Message, Thread, Agent, Store,
  Work, pending, complete, by_agent, is_group, same_status, statement, select, find_message,
  find_thread, find_agent, thread_agents, has_pending, agent_elevated_scope, agent_to_agent_blocked,
  agent_to_agent_dispatch,
}
use hill90_app.Chat.Dispatch.{Answer, DispatchOptions, dispatch_to_agents, named}
use hill90_app.Chat.Mentions.{parse_mentions}
use hill90_app.Chat.Routing.{resolve_agent_slugs, history_of}
use hill90_app.Chat.Threads.{has_token, is_empty}
use hill90_app.Prelude.{
  given, ◌&&◌, none, List, ◌+◌, ◌∷◌, any, or_else, ◌||◌, if◌then◌else◌, ℕ, String, some, str_eq,
  is_some, min, false, ◌==◌, ◌-◌, Bool, map, leb, not, Option, [],
}
use hill90_app.Prelude.Text.{Text}
use hill90_app.Prelude.Exec.{Exec, Result}

-- The environment; an empty variable is `none`.
pub record Config : Type 0 where
  pub callback_token : Option Text
  pub journal : Bool
  pub default_model : Text
  pub max_chain_hops : ℕ
  pub max_chain_duration_ms : ℕ

in_chain : ℕ → Message → Bool
in_chain chain m = elim m.chain_id [ none ↦ false | some c ↦ c == chain ]

-- `MIN(created_at)`
chain_start : ℕ → List Message → Option ℕ
unfolding in_chain
chain_start chain [] = none
chain_start chain (m ∷ ms) =
    let later = chain_start chain ms in
    if in_chain chain m
    then some (elim later [ none ↦ m.created_at | some t ↦ min m.created_at t ])
    else later

-- The agent has a complete or pending message in the chain.
pub takes_part : ℕ → List Message → String → Bool
unfolding in_chain
takes_part chain ms uuid =
    any
      (λ m.
        in_chain chain m
        && by_agent m.author_type
        && (same_status m.status complete || same_status m.status pending)
        && str_eq m.author_id uuid)
      ms

thread_type : Option Thread → Option ThreadType
thread_type none = none
thread_type (some t) = some t.type

-- `xs.filter(p)`
unfoldable pub keep_if : (String → Bool) → List String → List String
keep_if p [] = []
keep_if p (x ∷ xs) = let rest = keep_if p xs in if p x then x ∷ rest else rest

-- What the orchestration has found: the message that mentions, its chain and the hop to come.
pub record Trigger : Type 0 where
  pub message_id : ℕ
  pub thread_id : String
  pub author_id : String
  pub chain_id : ℕ
  pub hop : ℕ

-- `SELECT thread_id, author_id, chain_id, chain_hop`
backfill : ℕ → ℕ → List Message → List Message
backfill id chain [] = []
backfill id chain (m ∷ ms) =
    (if m.id == id && not (is_some m.chain_id)
      then record m { chain_id = some chain; chain_hop = some 0 }
      else m)
    ∷ backfill id chain ms

module _ (config : Config) (fails : ℕ → Bool) (fetch : Work → Result Answer) (now : ℕ) where
  unfoldable pub elevated_scope : String → Exec Store (Option String)
  unfolding agent_elevated_scope
  elevated_scope uuid = select fails (λ s. agent_elevated_scope uuid s.skills)

  -- An agent is taken if it runs, has a token and has no pending message in the thread.
  pub idle_agent : Trigger → Agent → Exec Store (Option Agent)
  unfolding has_pending has_token
  idle_agent trig a =
      if str_eq a.status "running" && has_token a.work_token
      then (do
        busy ← select fails (λ s. has_pending trig.thread_id a.id s.messages)
        pure (if busy then none else some a))
      else pure none

  pub known_agent : Trigger → String → Exec Store (Option Agent)
  unfolding find_agent
  known_agent trig uuid = do
    found ← select fails (λ s. find_agent uuid s.agents)
    given found (pure none) (idle_agent trig)

  -- One of the mentioned agents: agents cannot dispatch to an agent with an elevated scope.
  pub eligible : Trigger → String → Exec Store (Option Agent)
  eligible trig uuid = do
    scope ← elevated_scope uuid
    given scope (known_agent trig uuid)
        (λ sc. do log (agent_to_agent_blocked uuid trig.author_id sc); pure none)

  pub eligible_agents : Trigger → List String → Exec Store (List Agent)
  eligible_agents trig [] = pure []
  eligible_agents trig (uuid ∷ uuids) = do
    first ← eligible trig uuid
    later ← eligible_agents trig uuids
    pure (given first later (λ a. a ∷ later))

  -- The names of the thread's agents, for a group.
  names_of : String → List String → List Agent → List (Text × Text)
  unfolding find_agent
  names_of thread_id [] agents = []
  names_of thread_id (uuid ∷ uuids) agents =
      let later = names_of thread_id uuids agents in
      elim (find_agent uuid agents) [ none ↦ later | some a ↦ named a ∷ later ]

  chain_names : String → Option ThreadType → Exec Store (List (Text × Text))
  unfolding names_of thread_agents
  chain_names thread_id type =
      if (elim type [ none ↦ false | some t ↦ is_group t ])
      then select fails (λ s. names_of thread_id (thread_agents thread_id s.participants) s.agents)
      else pure []

  log_dispatched : Trigger → List (String × ℕ) → Exec Store (Unit {0})
  log_dispatched trig [] = skip
  log_dispatched trig ((uuid, id) ∷ rest) = do
    log (agent_to_agent_dispatch uuid trig.author_id trig.chain_id trig.hop)
    log_dispatched trig rest

  pub chain_options :
      Trigger
      → List Agent
      → List (Role × Text)
      → Option ThreadType
      → List (Text × Text)
      → DispatchOptions
  chain_options trig agents history type names = record {
    thread_id = trig.thread_id;
    agents = agents;
    reply_to = trig.message_id;
    history = history;
    chain_id = some trig.chain_id;
    chain_hop = some trig.hop;
    triggered_by = some trig.message_id;
    thread_type = type;
    participants = names;
    lead_agent_id = none;
  }

  pub dispatch_chain : Trigger → List Agent → Exec Store (Unit {0})
  unfolding history_of find_thread chain_options dispatch_to_agents ◌>>=◌ skip
  dispatch_chain trig [] = skip
  dispatch_chain trig (a ∷ agents) = do
    history ← select fails (λ s. history_of trig.thread_id s.messages)
    type ← select fails (λ s. thread_type (find_thread trig.thread_id s.threads))
    names ← chain_names trig.thread_id type
    d ←
        dispatch_to_agents fails fetch config.callback_token config.default_model now
          (chain_options trig (a ∷ agents) history type names)
    log_dispatched trig d.dispatched

  -- The agents that the chain has not seen.
  pub extend_chain : Trigger → List String → Exec Store (Unit {0})
  unfolding takes_part keep_if
  extend_chain trig targets = do
    seen ← select fails (λ s. takes_part trig.chain_id s.messages)
    agents ← eligible_agents trig (keep_if (λ uuid. not (seen uuid)) targets)
    dispatch_chain trig agents

  -- The budgets of hops and of time.
  pub continue_chain : Trigger → List String → Exec Store (Unit {0})
  unfolding chain_start
  continue_chain trig targets = when (leb trig.hop config.max_chain_hops) (do
    start ← select fails (λ s. chain_start trig.chain_id s.messages)
    when (leb (now - or_else start now) config.max_chain_duration_ms) (extend_chain trig targets))

  -- A new chain, which the message begins.
  begin_chain : ℕ → Exec Store ℕ
  unfolding backfill
  begin_chain id = do
    chain ← draw_id
    statement fails (λ s. (chain, record s { messages = backfill id chain s.messages }))

  -- The chain of the message: its own, or a new one.
  chain_of : Message → Exec Store ℕ
  chain_of m = given m.chain_id (begin_chain m.id) pure

  pub trigger_of : Message → ℕ → Trigger
  trigger_of m chain = record {
    message_id = m.id;
    thread_id = m.thread_id;
    author_id = m.author_id;
    chain_id = chain;
    hop = or_else m.chain_hop 0 + 1;
  }

  pub start_chain : Message → List String → Exec Store (Unit {0})
  unfolding trigger_of
  start_chain m targets = do chain ← chain_of m; continue_chain (trigger_of m chain) targets

  -- A message that mentions its own author alone begins no chain.
  pub orchestrate_message : List Text → Message → Exec Store (Unit {0})
  unfolding resolve_agent_slugs thread_agents keep_if is_empty
  orchestrate_message slugs m = do
    resolved ←
        select fails
          (λ s. resolve_agent_slugs slugs (thread_agents m.thread_id s.participants) s.agents)
    let targets =
        keep_if (λ uuid. not (str_eq uuid m.author_id)) (map (λ (r : Text × String). r.1) resolved)
    when (not (is_empty targets)) (start_chain m targets)

  pub orchestrate : ℕ → Text → Exec Store (Unit {0})
  unfolding find_message parse_mentions is_empty
  orchestrate id content =
      let slugs = (parse_mentions content).slugs in
      when (not (is_empty slugs)) (do
        found ← select fails (λ s. find_message id s.messages)
        given found skip (orchestrate_message slugs))

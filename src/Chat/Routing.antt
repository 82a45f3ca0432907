-- ===== src/Chat/Routing.antt =====
-- services/api/src/routes/chat.ts, POST /threads/:id/messages: which agents take a message, and the history
-- that goes with it.
pub mod Rows
use hill90_app.Chat.Store.{
  log, pure, ◌>>=◌, ◌>>◌, Role, Message, Thread, Agent, Store, complete, same_status,
  chat_elevated_denied, select, find_agent, thread_agents, has_pending, agent_elevated_scope,
}
use hill90_app.Prelude.{
  given, is_some, not, or_else, if◌then◌else◌, some, map, length, drop, List, ◌∷◌, Option, ◌&&◌,
  false, none, leb, ℕ, String, Bool, str_eq, ◌-◌, any, [],
}
use hill90_app.Prelude.Exec.{Exec}
use hill90_app.Prelude.Text.{includes, text_eq, Text}
use hill90_app.Chat.Threads.{refused, Reply, has_token, Caller}

-- The rows that `resolveAgentSlugs` reads: the agents of the thread that one of the slugs names.
unfoldable pub resolve_agent_slugs : List Text → List String → List Agent → List (Text × String)
resolve_agent_slugs slugs [] agents = []
resolve_agent_slugs slugs (uuid ∷ uuids) agents =
    let later = resolve_agent_slugs slugs uuids agents in
    elim (find_agent uuid agents) [
      | none ↦ later
      | some a ↦ if includes slugs a.agent_id then (a.agent_id, a.id) ∷ later else later
    ]

-- The first slug that names no agent of the thread.
unfoldable pub unknown_slug : List Text → List (Text × String) → Option Text
unknown_slug [] resolved = none
unknown_slug (slug ∷ slugs) resolved =
    let later = unknown_slug slugs resolved in
    if any (λ r. text_eq r.0 slug) resolved then later else some slug

abbrev pub max_agents_per_group : ℕ
max_agents_per_group = 8

abbrev pub message_history_limit : ℕ
message_history_limit = 50

-- `ORDER BY seq`
insert_by_seq : Message → List Message → List Message
insert_by_seq m [] = m ∷ []
insert_by_seq m (n ∷ ns) =
    let later = n ∷ insert_by_seq m ns in if leb m.seq n.seq then m ∷ n ∷ ns else later

by_seq : List Message → List Message
unfolding insert_by_seq
by_seq [] = []
by_seq (m ∷ ms) = insert_by_seq m (by_seq ms)

complete_of : String → List Message → List (Role × Text)
complete_of thread_id [] = []
complete_of thread_id (m ∷ ms) =
    let later = complete_of thread_id ms in
    if str_eq m.thread_id thread_id && same_status m.status complete
    then (m.role, m.content) ∷ later
    else later

-- The history that goes with a dispatch: the newest complete messages of the thread, oldest first.
unfoldable pub history_of : String → List Message → List (Role × Text)
unfolding by_seq complete_of
history_of thread_id ms =
    let rows = complete_of thread_id (by_seq ms) in drop (length rows - message_history_limit) rows

-- The agents that take the message, and those that are skipped, with the reason.
pub record Classified : Type 0 where
  pub dispatchable : List Agent
  pub skipped : List (String × String)

skip_agent : Agent → String → Classified → Classified
skip_agent a reason c = record c { skipped = (a.id, reason) ∷ c.skipped }

take_agent : Agent → Classified → Classified
take_agent a c = record c { dispatchable = a ∷ c.dispatchable }

is_ready : Agent → Bool
unfolding has_token
is_ready a = str_eq a.status "running" && has_token a.work_token

classified : Agent → Bool → Classified → Classified
unfolding is_ready skip_agent take_agent
classified a busy later =
    if not (is_ready a)
    then skip_agent a "not_running" later
    else if busy
    then skip_agent a "has_pending" later
    else take_agent a later

module _ (fails : ℕ → Bool) where
  -- `getAgentForDispatch` for each, those that are there.
  unfoldable pub load_agents : List String → Exec Store (List Agent)
  unfolding find_agent
  load_agents [] = pure []
  load_agents (uuid ∷ uuids) = do
    found ← select fails (λ s. find_agent uuid s.agents)
    later ← load_agents uuids
    pure (given found later (λ a. a ∷ later))

  -- The first agent with an elevated scope, for a caller that is no admin.
  unfoldable pub elevated_denied : Caller → List Agent → Exec Store (Option Reply)
  unfolding agent_elevated_scope
  elevated_denied caller [] = pure none
  elevated_denied caller (a ∷ rest) = do
    scope ← select fails (λ s. agent_elevated_scope a.id s.skills)
    if is_some scope && not caller.admin
        then (do
          log (chat_elevated_denied a.agent_id caller.sub (or_else scope ""))
          pure (some (refused 403 "Elevated agent requires admin privileges")))
        else elevated_denied caller rest

  -- An agent that is not ready is not asked for.
  pub is_busy : String → Agent → Exec Store Bool
  unfolding has_pending is_ready
  is_busy thread_id a =
      if is_ready a then select fails (λ s. has_pending thread_id a.id s.messages) else pure false

  unfoldable pub classify : String → List Agent → Exec Store Classified
  unfolding classified
  classify thread_id [] = pure (record { dispatchable = []; skipped = [] })
  classify thread_id (a ∷ rest) = do
    busy ← is_busy thread_id a
    later ← classify thread_id rest
    pure (classified a busy later)

  -- The agents that are to take the message; none where a name is unknown.
  unfoldable pub targets_of : Thread → List Text → List String → Exec Store (Option (List String))
  unfolding resolve_agent_slugs unknown_slug
  targets_of thread [] everyone = pure (some everyone)
  targets_of thread (slug ∷ slugs) everyone = do
    resolved ←
        select fails (λ s.
          resolve_agent_slugs (slug ∷ slugs) (thread_agents thread.id s.participants) s.agents)
    pure (
        given (unknown_slug (slug ∷ slugs) resolved)
          (some (map (λ (r : Text × String). r.1) resolved)) (λ _. none))

-- ===== src/Chat/Membership.antt =====
-- services/api/src/routes/chat.ts, PUT /threads/:id/participants: agents join a thread and leave it.
pub mod Rows
use hill90_app.Chat.Store.{
  skip, when, log, pure, ◌>>=◌, ◌>>◌, Thread, Participant, Store, agent, group, pending, by_agent,
  same_status, statement, select, update_messages, update_thread, thread_agents,
  agent_elevated_scope, chat_elevated_denied,
}
use hill90_app.Chat.Dispatch.{fail_with}
use hill90_app.Chat.Threads.{Reply, Caller, refused, participants, owner_row, allowed, answer}
use hill90_app.Chat.Routing.{max_agents_per_group}
use hill90_app.Prelude.{
  given, is_some, not, false, if◌then◌else◌, some, none, ◌+◌, String, ltb, any, Option, List,
  length, ◌&&◌, ℕ, [], ◌∷◌, str_eq, Bool, or_else,
}
use hill90_app.Prelude.Exec.{Exec}
use hill90_app.Prelude.Text.{codes}

-- The two lists of the body; one that is absent or no array is `none`.
pub record Changes : Type 0 where
  pub add : Option (List String)
  pub remove : Option (List String)

unfoldable pub in_list : String → List String → Bool
in_list id ids = any (λ i. str_eq i id) ids

-- How many of the agents to add are not in the thread; one that is named twice counts twice.
unfoldable pub count_new : List String → List String → ℕ
unfolding in_list
count_new current [] = 0
count_new current (id ∷ ids) = (if in_list id current then 0 else 1) + count_new current ids

is_row : String → String → Participant → Bool
is_row thread_id uuid p =
    str_eq p.thread_id thread_id && str_eq p.participant_id uuid && by_agent p.participant_type

-- `ON CONFLICT … DO UPDATE SET left_at = NULL`
rejoin : String → String → List Participant → List Participant
unfolding is_row
rejoin thread_id uuid [] =
    record {
      thread_id = thread_id;
      participant_id = uuid;
      participant_type = agent;
      is_owner = false;
      left_at = none;
    }
    ∷ []
rejoin thread_id uuid (p ∷ ps) =
    let later = p ∷ rejoin thread_id uuid ps in
    if is_row thread_id uuid p then record p { left_at = none } ∷ ps else later

leave : String → String → ℕ → List Participant → List Participant
unfolding is_row
leave thread_id uuid now [] = []
leave thread_id uuid now (p ∷ ps) =
    (if is_row thread_id uuid p then record p { left_at = some now } else p)
    ∷ leave thread_id uuid now ps

promote : Thread → Thread
promote t = record t { type = group }

module _ (fails : ℕ → Bool) (now : ℕ) where
  -- The first agent with an elevated scope, for a caller that is no admin.
  denied : Caller → List String → Exec Store (Option Reply)
  unfolding agent_elevated_scope
  denied caller [] = pure none
  denied caller (uuid ∷ uuids) = do
    scope ← select fails (λ s. agent_elevated_scope uuid s.skills)
    if is_some scope && not caller.admin
        then (do
          log (chat_elevated_denied (codes uuid) caller.sub (or_else scope ""))
          pure (some (refused 403 "Elevated agent requires admin privileges")))
        else denied caller uuids

  insert_all : String → List String → Exec Store (Unit {0})
  unfolding rejoin
  insert_all thread_id [] = skip
  insert_all thread_id (uuid ∷ uuids) = do
    statement fails (λ s. (tt, record s { participants = rejoin thread_id uuid s.participants }))
    insert_all thread_id uuids

  -- A direct thread with more than one agent becomes a group.
  promote_thread : String → Exec Store (Unit {0})
  unfolding thread_agents update_thread promote
  promote_thread thread_id = do
    agents ← select fails (λ s. thread_agents thread_id s.participants)
    when (ltb 1 (length agents)) (
        statement fails
          (λ s. (tt, record s { threads = update_thread thread_id promote s.threads })))

  add_agents : String → Caller → List String → Exec Store (Option Reply)
  unfolding count_new thread_agents
  add_agents thread_id caller ids = do
    current ← select fails (λ s. thread_agents thread_id s.participants)
    if ltb max_agents_per_group (length current + count_new current ids)
        then pure (some (refused 400 "Maximum 8 agents per group thread"))
        else (do
          refusal ← denied caller ids
          given refusal (do insert_all thread_id ids; promote_thread thread_id; pure none)
              (λ reply. pure (some reply)))

  remove_agents : String → List String → Exec Store (Unit {0})
  unfolding update_messages fail_with leave
  remove_agents thread_id [] = skip
  remove_agents thread_id (uuid ∷ uuids) = do
    statement fails (
        update_messages
          (λ m.
            str_eq m.thread_id thread_id
            && str_eq m.author_id uuid
            && by_agent m.author_type
            && same_status m.status pending)
          (fail_with (codes "Agent removed from thread")))
    statement fails (λ s. (tt, record s { participants = leave thread_id uuid now s.participants }))
    remove_agents thread_id uuids

  of_thread : String → List Participant → List Participant
  of_thread thread_id [] = []
  of_thread thread_id (p ∷ ps) =
      let later = of_thread thread_id ps in
      if str_eq p.thread_id thread_id then p ∷ later else later

  change_members : String → Caller → Changes → Exec Store Reply
  unfolding of_thread
  change_members thread_id caller changes = do
    refusal ← given changes.add (pure none) (add_agents thread_id caller)
    given refusal
        (do
          remove_agents thread_id (or_else changes.remove [])
          rows ← select fails (λ s. of_thread thread_id s.participants)
          pure (participants rows))
        pure

  -- PUT /threads/:id/participants
  pub update_participants : String → Caller → Changes → Exec Store Reply
  unfolding owner_row
  update_participants thread_id caller changes = answer fails "Failed to update participants" (do
    owner ← allowed fails (owner_row thread_id caller) caller
    if owner
        then change_members thread_id caller changes
        else pure (refused 404 "Thread not found"))

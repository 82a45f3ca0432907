-- ===== src/Chat/Send.antt =====
-- services/api/src/routes/chat.ts, POST /threads/:id/messages, cut at its early returns.
pub mod Rows
pub mod Lead
use hill90_app.Chat.Store.{
  pure, ◌>>=◌, ◌>>◌, Role, ThreadType, Message, Thread, Agent, Store, Work, human, user, complete,
  direct, group, is_group, statement, select, insert_message, find_thread, update_thread,
  thread_agents,
}
use hill90_app.Chat.Dispatch.{DispatchOptions, Answer, dispatch_to_agents, named}
use hill90_app.Chat.Mentions.{parse_mentions}
use hill90_app.Prelude.{
  given, suc, if◌then◌else◌, some, map, List, ◌∷◌, Option, ◌&&◌, false, none, ℕ, String, is_some,
  not, or_else, Bool, str_eq, any, [],
}
use hill90_app.Prelude.Exec.{Exec, ok, Result, thrown}
use hill90_app.Prelude.Text.{trim, text_eq, Text}
use hill90_app.Chat.Threads.{
  refused, is_empty, sent, Reply, participant_row, allowed, answer, Caller,
}
use hill90_app.Chat.Routing.{
  classify, Classified, elevated_denied, history_of, targets_of, load_agents,
}

-- The request's fields, where they have their types; a key that is empty is `none`.
pub record SendRequest : Type 0 where
  pub message : Option Text
  pub idempotency_key : Option Text

unfoldable pub user_row :
    String → String → SendRequest → Text → Option (List String) → ℕ → ℕ → ℕ → Message
user_row thread_id sub req content targets now id seq = record {
  id = id;
  seq = seq;
  thread_id = thread_id;
  author_id = sub;
  author_type = human;
  role = user;
  content = content;
  status = complete;
  reply_to = none;
  model = none;
  input_tokens = none;
  output_tokens = none;
  duration_ms = none;
  error_message = none;
  idempotency_key = req.idempotency_key;
  target_agents = targets;
  chain_id = none;
  chain_hop = none;
  triggered_by = none;
  batch_complete = false;
  created_at = now;
  updated_at = now;
}

-- `idx_chat_messages_idempotency`: an author uses a key once in a thread.
unfoldable pub key_taken : String → String → Option Text → List Message → Bool
key_taken thread_id sub none ms = false
key_taken thread_id sub (some key) ms =
    any
      (λ m.
        str_eq m.thread_id thread_id
        && str_eq m.author_id sub
        && (elim m.idempotency_key [ none ↦ false | some k ↦ text_eq k key ]))
      ms

-- The end of a transaction: an error gives the rows back.
end_transaction : {A : Type 0} → Store → Result A × Store → Result A × Store
end_transaction s (ok a, t) = (ok a, t)
end_transaction s (thrown e, t) =
    (thrown e, record t { messages = s.messages; threads = s.threads })

unavailable : ThreadType → List (String × String) → Reply
unavailable group skipped =
    refused 409 "No agents available for dispatch (all pending or not running)"
unavailable direct [] = refused 409 "Agent is not running"
unavailable direct ((id, reason) ∷ rest) =
    if str_eq reason "has_pending"
    then refused 409 "Agent is still responding to a previous message"
    else refused 409 "Agent is not running"

unfoldable pub only_lead : Option String → List Agent → List Agent
only_lead none agents = agents
only_lead (some lead) [] = []
only_lead (some lead) (a ∷ rest) =
    let later = only_lead (some lead) rest in if str_eq a.id lead then a ∷ later else later

send_options :
    Thread → ℕ × ℕ → List (Role × Text) → List (Text × Text) → List Agent → DispatchOptions
send_options thread msg history names agents = record {
  thread_id = thread.id;
  agents = agents;
  reply_to = msg.0;
  history = history;
  chain_id = none;
  chain_hop = none;
  triggered_by = none;
  thread_type = some thread.type;
  participants = names;
  lead_agent_id = thread.lead_agent_id;
}

module _ (fails : ℕ → Bool) (fetch : Work → Result Answer) (callback_token : Option Text)
    (default_model : Text) (now : ℕ) where
  insert_user_message :
      String → Caller → SendRequest → Text → Option (List String) → Exec Store (ℕ × ℕ)
  unfolding insert_message key_taken user_row
  insert_user_message thread_id caller req content targets s =
      if key_taken thread_id caller.sub req.idempotency_key s.messages
      then (thrown "idempotency", record s { queries = suc s.queries })
      else statement fails (insert_message (user_row thread_id caller.sub req content targets now))
          s

  touch_thread : String → Exec Store (Unit {0})
  unfolding update_thread
  touch_thread thread_id = statement fails (λ s. (
    tt,
    record s { threads = update_thread thread_id (λ t. record t { updated_at = now }) s.threads },
  ))

  -- The transaction.
  store_user_message :
      String → Caller → SendRequest → Text → Option (List String) → Exec Store (ℕ × ℕ)
  unfolding end_transaction
  store_user_message thread_id caller req content targets s = end_transaction s (
      (do
        msg ← insert_user_message thread_id caller req content targets
        touch_thread thread_id
        pure msg)
        s)

  dispatch_message :
      Thread
      → ℕ × ℕ
      → List (Role × Text)
      → List (Text × Text)
      → List Agent
      → List (String × String)
      → Exec Store Reply
  dispatch_message thread msg history names agents skipped = do
    d ←
        dispatch_to_agents fails fetch callback_token default_model now
          (send_options thread msg history names agents)
    pure (sent msg d.dispatched skipped d.failed)

  -- What follows the transaction. The names of the other agents are loaded for a group only.
  dispatch_stored : Thread → List String → Classified → ℕ × ℕ → Exec Store Reply
  unfolding history_of only_lead
  dispatch_stored thread everyone c msg = do
    history ← select fails (λ s. history_of thread.id s.messages)
    infos ← (if is_group thread.type then load_agents fails everyone else pure [])
    if is_some thread.lead_agent_id && is_empty (only_lead thread.lead_agent_id c.dispatchable)
        then pure (refused 409 "Lead agent is not running or has a pending response")
        else dispatch_message thread msg history (map named infos)
            (only_lead thread.lead_agent_id c.dispatchable) c.skipped

  -- From the classification on.
  pub send_classified :
      Thread
      → Caller
      → SendRequest
      → Text
      → List String
      → Option (List String)
      → Classified
      → Exec Store Reply
  unfolding unavailable
  send_classified thread caller req content everyone targets c =
      if is_empty c.dispatchable then pure (unavailable thread.type c.skipped) else (do
        msg ← store_user_message thread.id caller req content targets
        dispatch_stored thread everyone c msg)

  send_targeted :
      Thread
      → Caller
      → SendRequest
      → Text
      → List String
      → Option (List String)
      → List String
      → Exec Store Reply
  send_targeted thread caller req content everyone targets uuids = do
    agents ← load_agents fails uuids
    if is_empty agents then pure (refused 400 "No available agents") else (do
      denied ← elevated_denied fails caller agents
      given denied
          (do
            c ← classify fails thread.id agents
            send_classified thread caller req content everyone targets c)
          pure)

  send_in_thread : Caller → SendRequest → Text → Thread → Exec Store Reply
  unfolding thread_agents parse_mentions
  send_in_thread caller req content thread = do
    everyone ← select fails (λ s. thread_agents thread.id s.participants)
    if is_empty everyone then pure (refused 400 "No agent participant found in thread") else (do
      targets ← targets_of fails thread (parse_mentions content).slugs everyone
      given targets (pure (refused 400 "Unknown agent")) (λ uuids.
          send_targeted thread caller req content everyone
            (if is_empty (parse_mentions content).slugs then none else some uuids) uuids))

  send_checked : String → Caller → SendRequest → Text → Exec Store Reply
  unfolding find_thread
  send_checked thread_id caller req content = do
    found ← select fails (λ s. find_thread thread_id s.threads)
    given found (pure (refused 404 "Thread not found")) (send_in_thread caller req content)

  send_authorised : String → Caller → SendRequest → Exec Store Reply
  unfolding participant_row
  send_authorised thread_id caller req = do
    found ← allowed fails (participant_row thread_id caller) caller
    if not found
        then pure (refused 404 "Thread not found")
        else if is_empty (trim (or_else req.message []))
        then pure (refused 400 "message is required and must be a non-empty string")
        else send_checked thread_id caller req (trim (or_else req.message []))

  -- POST /threads/:id/messages
  pub send_message : String → Caller → SendRequest → Exec Store Reply
  send_message thread_id caller req =
      answer fails "Failed to send message" (send_authorised thread_id caller req)

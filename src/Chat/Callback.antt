-- ===== src/Chat/Callback.antt =====
-- services/api/src/routes/chat.ts, `chatCallbackHandler`: what an agent reports about its message, and the
-- dispatch to the agents that it mentions. Cut at its early returns, with each `try` a function of its own.
-- A field of the body is a value of its type or absent, and an empty string or zero is as absent as
-- in the code. `thrown` is a rejected promise.
pub mod Rows
pub mod Inert
use hill90_app.Chat.Store.{
  Agent, JournalEntry, skip, when, log, attempt, pure, ◌>>=◌, ◌>>◌, Status, Message, Thread, Store,
  Work, thinking, complete, error, by_agent, is_group, is_open, same_status, statement, select,
  update_messages, find_message, find_thread, update_thread, find_agent, elevated_agent_response,
}
use hill90_app.Chat.Dispatch.{Answer}
use hill90_app.Chat.Threads.{is_empty}
use hill90_app.Access.Auth.{bearer}
use hill90_app.Prelude.{
  given, true, all, ◌&&◌, none, List, ◌+◌, ◌∷◌, any, or_else, ◌||◌, if◌then◌else◌, drop, ℕ, zero,
  take, String, ◌++◌, some, str_eq, ltb, is_some, false, ◌==◌, Bool, not, Option, length, suc, [],
}
use hill90_app.Prelude.Text.{text_eq, starts_with, trim, Text}
use hill90_app.Prelude.Exec.{Exec, ok, Result}
use hill90_app.Chat.Store.{skip, when, log, attempt}
use hill90_app.Chat.Chain.{Config, elevated_scope, orchestrate}

pub data Reply : Type 0 where
  refused : ℕ → String → Reply
  updated : Bool → Reply

pub record Body : Type 0 where
  pub message_id : Option ℕ
  pub content : Text
  pub model : Option Text
  pub input_tokens : Option ℕ
  pub output_tokens : Option ℕ
  pub duration_ms : Option ℕ
  pub status : Option String
  pub error_message : Option Text
  pub idempotency_key : Option Text

pub record Request : Type 0 where
  pub authorization : Option Text
  pub body : Body

-- `x || null`
present : Option Text → Option Text
present none = none
present (some []) = none
present (some (c ∷ s)) = some (c ∷ s)

positive : Option ℕ → Option ℕ
positive none = none
positive (some zero) = none
positive (some (suc n)) = some (suc n)

-- The bearer token is the configured one.
unfoldable pub is_authorized : Text → Option Text → Bool
is_authorized token none = false
is_authorized token (some header) =
    starts_with header bearer && text_eq token (drop (length bearer) header)

is_status : String → Option String → Bool
is_status name none = false
is_status name (some s) = str_eq s name

-- `WHERE id = $1 AND status IN ('pending', 'thinking')`
unfoldable pub open_message : ℕ → Message → Bool
open_message id m = m.id == id && is_open m.status

-- The columns that both kinds of update set.
reported : Body → ℕ → Message → Message
unfolding present positive
reported body now m = record m {
  content = body.content;
  model = present body.model;
  input_tokens = positive body.input_tokens;
  output_tokens = positive body.output_tokens;
  duration_ms = positive body.duration_ms;
  updated_at = now;
}

pub as_thinking : Body → ℕ → Message → Message
unfolding reported
as_thinking body now m = record (reported body now m) { status = thinking }

pub final_status : Body → Status
unfolding is_status
final_status body = if is_status "error" body.status then error else complete

pub as_final : Body → ℕ → Message → Message
unfolding reported final_status present
as_final body now m = record (reported body now m) {
  status = final_status body;
  error_message = present body.error_message;
}

-- `SELECT LEFT(content, 50) … WHERE author_type = 'human' ORDER BY created_at ASC LIMIT 1`; of two
-- messages of one instant, the first row.
older : Message → Option Message → Message
older m none = m
older m (some b) = if ltb m.created_at b.created_at then m else b

earliest : Option Message → List Message → String → Option Message
unfolding older
earliest best [] thread_id = best
earliest best (m ∷ ms) thread_id =
    earliest
      (if str_eq m.thread_id thread_id && not (by_agent m.author_type)
        then some (older m best)
        else best)
      ms thread_id

titled : List Message → Thread → Option Text
unfolding earliest
titled ms t = elim t.title [
  | some title ↦ some title
  | none ↦ elim (earliest none ms t.id) [ none ↦ none | some m ↦ some (take 50 m.content) ]
]

-- The messages that are answers of agents to one message.
sibling : ℕ → Message → Bool
sibling reply_to m =
    (elim m.reply_to [ none ↦ false | some r ↦ r == reply_to ]) && by_agent m.author_type

batch_is_complete : ℕ → List Message → Bool
unfolding sibling
batch_is_complete reply_to ms =
    any (sibling reply_to) ms && all (λ m. not (sibling reply_to m) || not (is_open m.status)) ms

-- The timestamp of a message's thread, and its title.
touch : ℕ → (List Message → Thread → Option Text) → Option Message → Store → Store
unfolding update_thread
touch now title none s = s
touch now title (some m) s = record s {
  threads =
      update_thread m.thread_id (λ t. record t { updated_at = now; title = title s.messages t })
        s.threads;
}

module _ (config : Config) (fails : ℕ → Bool) (fetch : Work → Result Answer) (now : ℕ) where
  -- An update that matched nothing: there is no such message, or it is already terminal.
  not_updated : ℕ → Exec Store Reply
  unfolding find_message
  not_updated id = do
    found ← select fails (λ s. find_message id s.messages)
    pure (given found (refused 404 "unknown_message") (λ _. updated false))

  -- The timestamp of the message's thread, and its title where it has none.
  touch_thread : (List Message → Thread → Option Text) → ℕ → Exec Store (Unit {0})
  unfolding find_message touch
  touch_thread title id =
      statement fails (λ s. (tt, touch now title (find_message id s.messages) s))

  thinking_callback : Body → ℕ → Exec Store Reply
  unfolding update_messages open_message as_thinking
  thinking_callback body id = do
    count ← statement fails (update_messages (open_message id) (as_thinking body now))
    if count == 0
        then not_updated id
        else (do touch_thread (λ ms t. t.title) id; pure (updated true))

  -- The entry of the agent's journal, less what comes of the request.
  entry_of : Body → Agent → JournalEntry
  unfolding present
  entry_of body a = record {
    agent_slug = a.agent_id;
    model = present body.model;
    tokens = or_else body.input_tokens 0 + or_else body.output_tokens 0;
    duration_ms = or_else body.duration_ms 0;
    preview =
        if ltb 300 (length body.content) then take 300 body.content ++ 8230 ∷ [] else body.content;
  }

  append_journal : JournalEntry → Exec Store (Unit {0})
  append_journal entry s = (ok tt, record s { journal = s.journal ++ entry ∷ [] })

  author_of : ℕ → Store → Option Agent
  unfolding find_message find_agent
  author_of id s =
      given (find_message id s.messages) none
        (λ m. if by_agent m.author_type then find_agent m.author_id s.agents else none)

  journal : Body → ℕ → Exec Store (Unit {0})
  unfolding author_of entry_of
  journal body id = do
    author ← select fails (author_of id)
    given author skip (λ a. append_journal (entry_of body a))

  -- The message that a group's batch answers.
  batch_of : ℕ → Store → Option ℕ
  unfolding find_message find_thread
  batch_of id s = elim (find_message id s.messages) [
    | none ↦ none
    | some m ↦ elim (find_thread m.thread_id s.threads) [
      | none ↦ none
      | some t ↦ if is_group t.type then m.reply_to else none
    ]
  ]

  mark_batch : ℕ → Exec Store (Unit {0})
  unfolding update_messages
  mark_batch id = do
    statement fails (update_messages (λ m. m.id == id) (λ m. record m { batch_complete = true }))
    skip

  detect_batch : ℕ → Exec Store (Unit {0})
  unfolding batch_of batch_is_complete
  detect_batch id = do
    batch ← select fails (batch_of id)
    given batch skip (λ reply_to. do
      done ← select fails (λ s. batch_is_complete reply_to s.messages)
      when done (mark_batch id))

  tag_author : ℕ → Message → Exec Store (Unit {0})
  tag_author id m = do
    scope ← elevated_scope config fails fetch now m.author_id
    given scope skip (λ sc. log (elevated_agent_response m.author_id id sc))

  tag_elevated : ℕ → Exec Store (Unit {0})
  unfolding find_message
  tag_elevated id = do
    found ← select fails (λ s. find_message id s.messages)
    given found skip (λ m. when (by_agent m.author_type) (tag_author id m))

  -- What follows a final update, each part in its own `try`.
  aftermath : Body → ℕ → Exec Store (Unit {0})
  unfolding final_status is_empty
  aftermath body id = do
    let succeeded = same_status (final_status body) complete
    when (succeeded && not (is_empty body.content) && config.journal) (attempt (journal body id))
    attempt (detect_batch id)
    attempt (tag_elevated id)
    when (succeeded && not (is_empty (trim body.content)))
        (attempt (orchestrate config fails fetch now id body.content))

  final_callback : Body → ℕ → Exec Store Reply
  unfolding update_messages open_message as_final titled aftermath ◌>>=◌ pure
  final_callback body id = do
    count ← statement fails (update_messages (open_message id) (as_final body now))
    if count == 0
        then not_updated id
        else (do touch_thread titled id; aftermath body id; pure (updated true))

  callback_body : Body → Exec Store Reply
  unfolding is_status
  callback_body body = given body.message_id (pure (refused 400 "message_id is required")) (λ id.
      if is_some body.idempotency_key
      then pure (refused 400 "idempotency_key is not allowed in callback")
      else if is_status "thinking" body.status
      then thinking_callback body id
      else final_callback body id)

  pub chat_callback_handler : Request → Exec Store Reply
  unfolding is_authorized
  chat_callback_handler req =
      given config.callback_token (pure (refused 503 "callback_not_configured")) (λ token.
        if is_authorized token req.authorization
        then callback_body req.body
        else pure (refused 401 "unauthorized"))

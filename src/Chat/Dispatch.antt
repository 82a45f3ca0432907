-- ===== src/Chat/Dispatch.antt =====
-- services/api/src/routes/chat.ts, `dispatchToAgents`, with `sanitizeDispatchReason` and
-- services/chat-dispatch.ts, `dispatchChatWork`. The agent's HTTP answer is a parameter, and so is
-- CHAT_CALLBACK_TOKEN, where an empty value is `none`.
pub mod Rows
use hill90_app.Prelude.{
  given, ◌+◌, zero, ℕ, suc, Bool, true, false, Option, some, none, List, [], ◌∷◌, ◌++◌, String,
  str_eq, if◌then◌else◌, ◌==◌, leb, ltb, ◌&&◌, map, length, take, drop,
}
use hill90_app.Prelude.Text.{Text, codes, is_space, starts_with}
use hill90_app.Prelude.Exec.{Result, ok, thrown, Exec}
use hill90_app.Chat.Mentions.{or_text}
use hill90_app.Chat.Store.{
  pure, ◌>>=◌, Role, Message, Agent, Work, Store, ThreadType, statement, insert_message,
  update_messages, same_status, agent, assistant, pending, error,
}

-- `text.split(secret).join('[REDACTED]')` for a secret that is not empty: from left to right, each
-- occurrence that does not overlap the one before; `k` characters of an occurrence are left.
replace_from : Text → ℕ → Text → Text
unfolding starts_with
replace_from secret k [] = []
replace_from secret (suc k) (c ∷ s) = replace_from secret k s
replace_from secret zero (c ∷ s) = elim (starts_with (c ∷ s) secret) [
  | true ↦ codes "[REDACTED]" ++ replace_from secret (length (drop 1 secret)) s
  | false ↦ c ∷ replace_from secret zero s
]

redact_secret : Option Text → Text → Text
unfolding replace_from
redact_secret none text = text
redact_secret (some []) text = text
redact_secret (some (c ∷ s)) text = replace_from (c ∷ s) 0 text

lower : ℕ → ℕ
lower c = if leb 65 c && leb c 90 then c + 32 else c

-- The pattern /Bearer\s+\S+/gi, which is greedy: where it is.
pub data Place : Type 0 where
  -- outside of an occurrence
  outside : Place
  -- in the white space of one, and in the token of one
  space token : Place

-- The word, white space and a character that is none.
bearer_follows : Text → Bool
unfolding is_space
bearer_follows [] = false
bearer_follows (c ∷ s) = let later = bearer_follows s in if is_space c then later else true

is_bearer : Text → Bool
unfolding starts_with lower bearer_follows is_space
is_bearer s =
    starts_with (map lower (take 6 s)) (codes "bearer")
    && (elim (drop 6 s) [ [] ↦ false | c ∷ rest ↦ is_space c && bearer_follows rest ])

-- `k` letters of the word are left out.
redact_bearer : Place → ℕ → Text → Text
unfolding is_bearer is_space
redact_bearer at k [] = []
redact_bearer at (suc k) (c ∷ s) = redact_bearer at k s
redact_bearer outside zero (c ∷ s) = elim (is_bearer (c ∷ s)) [
  | true ↦ codes "Bearer [REDACTED]" ++ redact_bearer space 5 s
  | false ↦ c ∷ redact_bearer outside zero s
]
redact_bearer space zero (c ∷ s) = redact_bearer (if is_space c then space else token) zero s
redact_bearer token zero (c ∷ s) = elim (is_space c) [
  | true ↦ c ∷ redact_bearer outside zero s
  | false ↦ redact_bearer token zero s
]

abbrev pub dispatch_reason_max_len : ℕ
dispatch_reason_max_len = 500

truncate : Text → Text
truncate s =
    if ltb dispatch_reason_max_len (length s)
    then take dispatch_reason_max_len s ++ 8230 ∷ []
    else s

-- The one secret that the caller names is the agent's work token.
unfoldable pub sanitize_dispatch_reason : Text → Option Text → Text
unfolding redact_secret redact_bearer truncate
sanitize_dispatch_reason reason secret =
    truncate (redact_bearer outside 0 (redact_secret secret reason))

-- What the agent's HTTP server answers: a status that is not a success, with its text, or the
-- `accepted` field of its body.
pub data Answer : Type 0 where
  not_ok : Text → Text → Answer
  body : Bool → Answer

pub record DispatchOptions : Type 0 where
  pub thread_id : String
  pub agents : List Agent
  pub reply_to : ℕ
  pub history : List (Role × Text)
  pub chain_id : Option ℕ
  pub chain_hop : Option ℕ
  pub triggered_by : Option ℕ
  pub thread_type : Option ThreadType
  pub participants : List (Text × Text)
  pub lead_agent_id : Option String

pub record Placeholder : Type 0 where
  pub agent : Agent
  pub id : ℕ
  pub model : Text

-- An entry of `dispatched`, and one of `failed` with its reason.
pub record Dispatched : Type 0 where
  pub dispatched : List (String × ℕ)
  pub failed : List (String × ℕ × String)

first_model : Text → List Text → Text
first_model default_model [] = default_model
first_model default_model (m ∷ ms) = or_text m default_model

-- The row of a placeholder: the columns of the chain are there with a chain only.
unfoldable pub placeholder_row : DispatchOptions → ℕ → String → ℕ → ℕ → Message
placeholder_row opts now author_id id seq = record {
  id = id;
  seq = seq;
  thread_id = opts.thread_id;
  author_id = author_id;
  author_type = agent;
  role = assistant;
  content = [];
  status = pending;
  reply_to = some opts.reply_to;
  model = none;
  input_tokens = none;
  output_tokens = none;
  duration_ms = none;
  error_message = none;
  idempotency_key = none;
  target_agents = none;
  chain_id = opts.chain_id;
  chain_hop = elim opts.chain_id [ none ↦ none | some _ ↦ opts.chain_hop ];
  triggered_by = elim opts.chain_id [ none ↦ none | some _ ↦ opts.triggered_by ];
  batch_complete = false;
  created_at = now;
  updated_at = now;
}

-- `WHERE id = $1 AND status = 'pending'`
unfoldable pub is_placeholder : ℕ → Message → Bool
is_placeholder id m = m.id == id && same_status m.status pending

unfoldable pub fail_with : Text → Message → Message
fail_with reason m = record m { status = error; error_message = some reason }

-- An entry of `participants` or `collaborators`.
pub named : Agent → Text × Text
named a = (a.agent_id, or_text a.name a.agent_id)

collaborators_of : String → List Agent → List (Text × Text)
unfolding named
collaborators_of lead [] = []
collaborators_of lead (a ∷ rest) =
    let later = collaborators_of lead rest in if str_eq a.id lead then later else named a ∷ later

pub work_of : DispatchOptions → Placeholder → Work
unfolding collaborators_of
work_of opts p =
    let is_lead : Bool = elim opts.lead_agent_id [
      | none ↦ false
      | some lead ↦ str_eq p.agent.id lead
    ] in
    record {
      agent_id = p.agent.agent_id;
      work_token = p.agent.work_token;
      thread_id = opts.thread_id;
      message_id = p.id;
      messages = opts.history;
      model = p.model;
      thread_type = opts.thread_type;
      participants = opts.participants;
      is_lead = is_lead;
      collaborators = elim opts.lead_agent_id [
        | none ↦ []
        | some lead ↦ if is_lead then collaborators_of lead opts.agents else []
      ];
    }

-- What a settled request says: none where it was accepted, or else the reason.
pub refusal : Result Answer → Option Text
refusal (thrown e) = some (codes e)
refusal (ok (body true)) = none
refusal (ok (body false)) = some (codes "not accepted")
refusal (ok (not_ok status text)) =
    some (codes "Agentbox returned " ++ status ++ codes ": " ++ text)

module _ (fails : ℕ → Bool) (fetch : Work → Result Answer) (callback_token : Option Text)
    (default_model : Text) (now : ℕ) where
  -- Phase 1: the placeholders, one statement for each.
  pub create_placeholders : DispatchOptions → List Agent → Exec Store (List Placeholder)
  unfolding insert_message placeholder_row first_model
  create_placeholders opts [] = pure []
  create_placeholders opts (a ∷ rest) = do
    row ← statement fails (insert_message (placeholder_row opts now a.id))
    later ← create_placeholders opts rest
    pure (record { agent = a; id = row.0; model = first_model default_model a.models } ∷ later)

  -- An UPDATE of a placeholder, whose own failure is only logged.
  pub mark_error : ℕ → Text → Store → Store
  unfolding update_messages is_placeholder fail_with
  mark_error id reason s =
      (statement fails (update_messages (is_placeholder id) (fail_with reason)) s).1

  not_configured : List Placeholder → Dispatched → Store → Dispatched × Store
  unfolding mark_error
  not_configured [] d s = (d, s)
  not_configured (p ∷ ps) d s =
      not_configured ps
        (record d { failed = d.failed ++ (p.agent.id, p.id, "callback_not_configured") ∷ [] })
        (mark_error p.id
          (codes "Chat is not configured on this server (CHAT_CALLBACK_TOKEN missing)") s)

  -- Phase 3, in the order of the placeholders.
  pub settle : DispatchOptions → List Placeholder → Dispatched → Store → Dispatched × Store
  unfolding refusal mark_error sanitize_dispatch_reason
  settle opts [] d s = (d, s)
  settle opts (p ∷ ps) d s =
      given (refusal (fetch (work_of opts p)))
        (settle opts ps (record d { dispatched = d.dispatched ++ (p.agent.id, p.id) ∷ [] }) s)
        (λ reason.
          settle opts ps
            (record d { failed = d.failed ++ (p.agent.id, p.id, "dispatch_failed") ∷ [] })
            (mark_error p.id
              (codes "Dispatch failed: " ++ sanitize_dispatch_reason reason p.agent.work_token) s))

  -- Phases 2 and 3: every request is sent before any answer is read.
  pub send_placeholders : DispatchOptions → List Placeholder → Exec Store Dispatched
  unfolding not_configured settle work_of
  send_placeholders opts ps s =
      let empty : Dispatched = record { dispatched = []; failed = [] } in
      let (d, t) =
        given callback_token (not_configured ps empty s)
          (λ _. settle opts ps empty (record s { sent = s.sent ++ map (work_of opts) ps })) in
      (ok d, t)

  unfoldable pub dispatch_to_agents : DispatchOptions → Exec Store Dispatched
  dispatch_to_agents opts = do ps ← create_placeholders opts opts.agents; send_placeholders opts ps

-- ===== src/Chat/RequestTests.antt =====
-- The requests of routes/chat.ts on a thread with two agents, where one has answered and the other thinks.
use hill90_app.Chat.Store.{
  AuthorType, Role, Status, human, agent, user, assistant, complete, thinking, group, Message,
  Agent, Thread, Store, Work, pure,
}
use hill90_app.Chat.Dispatch.{sanitize_dispatch_reason, Answer, body}
use hill90_app.Chat.Threads.{Caller, refused, allowed, is_empty, cancel}
use hill90_app.Chat.Threads.Cancelled.{pending_in, cancel-thinking}
use hill90_app.Chat.Routing.{Classified}
use hill90_app.Chat.Send.{SendRequest, user_row, only_lead, key_taken, send_classified}
use hill90_app.Chat.Send.Lead.{send_classified-Stored}
use hill90_app.Chat.Chain.{Config, Trigger, continue_chain}
use hill90_app.Chat.Chain.Fresh.{IsChosen, continue_chain-Grows}
use hill90_app.Chat.Callback.{Request, open_message, chat_callback_handler}
use hill90_app.Chat.Callback.Inert.{Inert, chat_callback_handler-Inert}
use hill90_app.Chat.Mentions.{parse_mentions}
use hill90_app.Chat.Mentions.Found.{Mentions, parse_mentions-Mentions}
use hill90_app.Chat.Sweep.{sweep}
use hill90_app.Chat.Sweep.Rows.{IsHeard, sweep-IsHeard}
use hill90_app.Chat.Requests.{Event, Occasion, callback, send, sweep_round, cancel_pending, run}
use hill90_app.Chat.Requests.Lasting.{HopWithin, run-Grows}
use hill90_app.Chat.Kept.{Grows}
use hill90_app.Prelude.{
  ◌↔◌, none, String, All, true, ◌++◌, List, false, ◌≡◌, some, refl, ℕ, Bool, ◌∷◌, In, inr, [], inl,
}
use hill90_app.Prelude.Text.{text_eq, Text, codes}
use hill90_app.Prelude.Exec.{Result, ok}

abbrev row : ℕ → String → AuthorType → Role → Status → Text → Message
row id author type role status content = record {
  id = id;
  seq = id;
  thread_id = "t";
  author_id = author;
  author_type = type;
  role = role;
  content = content;
  status = status;
  reply_to = none;
  model = none;
  input_tokens = none;
  output_tokens = none;
  duration_ms = none;
  error_message = none;
  idempotency_key = none;
  target_agents = none;
  chain_id = none;
  chain_hop = none;
  triggered_by = none;
  batch_complete = false;
  created_at = 0;
  updated_at = 0;
}

abbrev question : Message
question = row 0 "eve" human user complete (codes "hello")

abbrev answer_row : Message
answer_row = row 1 "a1" agent assistant complete (codes "@bob look")

abbrev thought : Message
thought = row 2 "a2" agent assistant thinking []

abbrev ada : Agent
ada = record {
  id = "a1";
  agent_id = codes "ada";
  name = codes "Ada";
  status = "running";
  work_token = some (codes "w1");
  models = [];
  created_by = "eve";
}

abbrev bob : Agent
bob = record {
  id = "a2";
  agent_id = codes "bob";
  name = codes "Bob";
  status = "running";
  work_token = some (codes "w2");
  models = [];
  created_by = "eve";
}

abbrev team : Thread
team = record { id = "t"; type = group; title = none; lead_agent_id = some "a1"; updated_at = 0 }

abbrev tables : Store
tables = record {
  messages = question ∷ answer_row ∷ thought ∷ [];
  threads = team ∷ [];
  participants = [];
  agents = ada ∷ bob ∷ [];
  skills = [];
  sent = [];
  journal = [];
  audit = [];
  next_id = 3;
  next_seq = 3;
  queries = 0;
}

abbrev eve : Caller
eve = record { sub = "eve"; admin = true }

abbrev never : ℕ → Bool
never n = false

abbrev accepts : Work → Result Answer
accepts w = ok (body true)

abbrev settings : Config
settings = record {
  callback_token = some (codes "secret");
  journal = false;
  default_model = codes "m";
  max_chain_hops = 5;
  max_chain_duration_ms = 60000;
}

abbrev report : Request
report = record {
  authorization = some (codes "Bearer secret");
  body = record {
    message_id = some 1;
    content = codes "again";
    model = none;
    input_tokens = none;
    output_tokens = none;
    duration_ms = none;
    status = none;
    error_message = none;
    idempotency_key = none;
  };
}

abbrev occasion : Event → Occasion
occasion e = record { now = 1000; fails = never; fetch = accepts; event = e }

abbrev hello : SendRequest
hello = record { message = some (codes "hello"); idempotency_key = none }

abbrev history : List Occasion
history =
    occasion (callback report)
    ∷ occasion (send "t" eve hello)
    ∷ occasion sweep_round
    ∷ occasion (cancel_pending "t" eve)
    ∷ []

run-Grows_example : Grows (HopWithin 5) tables.messages (run settings history tables).messages
run-Grows_example = run-Grows settings history tables

abbrev mention_of_bob : Trigger
mention_of_bob = record { message_id = 1; thread_id = "t"; author_id = "a1"; chain_id = 7; hop = 1 }

continue_chain-Grows_example :
    Grows
      (IsChosen settings mention_of_bob ("a2" ∷ []) tables)
      tables.messages
      (continue_chain settings never accepts 1000 mention_of_bob ("a2" ∷ []) tables).1.messages
continue_chain-Grows_example =
    continue_chain-Grows settings never accepts 1000 mention_of_bob ("a2" ∷ []) tables

chat_callback_handler-Inert_example :
    Inert tables (chat_callback_handler settings never accepts 1000 report tables)
unfolding open_message
chat_callback_handler-Inert_example =
    chat_callback_handler-Inert settings never accepts 1000 (λ n. refl) report tables
      (inl (refl, (refl, (refl, tt))))

parse_mentions-Mentions_example :
    In (codes "bob") (parse_mentions (codes "@bob look")).slugs
    ↔ Mentions true (codes "bob") (codes "@bob look")
parse_mentions-Mentions_example = parse_mentions-Mentions (codes "@bob look") (codes "bob")

sweep-IsHeard_example : All (IsHeard 200000) (sweep never 200000 tables).messages
sweep-IsHeard_example = sweep-IsHeard never 200000 tables refl

abbrev without_lead : Classified
without_lead = record { dispatchable = bob ∷ []; skipped = ("a1", "not_running") ∷ [] }

send_classified-Stored_example :
    let (r, t) =
      send_classified never accepts
        (some (codes "secret"))
        (codes "m")
        1000
        team
        eve
        hello
        (codes "hello")
        ("a1" ∷ "a2" ∷ [])
        none
        without_lead
        tables in
    (r ≡ ok (refused 409 "Lead agent is not running or has a pending response"))
    × (t.messages ≡ tables.messages ++ user_row "t" "eve" hello (codes "hello") none 1000 3 3 ∷ [])
    × (t.sent ≡ [])
unfolding only_lead is_empty key_taken
send_classified-Stored_example =
    send_classified-Stored never accepts (some (codes "secret")) (codes "m") 1000 (λ n. refl) team
      "a1" eve hello (codes "hello") ("a1" ∷ "a2" ∷ []) none without_lead tables refl refl refl refl

cancel-thinking_example :
    All (λ (x : Message). pending_in "t" x ≡ false) (cancel never "t" eve tables).1.messages
    × In thought (cancel never "t" eve tables).1.messages
unfolding allowed pure
cancel-thinking_example =
    cancel-thinking never "t" eve tables tables thought refl refl refl (inr (inr (inl refl)))

mentions_once :
    parse_mentions (codes "@bob hi @ada, @bob a@eve")
    ≡ record { slugs = codes "bob" ∷ codes "ada" ∷ []; clean_content = codes "hi, a@eve" }
unfolding parse_mentions text_eq
mentions_once = refl

bearer_redacted :
    sanitize_dispatch_reason (codes "bearer  abc: w1 failed") (some (codes "w1"))
    ≡ codes "Bearer [REDACTED] [REDACTED] failed"
unfolding sanitize_dispatch_reason
bearer_redacted = refl

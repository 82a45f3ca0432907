-- ===== src/Chat/Store.antt =====
-- The tables that the handlers of routes/chat.ts read and write, and a database whose statements may
-- fail: `fails n` says that the n-th one throws, and then it has no effect. An identifier of a message
-- or of a chain is a number that has not been drawn before; an instant is a number of milliseconds.
use hill90_app.Prelude.{
  ℕ, suc, Bool, Option, some, none, List, [], ◌∷◌, ◌++◌, ◌+◌, String, str_eq, if◌then◌else◌, ◌==◌,
  any, ◌&&◌, ◌||◌, true, false,
}
use hill90_app.Prelude.Text.{Text}
use hill90_app.Prelude.Exec.{Result, ok, thrown, Exec}

pub data AuthorType : Type 0 where
  human agent : AuthorType

pub data Role : Type 0 where
  user assistant : Role

pub data Status : Type 0 where
  pending thinking complete error : Status

pub data ThreadType : Type 0 where
  direct group : ThreadType

-- A row of `chat_messages`.
pub record Message : Type 0 where
  pub id : ℕ
  pub seq : ℕ
  pub thread_id : String
  pub author_id : String
  pub author_type : AuthorType
  pub role : Role
  pub content : Text
  pub status : Status
  pub reply_to : Option ℕ
  pub model : Option Text
  pub input_tokens : Option ℕ
  pub output_tokens : Option ℕ
  pub duration_ms : Option ℕ
  pub error_message : Option Text
  pub idempotency_key : Option Text
  pub target_agents : Option (List String)
  pub chain_id : Option ℕ
  pub chain_hop : Option ℕ
  pub triggered_by : Option ℕ
  pub batch_complete : Bool
  pub created_at : ℕ
  pub updated_at : ℕ

-- A row of `chat_threads`.
pub record Thread : Type 0 where
  pub id : String
  pub type : ThreadType
  pub title : Option Text
  pub lead_agent_id : Option String
  pub updated_at : ℕ

-- A row of `chat_participants`.
pub record Participant : Type 0 where
  pub thread_id : String
  pub participant_id : String
  pub participant_type : AuthorType
  pub is_owner : Bool
  pub left_at : Option ℕ

-- A row of `agents` with the models of its policy.
pub record Agent : Type 0 where
  pub id : String
  pub agent_id : Text
  pub name : Text
  pub status : String
  pub work_token : Option Text
  pub models : List Text
  pub created_by : String

-- A request to an agent's `/work`; `messages` is the history that goes with it.
pub record Work : Type 0 where
  pub agent_id : Text
  pub work_token : Option Text
  pub thread_id : String
  pub message_id : ℕ
  pub messages : List (Role × Text)
  pub model : Text
  pub thread_type : Option ThreadType
  pub participants : List (Text × Text)
  pub is_lead : Bool
  pub collaborators : List (Text × Text)

-- What is appended to an agent's journal, less its formatting.
pub record JournalEntry : Type 0 where
  pub agent_slug : Text
  pub model : Option Text
  pub tokens : ℕ
  pub duration_ms : ℕ
  pub preview : Text

pub data AuditEntry : Type 0 where
  chat_elevated_denied : Text → String → String → AuditEntry
  elevated_agent_response : String → ℕ → String → AuditEntry
  agent_to_agent_blocked : String → String → String → AuditEntry
  agent_to_agent_dispatch : String → String → ℕ → ℕ → AuditEntry

pub record Store : Type 0 where
  pub messages : List Message
  pub threads : List Thread
  pub participants : List Participant
  pub agents : List Agent
  -- the scopes of the skills that agents have
  pub skills : List (String × String)
  pub sent : List Work
  pub journal : List JournalEntry
  pub audit : List AuditEntry
  pub next_id : ℕ
  pub next_seq : ℕ
  pub queries : ℕ

abbrev pub same_status : Status → Status → Bool
same_status pending pending = true
same_status thinking thinking = true
same_status complete complete = true
same_status error error = true
same_status _ _ = false

-- `status IN ('pending', 'thinking')`
abbrev pub is_open : Status → Bool
is_open pending = true
is_open thinking = true
is_open complete = false
is_open error = false

abbrev pub by_agent : AuthorType → Bool
by_agent agent = true
by_agent human = false

abbrev pub is_group : ThreadType → Bool
is_group group = true
is_group direct = false

module _ (fails : ℕ → Bool) where
  -- One statement, with what it returns.
  unfoldable pub statement : {A : Type 0} → (Store → A × Store) → Exec Store A
  statement f s =
      let t = record s { queries = suc s.queries } in
      if fails s.queries then (thrown "database", t) else (ok (f t).0, (f t).1)

  unfoldable pub select : {A : Type 0} → (Store → A) → Exec Store A
  unfolding statement
  select f = statement (λ s. (f s, s))

-- The rows that a `WHERE` selects are changed, and each draws the next value of the sequence.
unfoldable pub update_rows :
    (Message → Bool) → (Message → Message) → ℕ → List Message → List Message
update_rows sel f n [] = []
update_rows sel f n (m ∷ ms) =
    (if sel m then record (f m) { seq = n } else m)
    ∷ update_rows sel f (if sel m then suc n else n) ms

unfoldable pub count_rows : (Message → Bool) → List Message → ℕ
count_rows sel [] = 0
count_rows sel (m ∷ ms) = (if sel m then 1 else 0) + count_rows sel ms

-- `UPDATE chat_messages SET …, seq = nextval(…) WHERE …`, with its `rowCount`.
unfoldable pub update_messages : (Message → Bool) → (Message → Message) → Store → ℕ × Store
unfolding update_rows count_rows
update_messages sel f s = (
  count_rows sel s.messages,
  record s {
    messages = update_rows sel f s.next_seq s.messages;
    next_seq = s.next_seq + count_rows sel s.messages;
  },
)

-- `INSERT INTO chat_messages … RETURNING id, seq`
unfoldable pub insert_message : (ℕ → ℕ → Message) → Store → (ℕ × ℕ) × Store
insert_message row s = (
  (s.next_id, s.next_seq),
  record s {
    messages = s.messages ++ row s.next_id s.next_seq ∷ [];
    next_id = suc s.next_id;
    next_seq = suc s.next_seq;
  },
)

unfoldable pub find_message : ℕ → List Message → Option Message
find_message id [] = none
find_message id (m ∷ ms) = let later = find_message id ms in if m.id == id then some m else later

unfoldable pub find_thread : String → List Thread → Option Thread
find_thread id [] = none
find_thread id (t ∷ ts) = let later = find_thread id ts in if str_eq t.id id then some t else later

unfoldable pub update_thread : String → (Thread → Thread) → List Thread → List Thread
update_thread id f [] = []
update_thread id f (t ∷ ts) = (if str_eq t.id id then f t else t) ∷ update_thread id f ts

unfoldable pub find_agent : String → List Agent → Option Agent
find_agent id [] = none
find_agent id (a ∷ rest) =
    let later = find_agent id rest in if str_eq a.id id then some a else later

-- `SELECT participant_id … WHERE participant_type = 'agent' AND left_at IS NULL`
unfoldable pub thread_agents : String → List Participant → List String
thread_agents thread_id [] = []
thread_agents thread_id (p ∷ ps) =
    let later = thread_agents thread_id ps in
    if str_eq p.thread_id thread_id
      && by_agent p.participant_type
      && (elim p.left_at [ none ↦ true | some _ ↦ false ])
    then p.participant_id ∷ later
    else later

-- The concurrency guard: the agent has a pending message in the thread.
unfoldable pub has_pending : String → String → List Message → Bool
has_pending thread_id author_id ms =
    any
      (λ m.
        str_eq m.thread_id thread_id
        && str_eq m.author_id author_id
        && by_agent m.author_type
        && same_status m.status pending)
      ms

-- helpers/elevated-scope.ts, `isElevatedScope` and `getAgentElevatedScope`.
unfoldable pub is_elevated_scope : String → Bool
is_elevated_scope scope = str_eq scope "host_docker" || str_eq scope "vps_system"

unfoldable pub agent_elevated_scope : String → List (String × String) → Option String
unfolding is_elevated_scope
agent_elevated_scope agent_id [] = none
agent_elevated_scope agent_id ((owner, scope) ∷ rows) =
    let later = agent_elevated_scope agent_id rows in
    if str_eq owner agent_id && is_elevated_scope scope then some scope else later

-- The handlers are blocks of these; `>>=` stands shut, so that a rule about it meets each block.
unfoldable pub pure : {A : Type 0} → A → Exec Store A
pure a s = (ok a, s)

module _ {A B : Type 0} where
  abbrev pub continue : Result A → (A → Exec Store B) → Exec Store B
  continue (ok a) f s = f a s
  continue (thrown e) f s = (thrown e, s)

  infixl 5 ◌>>=◌ ◌>>◌
  unfoldable pub ◌>>=◌ : Exec Store A → (A → Exec Store B) → Exec Store B
  unfolding pure
  ◌>>=◌ m f s = continue (m s).0 f (m s).1

  abbrev pub ◌>>◌ : Exec Store A → Exec Store B → Exec Store B
  m >> n = m >>= λ _. n

unfoldable pub skip : Exec Store (Unit {0})
unfolding pure
skip = pure tt

-- A block that runs under a condition.
unfoldable pub when : Bool → Exec Store (Unit {0}) → Exec Store (Unit {0})
unfolding skip
when c block = if c then block else skip

-- A block whose exceptions are only logged.
unfoldable pub attempt : Exec Store (Unit {0}) → Exec Store (Unit {0})
attempt block s = (ok tt, (block s).1)

unfoldable pub log : AuditEntry → Exec Store (Unit {0})
log entry s = (ok tt, record s { audit = s.audit ++ entry ∷ [] })

-- `crypto.randomUUID()`
unfoldable pub draw_id : Exec Store ℕ
draw_id s = (ok s.next_id, record s { next_id = suc s.next_id })

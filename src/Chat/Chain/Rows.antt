-- ===== src/Chat/Chain/Rows.antt =====
-- What a chain of mentions does to `chat_messages`: its messages stay within the budget of hops.
use hill90_app.Chat.Store.{Message, Agent, Role, ThreadType, Work}
use hill90_app.Chat.Dispatch.{Answer, placeholder_row}
use hill90_app.Chat.Dispatch.Rows.{Admits, dispatch_to_agents-Keeps}
use hill90_app.Chat.Chain.{
  Text, Config, Trigger, backfill, elevated_scope, idle_agent, known_agent, eligible,
  eligible_agents, chain_names, log_dispatched, chain_options, dispatch_chain, extend_chain,
  continue_chain, begin_chain, chain_of, start_chain, orchestrate_message, orchestrate,
}
use hill90_app.Chat.Kept.{
  IsKept-same, IsKept, Keeps, Grows, Lasts, IsKept-refl, Keeps-bind, Keeps-if, Keeps-given,
  Keeps-when, Keeps-pure, Keeps-skip, Keeps-log, Keeps-draw_id, Keeps-select, Keeps-statement,
}
use hill90_app.Prelude.{
  arith, Bool, List, refl, Option, leb→le, String, ◌≤◌, inr, none, ℕ, Bool-cases, ◌∷◌, false, some,
  is_some, ◌≡◌, not, inl, ◌&&◌, ◌==◌, [],
}
use hill90_app.Prelude.Exec.{Result}

no_chain : (c : Option ℕ) → is_some c ≡ false → c ≡ none
no_chain none h = refl
no_chain (some c) h = cc

-- The message that begins a chain joins it with hop 0.
backfill-IsKept :
    (chain : ℕ) (m : Message)
    → is_some m.chain_id ≡ false
    → IsKept m (record m { chain_id = some chain; chain_hop = some 0 })
backfill-IsKept chain m h =
    IsKept-same m _
      (record {
        status = refl;
        content = refl;
        error_message = refl;
        model = refl;
        input_tokens = refl;
        output_tokens = refl;
        duration_ms = refl;
      })
      refl refl refl refl refl refl refl refl (inr (no_chain m.chain_id h, refl))

backfill-Grows :
    (P : Message → Type 0) (id chain : ℕ) (ms : List Message) → Grows P ms (backfill id chain ms)
unfolding backfill
backfill-Grows P id chain [] = tt
backfill-Grows P id chain (m ∷ ms) = (
  elim (Bool-cases (m.id == id && not (is_some m.chain_id))) [
    | inl e ↦ rw e (backfill-IsKept chain m (ground (arith, e)))
    | inr e ↦ rw e (IsKept-refl m)
  ],
  backfill-Grows P id chain ms,
)

module _ (P : Message → Type 0) (lasts : Lasts P) (config : Config) (fails : ℕ → Bool)
    (fetch : Work → Result Answer) (now : ℕ) where
  chain_names-Keeps :
      (thread_id : String) (type : Option ThreadType)
      → Keeps P (chain_names config fails fetch now thread_id type)
  unfolding chain_names
  chain_names-Keeps thread_id type = Keeps-if _ (Keeps-select _ _) (Keeps-pure _)

  log_dispatched-Keeps :
      (trig : Trigger) (sent : List (String × ℕ))
      → Keeps P (log_dispatched config fails fetch now trig sent)
  unfolding log_dispatched
  log_dispatched-Keeps trig [] = Keeps-skip
  log_dispatched-Keeps trig ((uuid, id) ∷ rest) =
      Keeps-bind lasts (Keeps-log _) (λ _. log_dispatched-Keeps trig rest)

  -- The placeholders of a chain have the property.
  abbrev pub AdmitsChain : Trigger → List Agent → List Agent → Type 0
  AdmitsChain trig agents rest =
      (history : List (Role × Text)) (type : Option ThreadType) (names : List (Text × Text))
      → Admits P lasts fails fetch config.callback_token config.default_model now
          (chain_options config fails fetch now trig agents history type names) rest

  pub dispatch_chain-Keeps :
      (trig : Trigger) (agents : List Agent)
      → AdmitsChain trig agents agents
      → Keeps P (dispatch_chain config fails fetch now trig agents)
  unfolding dispatch_chain
  dispatch_chain-Keeps trig [] h = Keeps-skip
  dispatch_chain-Keeps trig (a ∷ agents) h = Keeps-bind lasts (Keeps-select _ _) (λ history.
      Keeps-bind lasts (Keeps-select _ _) (λ type.
        Keeps-bind lasts (chain_names-Keeps trig.thread_id type) (λ names.
          Keeps-bind lasts
            (dispatch_to_agents-Keeps P lasts fails fetch config.callback_token config.default_model
              now (chain_options config fails fetch now trig (a ∷ agents) history type names)
              (h history type names))
            (λ d. log_dispatched-Keeps trig d.dispatched))))

module _ (P : Message → Type 0) (lasts : Lasts P) (config : Config)
    (within : (m : Message) (h : ℕ) → m.chain_hop ≡ some h → h ≤ config.max_chain_hops → P m)
    (fails : ℕ → Bool) (fetch : Work → Result Answer) (now : ℕ) where
  pub elevated_scope-Keeps : (uuid : String) → Keeps P (elevated_scope config fails fetch now uuid)
  unfolding elevated_scope
  elevated_scope-Keeps uuid = Keeps-select _ _

  idle_agent-Keeps :
      (trig : Trigger) (a : Agent) → Keeps P (idle_agent config fails fetch now trig a)
  unfolding idle_agent
  idle_agent-Keeps trig a =
      Keeps-if _ (Keeps-bind lasts (Keeps-select _ _) (λ busy. Keeps-pure _)) (Keeps-pure _)

  known_agent-Keeps :
      (trig : Trigger) (uuid : String) → Keeps P (known_agent config fails fetch now trig uuid)
  unfolding known_agent
  known_agent-Keeps trig uuid =
      Keeps-bind lasts (Keeps-select _ _)
        (λ found. Keeps-given _ (Keeps-pure _) (λ a. idle_agent-Keeps trig a))

  eligible-Keeps :
      (trig : Trigger) (uuid : String) → Keeps P (eligible config fails fetch now trig uuid)
  unfolding eligible
  eligible-Keeps trig uuid = Keeps-bind lasts (elevated_scope-Keeps uuid) (λ scope.
      Keeps-given _ (known_agent-Keeps trig uuid)
        (λ sc. Keeps-bind lasts (Keeps-log _) (λ _. Keeps-pure _)))

  eligible_agents-Keeps :
      (trig : Trigger) (uuids : List String)
      → Keeps P (eligible_agents config fails fetch now trig uuids)
  unfolding eligible_agents
  eligible_agents-Keeps trig [] = Keeps-pure _
  eligible_agents-Keeps trig (uuid ∷ uuids) =
      Keeps-bind lasts (eligible-Keeps trig uuid)
        (λ first. Keeps-bind lasts (eligible_agents-Keeps trig uuids) (λ later. Keeps-pure _))

  Admits-within :
      (trig : Trigger) (agents : List Agent) (history : List (Role × Text))
      (type : Option ThreadType) (names : List (Text × Text)) (rest : List Agent)
      → trig.hop ≤ config.max_chain_hops
      → Admits P lasts fails fetch config.callback_token config.default_model now
          (chain_options config fails fetch now trig agents history type names)
          rest
  unfolding placeholder_row chain_options
  Admits-within trig agents history type names [] h = tt
  Admits-within trig agents history type names (a ∷ rest) h =
      (λ id seq. within _ trig.hop refl h, Admits-within trig agents history type names rest h)

  extend_chain-Keeps :
      (trig : Trigger) (targets : List String)
      → trig.hop ≤ config.max_chain_hops
      → Keeps P (extend_chain config fails fetch now trig targets)
  unfolding extend_chain
  extend_chain-Keeps trig targets h = Keeps-bind lasts (Keeps-select _ _) (λ seen.
      Keeps-bind lasts (eligible_agents-Keeps trig _) (λ agents.
        dispatch_chain-Keeps P lasts config fails fetch now trig agents
          (λ history type names. Admits-within trig agents history type names agents h)))

  -- The hop is within the budget where the chain goes on.
  continue_chain-Keeps :
      (trig : Trigger) (targets : List String)
      → Keeps P (continue_chain config fails fetch now trig targets)
  unfolding continue_chain
  continue_chain-Keeps trig targets = Keeps-when _ (λ e.
      Keeps-bind lasts (Keeps-select _ _)
        (λ start. Keeps-when _ (λ _. extend_chain-Keeps trig targets (leb→le _ _ e))))

  begin_chain-Keeps : (id : ℕ) → Keeps P (begin_chain config fails fetch now id)
  unfolding begin_chain
  begin_chain-Keeps id = Keeps-bind lasts Keeps-draw_id (λ chain.
      Keeps-statement fails (λ s. (chain, record s { messages = backfill id chain s.messages }))
        (λ s. backfill-Grows P id chain s.messages))

  chain_of-Keeps : (m : Message) → Keeps P (chain_of config fails fetch now m)
  unfolding chain_of
  chain_of-Keeps m = Keeps-given _ (begin_chain-Keeps m.id) (λ chain. Keeps-pure chain)

  start_chain-Keeps :
      (m : Message) (targets : List String) → Keeps P (start_chain config fails fetch now m targets)
  unfolding start_chain
  start_chain-Keeps m targets =
      Keeps-bind lasts (chain_of-Keeps m) (λ chain. continue_chain-Keeps _ targets)

  orchestrate_message-Keeps :
      (slugs : List Text) (m : Message)
      → Keeps P (orchestrate_message config fails fetch now slugs m)
  unfolding orchestrate_message
  orchestrate_message-Keeps slugs m =
      Keeps-bind lasts (Keeps-select _ _) (λ resolved. Keeps-when _ (λ _. start_chain-Keeps m _))

  pub orchestrate-Keeps :
      (id : ℕ) (content : Text) → Keeps P (orchestrate config fails fetch now id content)
  unfolding orchestrate
  orchestrate-Keeps id content = Keeps-when _ (λ _.
      Keeps-bind lasts (Keeps-select _ _)
        (λ found. Keeps-given _ Keeps-skip (λ m. orchestrate_message-Keeps _ m)))

-- ===== src/Chat/Chain/Chosen.antt =====
-- Which agents a chain dispatches to.
use hill90_app.Chat.Store.{
  ◌>>◌, pure, select, statement, ◌>>=◌, continue, log, find_agent, has_pending,
  agent_elevated_scope, Message, Agent, Store, Work, AuditEntry,
}
use hill90_app.Chat.Threads.{has_token}
use hill90_app.Chat.Chain.{
  agent_to_agent_blocked, elevated_scope, known_agent, eligible_agents, eligible, idle_agent,
  Answer, Config, Result, Exec, Trigger,
}
use hill90_app.Prelude.{
  All, given, In, ℕ, ◌&&◌, Option, suc, if◌then◌else◌, sym, ap, Bool, List, false, eq_iff, inl,
  true, none, ◌∷◌, str_eq, Bool-cases, some, ◌∙◌, inr, arith, String, refl, subst, ◌≡◌, [],
}
use hill90_app.Prelude.Exec.{Result, thrown, ok}

-- The agent may take work of the chain's thread, as the tables stand.
pub record IsFit (trig : Trigger) (s : Store) (a : Agent) : Type 0 where
  pub found : find_agent a.id s.agents ≡ some a
  pub is_running : str_eq a.status "running" ≡ true
  pub token : has_token a.work_token ≡ true
  pub scope : agent_elevated_scope a.id s.skills ≡ none
  pub idle : has_pending trig.thread_id a.id s.messages ≡ false

-- The tables that the choice reads.
pub record SameTables (s t : Store) : Type 0 where
  pub agents : t.agents ≡ s.agents
  pub skills : t.skills ≡ s.skills
  pub messages : t.messages ≡ s.messages

IsFit-same :
    (trig : Trigger) (s t : Store) (a : Agent) → SameTables s t → IsFit trig t a → IsFit trig s a
IsFit-same trig s t a e h = record {
  found = subst (λ (l : List Agent). find_agent a.id l ≡ some a) e.agents h.found;
  is_running = h.is_running;
  token = h.token;
  scope =
      subst (λ (l : List (String × String)). agent_elevated_scope a.id l ≡ none) e.skills h.scope;
  idle = subst (λ (l : List Message). has_pending trig.thread_id a.id l ≡ false) e.messages h.idle;
}

pub SameTables-refl : (s : Store) → SameTables s s
SameTables-refl s = record { agents = refl; skills = refl; messages = refl }

SameTables-trans : (s t u : Store) → SameTables s t → SameTables t u → SameTables s u
SameTables-trans s t u h k = record {
  agents = k.agents ∙ h.agents;
  skills = k.skills ∙ h.skills;
  messages = k.messages ∙ h.messages;
}

find_agent-id :
    (uuid : String) (agents : List Agent) (a : Agent)
    → find_agent uuid agents ≡ some a
    → a.id ≡ uuid
unfolding find_agent
find_agent-id uuid [] a h = cc
find_agent-id uuid (b ∷ rest) a h = elim (Bool-cases (str_eq b.id uuid)) [
  | inl e ↦ ground (arith, e, h, eq_iff b.id uuid)
  | inr e ↦ find_agent-id uuid rest a (ground (arith, e, h))
]

-- What a step of the choice returns has the property.
unfoldable pub Fits : {A : Type 0} → (A → Type 0) → Result A → Type 0
Fits Q (ok a) = Q a
Fits Q (thrown e) = Unit

-- A step of the choice ends in the same tables.
unfoldable pub Chooses : {A : Type 0} → (A → Type 0) → Store → Result A × Store → Type 0
unfolding Fits
Chooses Q s (r, t) = SameTables s t × Fits Q r

module _ {A B : Type 0} (Q : A → Type 0) (R : B → Type 0) where
  pub continue-Chooses :
      (s : Store) (r : Result A) (t : Store) (f : A → Exec Store B)
      → SameTables s t
      → Fits Q r
      → ((a : A) (u : Store) → SameTables s u → Q a → Chooses R s (f a u))
      → Chooses R s (continue r f t)
  unfolding Chooses
  continue-Chooses s (ok a) t f e q h = h a t e q
  continue-Chooses s (thrown x) t f e q h = (e, tt)

  pub bind-Chooses :
      (s u : Store) (m : Exec Store A) (f : A → Exec Store B)
      → Chooses Q s (m u)
      → ((a : A) (t : Store) → SameTables s t → Q a → Chooses R s (f a t))
      → Chooses R s ((m >>= f) u)
  unfolding Chooses ◌>>=◌
  bind-Chooses s u m f h k = continue-Chooses s (m u).0 (m u).1 f h.0 h.1 k

module _ {A : Type 0} (Q : A → Type 0) (s u : Store) (same : SameTables s u) where
  pure-Chooses : (a : A) → Q a → Chooses Q s (pure a u)
  unfolding Chooses pure
  pure-Chooses a h = (same, h)

  pub select-Chooses :
      (fails : ℕ → Bool) (f : Store → A)
      → Q (f (record u { queries = suc u.queries }))
      → Chooses Q s (select fails f u)
  unfolding Chooses select statement
  select-Chooses fails f h = elim (Bool-cases (fails u.queries)) [
    | inl e ↦
        rw e (record { agents = same.agents; skills = same.skills; messages = same.messages }, tt)
    | inr e ↦
        rw e (record { agents = same.agents; skills = same.skills; messages = same.messages }, h)
  ]

-- The agents that are returned, if any, are fit.
abbrev FitOption : Trigger → Store → String → Option Agent → Type 0
FitOption trig s uuid none = Unit
FitOption trig s uuid (some a) = IsFit trig s a × (a.id ≡ uuid)

module _ (config : Config) (fails : ℕ → Bool) (fetch : Work → Result Answer) (now : ℕ)
    (trig : Trigger) (s : Store) where
  taken :
      (uuid : String) (a : Agent)
      → (str_eq a.status "running" && has_token a.work_token) ≡ true
      → find_agent a.id s.agents ≡ some a
      → a.id ≡ uuid
      → agent_elevated_scope a.id s.skills ≡ none
      → (busy : Bool) → busy ≡ has_pending trig.thread_id a.id s.messages
      → FitOption trig s uuid (if busy then none else some a)
  taken uuid a ready found id scope true q = tt
  taken uuid a ready found id scope false q = (
    record {
      found = found;
      is_running = ground (arith, ready);
      token = ground (arith, ready);
      scope = scope;
      idle = sym q;
    },
    id,
  )

  idle_agent-Chooses :
      (uuid : String) (a : Agent) (u : Store)
      → SameTables s u
      → find_agent a.id s.agents ≡ some a
      → a.id ≡ uuid
      → agent_elevated_scope a.id s.skills ≡ none
      → Chooses (FitOption trig s uuid) s (idle_agent config fails fetch now trig a u)
  unfolding idle_agent
  idle_agent-Chooses uuid a u same found id scope =
      elim (Bool-cases (str_eq a.status "running" && has_token a.work_token)) [
        | inr no_ ↦ rw no_ (pure-Chooses (FitOption trig s uuid) s u same none tt)
        | inl ready ↦ rw ready (
            bind-Chooses (λ (b : Bool). b ≡ has_pending trig.thread_id a.id s.messages)
              (FitOption trig s uuid) s u _ _
              (select-Chooses _ s u same fails (λ t. has_pending trig.thread_id a.id t.messages)
                (ap (has_pending trig.thread_id a.id) same.messages))
              (λ busy t e q.
                pure-Chooses (FitOption trig s uuid) s t e _
                  (taken uuid a ready found id scope busy q)))
      ]

  on_found :
      (uuid : String) (found : Option Agent) (u : Store)
      → SameTables s u
      → found ≡ find_agent uuid s.agents
      → agent_elevated_scope uuid s.skills ≡ none
      → Chooses
          (FitOption trig s uuid)
          s
          (given found (pure none) (idle_agent config fails fetch now trig) u)
  unfolding given
  on_found uuid none u same e scope = pure-Chooses (FitOption trig s uuid) s u same none tt
  on_found uuid (some a) u same e scope =
      let id = find_agent-id uuid s.agents a (sym e) in
      idle_agent-Chooses uuid a u same
        (subst (λ (k : String). find_agent k s.agents ≡ some a) (sym id) (sym e)) id
        (subst (λ (k : String). agent_elevated_scope k s.skills ≡ none) (sym id) scope)

  known_agent-Chooses :
      (uuid : String) (u : Store)
      → SameTables s u
      → agent_elevated_scope uuid s.skills ≡ none
      → Chooses (FitOption trig s uuid) s (known_agent config fails fetch now trig uuid u)
  unfolding known_agent
  known_agent-Chooses uuid u same scope =
      bind-Chooses (λ (o : Option Agent). o ≡ find_agent uuid s.agents) (FitOption trig s uuid) s u
        _ _
        (select-Chooses _ s u same fails (λ t. find_agent uuid t.agents)
          (ap (find_agent uuid) same.agents))
        (λ found t e q. on_found uuid found t e q scope)

  log-Chooses :
      (entry : AuditEntry) (u : Store)
      → SameTables s u
      → Chooses (λ (_ : Unit {0}). Unit {0}) s (log entry u)
  unfolding Chooses log
  log-Chooses entry u same =
      (record { agents = same.agents; skills = same.skills; messages = same.messages }, tt)

  on_scope :
      (uuid : String) (scope : Option String) (u : Store)
      → SameTables s u
      → scope ≡ agent_elevated_scope uuid s.skills
      → Chooses (FitOption trig s uuid) s (
          given scope
            (known_agent config fails fetch now trig uuid)
            (λ sc. do log (agent_to_agent_blocked uuid trig.author_id sc); pure none)
            u)
  unfolding given
  on_scope uuid none u same e = known_agent-Chooses uuid u same (sym e)
  on_scope uuid (some sc) u same e =
      bind-Chooses (λ (_ : Unit {0}). Unit {0}) (FitOption trig s uuid) s u _ _
        (log-Chooses (agent_to_agent_blocked uuid trig.author_id sc) u same)
        (λ _ t e' _. pure-Chooses (FitOption trig s uuid) s t e' none tt)

  eligible-Chooses :
      (uuid : String) (u : Store)
      → SameTables s u
      → Chooses (FitOption trig s uuid) s (eligible config fails fetch now trig uuid u)
  unfolding eligible elevated_scope
  eligible-Chooses uuid u same =
      bind-Chooses (λ (o : Option String). o ≡ agent_elevated_scope uuid s.skills)
        (FitOption trig s uuid) s u _ _
        (select-Chooses _ s u same fails (λ t. agent_elevated_scope uuid t.skills)
          (ap (agent_elevated_scope uuid) same.skills))
        (λ scope t e q. on_scope uuid scope t e q)

  -- Every agent is fit, and is one of those that were asked for.
  abbrev pub AllFit : List String → List Agent → Type 0
  AllFit uuids agents = All (λ (a : Agent). IsFit trig s a × In a.id uuids) agents

  AllFit-cons :
      (uuid : String) (uuids : List String) (agents : List Agent)
      → AllFit uuids agents
      → AllFit (uuid ∷ uuids) agents
  AllFit-cons uuid uuids [] h = tt
  AllFit-cons uuid uuids (a ∷ agents) h = ((h.0.0, inr h.0.1), AllFit-cons uuid uuids agents h.1)

  with_first :
      (uuid : String) (uuids : List String) (first : Option Agent) (later : List Agent)
      → FitOption trig s uuid first
      → AllFit uuids later
      → AllFit (uuid ∷ uuids) (given first later (λ a. a ∷ later))
  unfolding given
  with_first uuid uuids none later h k = AllFit-cons uuid uuids later k
  with_first uuid uuids (some a) later h k = ((h.0, inl h.1), AllFit-cons uuid uuids later k)

  pub eligible_agents-Chooses :
      (uuids : List String) (u : Store)
      → SameTables s u
      → Chooses (AllFit uuids) s (eligible_agents config fails fetch now trig uuids u)
  unfolding eligible_agents
  eligible_agents-Chooses [] u same = pure-Chooses (AllFit []) s u same [] tt
  eligible_agents-Chooses (uuid ∷ uuids) u same =
      bind-Chooses (FitOption trig s uuid) (AllFit (uuid ∷ uuids)) s u _ _
        (eligible-Chooses uuid u same)
        (λ first t e q.
          bind-Chooses (AllFit uuids) (AllFit (uuid ∷ uuids)) s t _ _
            (eligible_agents-Chooses uuids t e)
            (λ later v e' q'.
              pure-Chooses (AllFit (uuid ∷ uuids)) s v e' _
                (with_first uuid uuids first later q q')))

-- ===== src/Chat/Chain/Fresh.antt =====
-- A chain goes on to agents that may take work and that it has not seen.
use hill90_app.Chat.Store.{
  Message, Agent, Store, Role, ThreadType, Work, ◌>>=◌, continue, when, skip, pure,
}
use hill90_app.Chat.Dispatch.{Answer, placeholder_row}
use hill90_app.Chat.Dispatch.Rows.{Admits}
use hill90_app.Chat.Chain.{
  Text, eligible_agents, Result, Exec, Config, Trigger, keep_if, takes_part, chain_start,
  chain_options, dispatch_chain, extend_chain, continue_chain,
}
use hill90_app.Chat.Chain.Rows.{dispatch_chain-Keeps}
use hill90_app.Chat.Chain.Chosen.{
  IsFit, SameTables, AllFit, Fits, Chooses, select-Chooses, eligible_agents-Chooses,
  SameTables-refl,
}
use hill90_app.Chat.Kept.{Grows, Lasts, ChainKept, Grows-refl}
use hill90_app.Prelude.{
  refl, arith, inr, In, String, true, ◌≡◌, ap, ℕ, if-so, [], leb→le, ◌∷◌, Bool-cases, ◌∙◌, subst,
  if-not, List, Option, not, ◌≤◌, some, inl, Bool, false, sym,
}
use hill90_app.Prelude.Exec.{Result, thrown, ok}

-- A message that the chain has added, seen from the tables that it started from.
pub record IsChosen (config : Config) (trig : Trigger) (targets : List String) (s : Store)
    (m : Message) : Type 0 where
  pub author : Agent
  pub author_id : author.id ≡ m.author_id
  pub fit : IsFit trig s author
  pub mentioned : In author.id targets
  pub unseen : takes_part trig.chain_id s.messages author.id ≡ false
  pub thread_id : m.thread_id ≡ trig.thread_id
  pub reply_to : m.reply_to ≡ some trig.message_id
  pub triggered_by : m.triggered_by ≡ some trig.message_id
  pub chain_id : m.chain_id ≡ some trig.chain_id
  pub chain_hop : m.chain_hop ≡ some trig.hop
  pub within : trig.hop ≤ config.max_chain_hops

-- A row that is in a chain stays in it.
ChainKept-some :
    (m n : Message) (c h : ℕ)
    → ChainKept m n
    → m.chain_id ≡ some c
    → m.chain_hop ≡ some h
    → (n.chain_id ≡ some c) × (n.chain_hop ≡ some h)
ChainKept-some m n c h (inl (a, b)) e f = (a ∙ e, b ∙ f)
ChainKept-some m n c h (inr (a, b)) e f = cc

keep_if-In :
    (p : String → Bool) (x : String) (xs : List String)
    → In x (keep_if p xs)
    → In x xs × (p x ≡ true)
unfolding keep_if
keep_if-In p x [] i = elim i [ ]
keep_if-In p x (y ∷ ys) i = elim (Bool-cases (p y)) [
  | inl e ↦ elim (subst (In x) (if-so _ _ _ e) i) [
    | inl same ↦ (inl same, ap p same ∙ e)
    | inr later ↦ let (j, q) = keep_if-In p x ys later in (inr j, q)
  ]
  | inr e ↦ let (j, q) = keep_if-In p x ys (subst (In x) (if-not _ _ _ e) i) in (inr j, q)
]

module _ {A : Type 0} (P : Message → Type 0) (Q : A → Type 0) where
  continue-Grows :
      (s : Store) (r : Result A) (t : Store) (f : A → Exec Store (Unit {0}))
      → SameTables s t
      → Fits Q r
      → ((a : A) (t : Store) → SameTables s t → Q a → Grows P s.messages (f a t).1.messages)
      → Grows P s.messages (continue r f t).1.messages
  unfolding Fits
  continue-Grows s (ok a) t f e q k = k a t e q
  continue-Grows s (thrown x) t f e q k =
      subst (λ (l : List Message). Grows P s.messages l) (sym e.messages) (Grows-refl P s.messages)

  bind-Grows :
      (s u : Store) (m : Exec Store A) (f : A → Exec Store (Unit {0}))
      → Chooses Q s (m u)
      → ((a : A) (t : Store) → SameTables s t → Q a → Grows P s.messages (f a t).1.messages)
      → Grows P s.messages ((m >>= f) u).1.messages
  unfolding Chooses ◌>>=◌
  bind-Grows s u m f h k = continue-Grows s (m u).0 (m u).1 f h.0 h.1 k

module _ (config : Config) (fails : ℕ → Bool) (fetch : Work → Result Answer) (now : ℕ)
    (trig : Trigger) (targets : List String) (s : Store) where
  IsChosen-Lasts : Lasts (IsChosen config trig targets s)
  IsChosen-Lasts m n k h =
      let (c, f) = ChainKept-some m n trig.chain_id trig.hop k.chain h.chain_id h.chain_hop in
      record {
        author = h.author;
        author_id = h.author_id ∙ sym k.author_id;
        fit = h.fit;
        mentioned = h.mentioned;
        unseen = h.unseen;
        thread_id = k.thread_id ∙ h.thread_id;
        reply_to = k.reply_to ∙ h.reply_to;
        triggered_by = k.triggered_by ∙ h.triggered_by;
        chain_id = c;
        chain_hop = f;
        within = h.within;
      }

  -- The agents that are not in the chain yet.
  abbrev unseen : List String
  unseen = keep_if (λ uuid. not (takes_part trig.chain_id s.messages uuid)) targets

  Admits-chosen :
      (agents : List Agent) (history : List (Role × Text)) (type : Option ThreadType)
      (names : List (Text × Text)) (rest : List Agent)
      → trig.hop ≤ config.max_chain_hops
      → AllFit config fails fetch now trig s unseen rest
      → Admits
          (IsChosen config trig targets s)
          IsChosen-Lasts
          fails
          fetch
          config.callback_token
          config.default_model
          now
          (chain_options config fails fetch now trig agents history type names)
          rest
  unfolding placeholder_row chain_options
  Admits-chosen agents history type names [] h k = tt
  Admits-chosen agents history type names (a ∷ rest) h k =
      let (asked, new) = keep_if-In _ a.id targets k.0.1 in
      (
        λ id seq. record {
          author = a;
          author_id = refl;
          fit = k.0.0;
          mentioned = asked;
          unseen = ground (arith, new);
          thread_id = refl;
          reply_to = refl;
          triggered_by = refl;
          chain_id = refl;
          chain_hop = refl;
          within = h;
        },
        Admits-chosen agents history type names rest h k.1,
      )

  dispatched-Grows :
      (agents : List Agent) (t : Store)
      → trig.hop ≤ config.max_chain_hops
      → SameTables s t
      → AllFit config fails fetch now trig s unseen agents
      → Grows
          (IsChosen config trig targets s)
          s.messages
          (dispatch_chain config fails fetch now trig agents t).1.messages
  dispatched-Grows agents t h e k =
      subst
        (λ (l : List Message).
          Grows (IsChosen config trig targets s) l
            (dispatch_chain config fails fetch now trig agents t).1.messages)
        e.messages
        ((dispatch_chain-Keeps (IsChosen config trig targets s) IsChosen-Lasts config fails fetch
            now trig agents
            (λ history type names. Admits-chosen agents history type names agents h k)).at
          t)

  extend_chain-Grows :
      (u : Store)
      → SameTables s u
      → trig.hop ≤ config.max_chain_hops
      → Grows
          (IsChosen config trig targets s)
          s.messages
          (extend_chain config fails fetch now trig targets u).1.messages
  unfolding extend_chain
  extend_chain-Grows u same h =
      bind-Grows (IsChosen config trig targets s)
        (λ (f : String → Bool). f ≡ takes_part trig.chain_id s.messages) s u _ _
        (select-Chooses _ s u same fails (λ t. takes_part trig.chain_id t.messages)
          (ap (takes_part trig.chain_id) same.messages))
        (λ seen t e q.
          bind-Grows (IsChosen config trig targets s) (AllFit config fails fetch now trig s unseen)
            s t _ _
            (subst
              (λ (f : String → Bool). Chooses (AllFit config fails fetch now trig s unseen) s (
                eligible_agents config fails fetch now trig (keep_if (λ uuid. not (f uuid)) targets)
                  t))
              (sym q) (eligible_agents-Chooses config fails fetch now trig s unseen t e))
            (λ agents v e' k. dispatched-Grows agents v h e' k))

  when-Grows :
      (b : Bool) (m : Exec Store (Unit {0})) (u : Store)
      → SameTables s u
      → (b ≡ true → Grows (IsChosen config trig targets s) s.messages (m u).1.messages)
      → Grows (IsChosen config trig targets s) s.messages (when b m u).1.messages
  unfolding when skip pure
  when-Grows true m u same h = h refl
  when-Grows false m u same h =
      subst (λ (l : List Message). Grows (IsChosen config trig targets s) s.messages l)
        (sym same.messages) (Grows-refl (IsChosen config trig targets s) s.messages)

  -- Whatever fails: every message that the mentions of a finished message add is that of an agent which is
  -- mentioned and has no complete or pending message in the chain, which runs, has a work token and no
  -- elevated scope, and has no pending message in the thread; it answers the message that mentions, and its
  -- hop, the next one, is within the budget.
  pub continue_chain-Grows :
      Grows
        (IsChosen config trig targets s)
        s.messages
        (continue_chain config fails fetch now trig targets s).1.messages
  unfolding continue_chain
  continue_chain-Grows = when-Grows _ _ s (SameTables-refl s) (λ h.
      bind-Grows (IsChosen config trig targets s) (λ (_ : Option ℕ). Unit {0}) s s _ _
        (select-Chooses _ s s (SameTables-refl s) fails (λ t. chain_start trig.chain_id t.messages)
          tt)
        (λ start t e _. when-Grows _ _ t e (λ _. extend_chain-Grows t e (leb→le _ _ h))))

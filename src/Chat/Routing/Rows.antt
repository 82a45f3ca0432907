-- ===== src/Chat/Routing/Rows.antt =====
-- Which agents take a message is found out without a change to `chat_messages`.
use hill90_app.Chat.Store.{Message, Agent, Thread}
use hill90_app.Chat.Threads.{Caller}
use hill90_app.Chat.Routing.{Text, load_agents, elevated_denied, is_busy, classify, targets_of}
use hill90_app.Chat.Kept.{Keeps, Lasts, Keeps-bind, Keeps-if, Keeps-pure, Keeps-select, Keeps-log}
use hill90_app.Prelude.{◌∷◌, [], String, ℕ, Bool, List}

module _ (P : Message → Type 0) (lasts : Lasts P) (fails : ℕ → Bool) where
  pub load_agents-Keeps : (uuids : List String) → Keeps P (load_agents fails uuids)
  unfolding load_agents
  load_agents-Keeps [] = Keeps-pure _
  load_agents-Keeps (uuid ∷ uuids) =
      Keeps-bind lasts (Keeps-select _ _)
        (λ found. Keeps-bind lasts (load_agents-Keeps uuids) (λ later. Keeps-pure _))

  pub elevated_denied-Keeps :
      (caller : Caller) (agents : List Agent) → Keeps P (elevated_denied fails caller agents)
  unfolding elevated_denied
  elevated_denied-Keeps caller [] = Keeps-pure _
  elevated_denied-Keeps caller (a ∷ rest) = Keeps-bind lasts (Keeps-select _ _) (λ scope.
      Keeps-if _ (Keeps-bind lasts (Keeps-log _) (λ _. Keeps-pure _))
        (elevated_denied-Keeps caller rest))

  is_busy-Keeps : (thread_id : String) (a : Agent) → Keeps P (is_busy fails thread_id a)
  unfolding is_busy
  is_busy-Keeps thread_id a = Keeps-if _ (Keeps-select _ _) (Keeps-pure _)

  pub classify-Keeps :
      (thread_id : String) (agents : List Agent) → Keeps P (classify fails thread_id agents)
  unfolding classify
  classify-Keeps thread_id [] = Keeps-pure _
  classify-Keeps thread_id (a ∷ rest) =
      Keeps-bind lasts (is_busy-Keeps thread_id a)
        (λ busy. Keeps-bind lasts (classify-Keeps thread_id rest) (λ later. Keeps-pure _))

  pub targets_of-Keeps :
      (thread : Thread) (slugs : List Text) (everyone : List String)
      → Keeps P (targets_of fails thread slugs everyone)
  unfolding targets_of
  targets_of-Keeps thread [] everyone = Keeps-pure _
  targets_of-Keeps thread (slug ∷ slugs) everyone =
      Keeps-bind lasts (Keeps-select _ _) (λ resolved. Keeps-pure _)

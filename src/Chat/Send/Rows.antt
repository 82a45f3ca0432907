-- ===== src/Chat/Send/Rows.antt =====
-- What sending a message does to `chat_messages`: it adds the user's message and placeholders that belong to
-- no chain.
use hill90_app.Chat.Store.{Message, Agent, Thread, Store, Role, Work, update_thread}
use hill90_app.Chat.Dispatch.{Answer, placeholder_row}
use hill90_app.Chat.Dispatch.Rows.{Admits, dispatch_to_agents-Keeps}
use hill90_app.Chat.Threads.{Caller}
use hill90_app.Chat.Threads.Rows.{allowed-Keeps, answer-Keeps}
use hill90_app.Chat.Routing.{Classified}
use hill90_app.Chat.Routing.Rows.{
  load_agents-Keeps, elevated_denied-Keeps, classify-Keeps, targets_of-Keeps,
}
use hill90_app.Chat.Send.{
  trim, is_empty, Text, SendRequest, user_row, send_options, insert_user_message, touch_thread,
  store_user_message, end_transaction, dispatch_message, dispatch_stored, send_classified,
  send_targeted, send_in_thread, send_checked, send_authorised, send_message,
}
use hill90_app.Chat.Kept.{
  Keeps, Grows, Lasts, Grows-refl, Keeps-bind, Keeps-if, Keeps-given, Keeps-pure, Keeps-select,
  Keeps-elsewhere, Keeps-insert_message,
}
use hill90_app.Prelude.{
  not, or_else, String, ℕ, ◌≡◌, refl, Bool, List, ◌∷◌, if-both, [], Option, none,
}
use hill90_app.Prelude.Exec.{ok, Result, thrown}

module _ (P : Message → Type 0) (lasts : Lasts P)
    (outside : (m : Message) → m.chain_hop ≡ none → P m) (fails : ℕ → Bool)
    (fetch : Work → Result Answer) (callback_token : Option Text) (default_model : Text)
    (now : ℕ) where
  insert_user_message-Keeps :
      (thread_id : String) (caller : Caller) (req : SendRequest) (content : Text)
      (targets : Option (List String))
      → Keeps P (
          insert_user_message fails fetch callback_token default_model now thread_id caller req
            content targets)
  unfolding insert_user_message
  insert_user_message-Keeps thread_id caller req content targets = record {
    at = λ s.
        if-both (λ (x : Result (ℕ × ℕ) × Store). Grows P s.messages x.1.messages) _ _ _
          (Grows-refl P s.messages)
          ((Keeps-insert_message {P = P} fails
              (user_row thread_id caller.sub req content targets now) (λ id seq. outside _ refl)).at
            s);
  }

  touch_thread-Keeps :
      (thread_id : String)
      → Keeps P (touch_thread fails fetch callback_token default_model now thread_id)
  unfolding touch_thread
  touch_thread-Keeps thread_id =
      Keeps-elsewhere fails
        (λ s. (
          tt,
          record s {
            threads = update_thread thread_id (λ t. record t { updated_at = now }) s.threads;
          },
        ))
        (λ s. refl)

  end_transaction-Grows :
      {A : Type 0} (s : Store) (r : Result A) (t : Store)
      → Grows P s.messages t.messages
      → Grows P s.messages (end_transaction s (r, t)).1.messages
  unfolding end_transaction
  end_transaction-Grows s (ok a) t h = h
  end_transaction-Grows s (thrown e) t h = Grows-refl P s.messages

  store_user_message-Keeps :
      (thread_id : String) (caller : Caller) (req : SendRequest) (content : Text)
      (targets : Option (List String))
      → Keeps P (
          store_user_message fails fetch callback_token default_model now thread_id caller req
            content targets)
  unfolding store_user_message
  store_user_message-Keeps thread_id caller req content targets = record {
    at = λ s. end_transaction-Grows s _ _ (
        (Keeps-bind lasts (insert_user_message-Keeps thread_id caller req content targets)
            (λ msg. Keeps-bind lasts (touch_thread-Keeps thread_id) (λ _. Keeps-pure _))).at
          s);
  }

  Admits-outside :
      (thread : Thread) (msg : ℕ × ℕ) (history : List (Role × Text)) (names : List (Text × Text))
      (agents rest : List Agent)
      → Admits P lasts fails fetch callback_token default_model now
          (send_options thread msg history names agents)
          rest
  unfolding placeholder_row send_options
  Admits-outside thread msg history names agents [] = tt
  Admits-outside thread msg history names agents (a ∷ rest) =
      (λ id seq. outside _ refl, Admits-outside thread msg history names agents rest)

  dispatch_message-Keeps :
      (thread : Thread) (msg : ℕ × ℕ) (history : List (Role × Text)) (names : List (Text × Text))
      (agents : List Agent) (skipped : List (String × String))
      → Keeps P (
          dispatch_message fails fetch callback_token default_model now thread msg history names
            agents skipped)
  unfolding dispatch_message send_options
  dispatch_message-Keeps thread msg history names agents skipped =
      Keeps-bind lasts
        (dispatch_to_agents-Keeps P lasts fails fetch callback_token default_model now
          (send_options thread msg history names agents)
          (Admits-outside thread msg history names agents agents))
        (λ d. Keeps-pure _)

  dispatch_stored-Keeps :
      (thread : Thread) (everyone : List String) (c : Classified) (msg : ℕ × ℕ)
      → Keeps P (dispatch_stored fails fetch callback_token default_model now thread everyone c msg)
  unfolding dispatch_stored
  dispatch_stored-Keeps thread everyone c msg = Keeps-bind lasts (Keeps-select _ _) (λ history.
      Keeps-bind lasts (Keeps-if _ (load_agents-Keeps P lasts fails everyone) (Keeps-pure _))
        (λ infos. Keeps-if _ (Keeps-pure _) (dispatch_message-Keeps thread msg _ _ _ _)))

  pub send_classified-Keeps :
      (thread : Thread) (caller : Caller) (req : SendRequest) (content : Text)
      (everyone : List String) (targets : Option (List String)) (c : Classified)
      → Keeps P (
          send_classified fails fetch callback_token default_model now thread caller req content
            everyone targets c)
  unfolding send_classified
  send_classified-Keeps thread caller req content everyone targets c = Keeps-if _ (Keeps-pure _) (
      Keeps-bind lasts (store_user_message-Keeps thread.id caller req content targets)
        (λ msg. dispatch_stored-Keeps thread everyone c msg))

  send_targeted-Keeps :
      (thread : Thread) (caller : Caller) (req : SendRequest) (content : Text)
      (everyone : List String) (targets : Option (List String)) (uuids : List String)
      → Keeps P (
          send_targeted fails fetch callback_token default_model now thread caller req content
            everyone targets uuids)
  unfolding send_targeted
  send_targeted-Keeps thread caller req content everyone targets uuids =
      Keeps-bind lasts (load_agents-Keeps P lasts fails uuids) (λ agents.
        Keeps-if _ (Keeps-pure _) (
          Keeps-bind lasts (elevated_denied-Keeps P lasts fails caller agents) (λ denied.
            Keeps-given _
              (Keeps-bind lasts (classify-Keeps P lasts fails thread.id agents)
                (λ c. send_classified-Keeps thread caller req content everyone targets c))
              (λ reply. Keeps-pure _))))

  send_in_thread-Keeps :
      (caller : Caller) (req : SendRequest) (content : Text) (thread : Thread)
      → Keeps P
          (send_in_thread fails fetch callback_token default_model now caller req content thread)
  unfolding send_in_thread
  send_in_thread-Keeps caller req content thread = Keeps-bind lasts (Keeps-select _ _) (λ everyone.
      Keeps-if _ (Keeps-pure _) (
        Keeps-bind lasts (targets_of-Keeps P lasts fails thread _ everyone) (λ targets.
          Keeps-given _ (Keeps-pure _)
            (λ uuids. send_targeted-Keeps thread caller req content everyone _ uuids))))

  send_checked-Keeps :
      (thread_id : String) (caller : Caller) (req : SendRequest) (content : Text)
      → Keeps P
          (send_checked fails fetch callback_token default_model now thread_id caller req content)
  unfolding send_checked
  send_checked-Keeps thread_id caller req content = Keeps-bind lasts (Keeps-select _ _) (λ found.
      Keeps-given _ (Keeps-pure _) (λ thread. send_in_thread-Keeps caller req content thread))

  send_authorised-Keeps :
      (thread_id : String) (caller : Caller) (req : SendRequest)
      → Keeps P (send_authorised fails fetch callback_token default_model now thread_id caller req)
  unfolding send_authorised
  send_authorised-Keeps thread_id caller req =
      Keeps-bind lasts (allowed-Keeps P lasts fails _ caller) (λ found.
        Keeps-if (not found) (Keeps-pure _) (
          Keeps-if (is_empty (trim (or_else req.message []))) (Keeps-pure _)
            (send_checked-Keeps thread_id caller req (trim (or_else req.message [])))))

  pub send_message-Keeps :
      (thread_id : String) (caller : Caller) (req : SendRequest)
      → Keeps P (send_message fails fetch callback_token default_model now thread_id caller req)
  unfolding send_message
  send_message-Keeps thread_id caller req =
      answer-Keeps P lasts fails "Failed to send message" _
        (send_authorised-Keeps thread_id caller req)

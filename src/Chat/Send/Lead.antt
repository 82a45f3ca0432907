-- ===== src/Chat/Send/Lead.antt =====
-- A message to a collaborative thread whose lead agent cannot take it.
use hill90_app.Chat.Store.{
  insert_message, update_thread, is_group, Thread, Work, find_agent, Store, Agent, statement, pure,
  ◌>>=◌,
}
use hill90_app.Chat.Routing.{Classified, history_of, load_agents}
use hill90_app.Prelude.{
  inr, inl, Bool-cases, ◌++◌, some, Option, true, ◌≡◌, refl, String, suc, List, given, [], false, ℕ,
  Bool, ◌∷◌,
}
use hill90_app.Prelude.Exec.{Result, ok}
use hill90_app.Chat.Working.{select_works}
use hill90_app.Chat.Dispatch.{Answer}
use hill90_app.Prelude.Text.{Text}
use hill90_app.Chat.Threads.{refused, is_empty, Caller}
use hill90_app.Chat.Send.{
  user_row, end_transaction, key_taken, touch_thread, only_lead, insert_user_message,
  store_user_message, dispatch_stored, SendRequest, send_classified,
}

module _ (fails : ℕ → Bool) (works : (n : ℕ) → fails n ≡ false) where
  -- Loading agents changes nothing but the count of statements.
  load_agents_works :
      (uuids : List String) (s : Store)
      → (agents : List Agent) × (n : ℕ) × (load_agents fails uuids s
          ≡ (ok agents, record s { queries = n }))
  unfolding load_agents pure ◌>>=◌
  load_agents_works [] s = ([], s.queries, refl)
  load_agents_works (uuid ∷ uuids) s =
      let (later, n, e) = load_agents_works uuids (record s { queries = suc s.queries }) in
      (
        given (find_agent uuid s.agents) later (λ a. a ∷ later),
        n,
        rw (select_works fails works (λ t. find_agent uuid t.agents) s, e) refl,
      )

module _ (fails : ℕ → Bool) (fetch : Work → Result Answer) (callback_token : Option Text)
    (default_model : Text) (now : ℕ) (works : (n : ℕ) → fails n ≡ false) where
  store_works :
      (thread_id : String) (caller : Caller) (req : SendRequest) (content : Text)
      (targets : Option (List String)) (s : Store)
      → key_taken thread_id caller.sub req.idempotency_key s.messages ≡ false
      → (u : Store) × (store_user_message fails fetch callback_token default_model now thread_id
            caller req content targets s
          ≡ (ok (s.next_id, s.next_seq), u))
        × (u.messages
            ≡ s.messages
              ++ user_row thread_id caller.sub req content targets now s.next_id s.next_seq ∷ [])
        × (u.sent ≡ s.sent)
  unfolding store_user_message insert_user_message touch_thread end_transaction statement
      insert_message pure ◌>>=◌
  store_works thread_id caller req content targets s h = (
    record s {
      messages =
          s.messages
          ++ user_row thread_id caller.sub req content targets now s.next_id s.next_seq ∷ [];
      threads = update_thread thread_id (λ t. record t { updated_at = now }) s.threads;
      next_id = suc s.next_id;
      next_seq = suc s.next_seq;
      queries = suc (suc s.queries);
    },
    rw (h, works s.queries, works (suc s.queries)) refl,
    refl,
    refl,
  )

  -- The names of the others are loaded, and nothing is sent.
  dispatch_stored_works :
      (thread : Thread) (lead : String) (everyone : List String) (c : Classified) (msg : ℕ × ℕ)
      (s : Store)
      → thread.lead_agent_id ≡ some lead
      → is_empty (only_lead (some lead) c.dispatchable) ≡ true
      → (n : ℕ) × (dispatch_stored fails fetch callback_token default_model now thread everyone c
            msg s
          ≡ (
            ok (refused 409 "Lead agent is not running or has a pending response"),
            record s { queries = n },
          ))
  unfolding dispatch_stored pure ◌>>=◌
  dispatch_stored_works thread lead everyone c msg s hl ho =
      let (infos, n, e) =
        load_agents_works fails works everyone (record s { queries = suc s.queries }) in
      elim (Bool-cases (is_group thread.type)) [
        | inl g ↦ (
          n,
          rw (select_works fails works (λ t. history_of thread.id t.messages) s, g, e, hl, ho) refl,
        )
        | inr g ↦ (
          suc s.queries,
          rw (select_works fails works (λ t. history_of thread.id t.messages) s, g, hl, ho) refl,
        )
      ]

  -- Where no statement fails, a message to a thread with a lead agent, whose lead cannot take it while another
  -- agent can, is refused as a conflict; and yet it is stored as sent, with nobody to answer it.
  pub send_classified-Stored :
      (thread : Thread) (lead : String) (caller : Caller) (req : SendRequest) (content : Text)
      (everyone : List String) (targets : Option (List String)) (c : Classified) (s : Store)
      → thread.lead_agent_id ≡ some lead
      → is_empty c.dispatchable ≡ false
      → is_empty (only_lead (some lead) c.dispatchable) ≡ true
      → key_taken thread.id caller.sub req.idempotency_key s.messages ≡ false
      → let (r, t) =
          send_classified fails fetch callback_token default_model now thread caller req content
            everyone targets c s in
        (r ≡ ok (refused 409 "Lead agent is not running or has a pending response"))
        × (t.messages
            ≡ s.messages
              ++ user_row thread.id caller.sub req content targets now s.next_id s.next_seq ∷ [])
        × (t.sent ≡ s.sent)
  unfolding send_classified ◌>>=◌
  send_classified-Stored thread lead caller req content everyone targets c s hl hd ho hk =
      let (u, stored, messages, sent) = store_works thread.id caller req content targets s hk in
      let (n, refusal) =
        dispatch_stored_works thread lead everyone c (s.next_id, s.next_seq) u hl ho in
      rw (hd, stored, refusal) (refl, messages, sent)

-- ===== src/Chat/Dispatch/Rows.antt =====
-- What a dispatch does to `chat_messages`: it adds a placeholder for each agent, and marks those that failed.
use hill90_app.Chat.Store.{is_open, Message, Agent, Store, Work, Status, pending}
use hill90_app.Chat.Dispatch.{
  given, work_of, refusal, same_status, Text, Answer, DispatchOptions, Dispatched, Placeholder,
  placeholder_row, is_placeholder, fail_with, create_placeholders, mark_error, not_configured,
  settle, send_placeholders, dispatch_to_agents,
}
use hill90_app.Chat.Kept.{
  Keeps, Grows, Lasts, IsKept, IsKept-open, Grows-refl, Grows-trans, Keeps-pure, Keeps-bind,
  Keeps-update_messages, Keeps-insert_message,
}
use hill90_app.Prelude.{
  given, none, some, arith, ℕ, Bool, true, ◌++◌, [], ◌≡◌, refl, All, List, inl, ◌∷◌, Option, map,
}
use hill90_app.Prelude.Exec.{Result}

pending_open : (s : Status) → same_status s pending ≡ true → is_open s ≡ true
pending_open pending h = refl
pending_open _ h = cc

is_placeholder-pending :
    (id : ℕ) (m : Message) → is_placeholder id m ≡ true → same_status m.status pending ≡ true
unfolding is_placeholder
is_placeholder-pending id m h = ground arith

-- A pending message may be failed.
pub fail_with-IsKept :
    (reason : Text) (m : Message) (n : ℕ)
    → same_status m.status pending ≡ true
    → IsKept m (record (fail_with reason m) { seq = n })
unfolding fail_with
fail_with-IsKept reason m n h =
    IsKept-open m _ (pending_open m.status h) refl refl refl refl refl refl refl refl
      (inl (refl, refl))

module _ (P : Message → Type 0) (lasts : Lasts P) (fails : ℕ → Bool) (fetch : Work → Result Answer)
    (callback_token : Option Text) (default_model : Text) (now : ℕ) where
  -- The rows that a dispatch may add have the property.
  abbrev pub Admits : DispatchOptions → List Agent → Type 0
  Admits opts agents =
      All (λ (a : Agent). (id seq : ℕ) → P (placeholder_row opts now a.id id seq)) agents

  Grows-given :
      {A : Type 0} (o : Option A) (s : Store) (x : Dispatched × Store) (f : A → Dispatched × Store)
      → Grows P s.messages x.1.messages
      → ((a : A) → Grows P s.messages (f a).1.messages)
      → Grows P s.messages (given o x f).1.messages
  unfolding given
  Grows-given none s x f h k = h
  Grows-given (some a) s x f h k = k a

  create_placeholders-Keeps :
      (opts : DispatchOptions) (agents : List Agent)
      → Admits opts agents
      → Keeps P (create_placeholders fails fetch callback_token default_model now opts agents)
  unfolding create_placeholders
  create_placeholders-Keeps opts [] h = Keeps-pure _
  create_placeholders-Keeps opts (a ∷ rest) h =
      Keeps-bind lasts (Keeps-insert_message fails (placeholder_row opts now a.id) h.0)
        (λ row. Keeps-bind lasts (create_placeholders-Keeps opts rest h.1) (λ later. Keeps-pure _))

  mark_error-Grows :
      (id : ℕ) (reason : Text) (s : Store)
      → Grows P s.messages
          (mark_error fails fetch callback_token default_model now id reason s).messages
  unfolding mark_error
  mark_error-Grows id reason s =
      (Keeps-update_messages {P = P} fails (is_placeholder id) (fail_with reason)
          (λ m h n. fail_with-IsKept reason m n (is_placeholder-pending id m h))).at
        s

  not_configured-Grows :
      (ps : List Placeholder) (d : Dispatched) (s : Store)
      → Grows P s.messages
          (not_configured fails fetch callback_token default_model now ps d s).1.messages
  unfolding not_configured
  not_configured-Grows [] d s = Grows-refl P s.messages
  not_configured-Grows (p ∷ ps) d s =
      Grows-trans P lasts s.messages _ _ (mark_error-Grows p.id _ s) (not_configured-Grows ps _ _)

  settle-Grows :
      (opts : DispatchOptions) (ps : List Placeholder) (d : Dispatched) (s : Store)
      → Grows P s.messages
          (settle fails fetch callback_token default_model now opts ps d s).1.messages
  unfolding settle
  settle-Grows opts [] d s = Grows-refl P s.messages
  settle-Grows opts (p ∷ ps) d s =
      Grows-given (refusal (fetch (work_of opts p))) s _ _ (settle-Grows opts ps _ s) (λ reason.
        Grows-trans P lasts s.messages _ _ (mark_error-Grows p.id _ s) (settle-Grows opts ps _ _))

  send_placeholders-Keeps :
      (opts : DispatchOptions) (ps : List Placeholder)
      → Keeps P (send_placeholders fails fetch callback_token default_model now opts ps)
  unfolding send_placeholders
  send_placeholders-Keeps opts ps = record {
    at = λ s.
        Grows-given callback_token s _ _ (not_configured-Grows ps _ s)
          (λ _. settle-Grows opts ps _ (record s { sent = s.sent ++ map (work_of opts) ps }));
  }

  pub dispatch_to_agents-Keeps :
      (opts : DispatchOptions)
      → Admits opts opts.agents
      → Keeps P (dispatch_to_agents fails fetch callback_token default_model now opts)
  unfolding dispatch_to_agents
  dispatch_to_agents-Keeps opts h =
      Keeps-bind lasts (create_placeholders-Keeps opts opts.agents h)
        (λ ps. send_placeholders-Keeps opts ps)

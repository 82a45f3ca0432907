-- ===== src/Chat/Callback/Rows.antt =====
-- What a callback does to `chat_messages`: it changes an open message, and lets the chain grow.
use hill90_app.Chat.Store.{Message, Thread, Store, Work, is_open, find_message}
use hill90_app.Chat.Dispatch.{Answer}
use hill90_app.Chat.Chain.{Config}
use hill90_app.Chat.Chain.Rows.{elevated_scope-Keeps, orchestrate-Keeps}
use hill90_app.Chat.Callback.{
  Text, is_status, is_authorized, touch, Body, Request, as_thinking, as_final, open_message,
  not_updated, touch_thread, thinking_callback, journal, append_journal, mark_batch, detect_batch,
  tag_author, tag_elevated, aftermath, final_callback, callback_body, chat_callback_handler,
}
use hill90_app.Chat.Kept.{
  IsKept-same, IsKept, Keeps, Lasts, IsKept-open, Grows-refl, Keeps-bind, Keeps-if, Keeps-given,
  Keeps-when, Keeps-attempt, Keeps-pure, Keeps-skip, Keeps-log, Keeps-select, Keeps-elsewhere,
  Keeps-update_messages,
}
use hill90_app.Prelude.{
  ◌≤◌, inl, is_some, ℕ, some, arith, true, ◌≡◌, Bool, List, refl, ◌==◌, none, Option,
}
use hill90_app.Prelude.Exec.{Result}

open_message-open : (id : ℕ) (m : Message) → open_message id m ≡ true → is_open m.status ≡ true
unfolding open_message
open_message-open id m h = ground arith

as_thinking-IsKept :
    (body : Body) (now : ℕ) (m : Message) (n : ℕ)
    → is_open m.status ≡ true
    → IsKept m (record (as_thinking body now m) { seq = n })
unfolding as_thinking
as_thinking-IsKept body now m n h =
    IsKept-open m _ h refl refl refl refl refl refl refl refl (inl (refl, refl))

as_final-IsKept :
    (body : Body) (now : ℕ) (m : Message) (n : ℕ)
    → is_open m.status ≡ true
    → IsKept m (record (as_final body now m) { seq = n })
unfolding as_final
as_final-IsKept body now m n h =
    IsKept-open m _ h refl refl refl refl refl refl refl refl (inl (refl, refl))

-- The end of a batch is noted on a message of any status.
batch_complete-IsKept :
    (m : Message) (n : ℕ) → IsKept m (record m { batch_complete = true; seq = n })
batch_complete-IsKept m n =
    IsKept-same m _
      (record {
        status = refl;
        content = refl;
        error_message = refl;
        model = refl;
        input_tokens = refl;
        output_tokens = refl;
        duration_ms = refl;
      })
      refl refl refl refl refl refl refl refl (inl (refl, refl))

module _ (P : Message → Type 0) (lasts : Lasts P) (config : Config)
    (within : (m : Message) (h : ℕ) → m.chain_hop ≡ some h → h ≤ config.max_chain_hops → P m)
    (fails : ℕ → Bool) (fetch : Work → Result Answer) (now : ℕ) where
  not_updated-Keeps : (id : ℕ) → Keeps P (not_updated config fails fetch now id)
  unfolding not_updated
  not_updated-Keeps id = Keeps-bind lasts (Keeps-select _ _) (λ found. Keeps-pure _)

  touch-messages :
      (title : List Message → Thread → Option Text) (found : Option Message) (s : Store)
      → (touch now title found s).messages ≡ s.messages
  unfolding touch
  touch-messages title none s = refl
  touch-messages title (some m) s = refl

  touch_thread-Keeps :
      (title : List Message → Thread → Option Text) (id : ℕ)
      → Keeps P (touch_thread config fails fetch now title id)
  unfolding touch_thread
  touch_thread-Keeps title id =
      Keeps-elsewhere fails (λ s. (tt, touch now title (find_message id s.messages) s))
        (λ s. touch-messages title (find_message id s.messages) s)

  thinking_callback-Keeps :
      (body : Body) (id : ℕ) → Keeps P (thinking_callback config fails fetch now body id)
  unfolding thinking_callback
  thinking_callback-Keeps body id =
      Keeps-bind lasts
        (Keeps-update_messages fails (open_message id) (as_thinking body now)
          (λ m h n. as_thinking-IsKept body now m n (open_message-open id m h)))
        (λ count.
          Keeps-if _ (not_updated-Keeps id)
            (Keeps-bind lasts (touch_thread-Keeps _ id) (λ _. Keeps-pure _)))

  journal-Keeps : (body : Body) (id : ℕ) → Keeps P (journal config fails fetch now body id)
  unfolding journal append_journal
  journal-Keeps body id =
      Keeps-bind lasts (Keeps-select _ _)
        (λ author. Keeps-given _ Keeps-skip (λ a. record { at = λ s. Grows-refl P s.messages }))

  mark_batch-Keeps : (id : ℕ) → Keeps P (mark_batch config fails fetch now id)
  unfolding mark_batch
  mark_batch-Keeps id =
      Keeps-bind lasts
        (Keeps-update_messages fails (λ m. m.id == id) (λ m. record m { batch_complete = true })
          (λ m h n. batch_complete-IsKept m n))
        (λ _. Keeps-skip)

  detect_batch-Keeps : (id : ℕ) → Keeps P (detect_batch config fails fetch now id)
  unfolding detect_batch
  detect_batch-Keeps id = Keeps-bind lasts (Keeps-select _ _) (λ batch.
      Keeps-given batch Keeps-skip (λ reply_to.
        Keeps-bind lasts (Keeps-select _ _) (λ done. Keeps-when _ (λ _. mark_batch-Keeps id))))

  tag_author-Keeps : (id : ℕ) (m : Message) → Keeps P (tag_author config fails fetch now id m)
  unfolding tag_author
  tag_author-Keeps id m =
      Keeps-bind lasts (elevated_scope-Keeps P lasts config within fails fetch now m.author_id)
        (λ scope. Keeps-given _ Keeps-skip (λ sc. Keeps-log _))

  tag_elevated-Keeps : (id : ℕ) → Keeps P (tag_elevated config fails fetch now id)
  unfolding tag_elevated
  tag_elevated-Keeps id =
      Keeps-bind lasts (Keeps-select _ _)
        (λ found. Keeps-given _ Keeps-skip (λ m. Keeps-when _ (λ _. tag_author-Keeps id m)))

  aftermath-Keeps : (body : Body) (id : ℕ) → Keeps P (aftermath config fails fetch now body id)
  unfolding aftermath
  aftermath-Keeps body id =
      Keeps-bind lasts (Keeps-when _ (λ _. Keeps-attempt (journal-Keeps body id))) (λ _.
        Keeps-bind lasts (Keeps-attempt (detect_batch-Keeps id)) (λ _.
          Keeps-bind lasts (Keeps-attempt (tag_elevated-Keeps id)) (λ _. Keeps-when _ (λ _.
            Keeps-attempt
              (orchestrate-Keeps P lasts config within fails fetch now id body.content)))))

  final_callback-Keeps :
      (body : Body) (id : ℕ) → Keeps P (final_callback config fails fetch now body id)
  unfolding final_callback
  final_callback-Keeps body id =
      Keeps-bind lasts
        (Keeps-update_messages fails (open_message id) (as_final body now)
          (λ m h n. as_final-IsKept body now m n (open_message-open id m h)))
        (λ count. Keeps-if _ (not_updated-Keeps id) (
          Keeps-bind lasts (touch_thread-Keeps _ id)
            (λ _. Keeps-bind lasts (aftermath-Keeps body id) (λ _. Keeps-pure _))))

  callback_body-Keeps : (body : Body) → Keeps P (callback_body config fails fetch now body)
  unfolding callback_body
  callback_body-Keeps body = Keeps-given body.message_id (Keeps-pure _) (λ id.
      Keeps-if (is_some body.idempotency_key) (Keeps-pure _) (
        Keeps-if (is_status "thinking" body.status) (thinking_callback-Keeps body id)
          (final_callback-Keeps body id)))

  pub chat_callback_handler-Keeps :
      (req : Request) → Keeps P (chat_callback_handler config fails fetch now req)
  unfolding chat_callback_handler
  chat_callback_handler-Keeps req = Keeps-given config.callback_token (Keeps-pure _) (λ token.
      Keeps-if (is_authorized token req.authorization) (callback_body-Keeps req.body)
        (Keeps-pure _))

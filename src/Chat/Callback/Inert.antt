-- ===== src/Chat/Callback/Inert.antt =====
-- Callbacks that change nothing: without the token, without a message, or for one that is terminal.
use hill90_app.Chat.Store.{
  Message, Store, Work, statement, pure, ◌>>=◌, find_message, update_rows, count_rows,
  update_messages,
}
use hill90_app.Chat.Dispatch.{Answer}
use hill90_app.Chat.Chain.{Config}
use hill90_app.Chat.Callback.{
  Text, is_status, is_authorized, Exec, Body, Request, Reply, refused, updated, open_message,
  as_thinking, as_final, not_updated, thinking_callback, final_callback, callback_body,
  chat_callback_handler,
}
use hill90_app.Prelude.{
  inl, inr, ◌⊎◌, is_some, String, if◌then◌else◌, subst, refl, suc, false, true, [], ℕ, All, given,
  Option, none, Bool, some, List, ◌∷◌, arith, ◌≡◌, ap,
}
use hill90_app.Prelude.Exec.{thrown, Result, ok}
use hill90_app.Chat.Working.{select_works}

-- No row with the identifier is open.
abbrev pub IsClosed : Option ℕ → List Message → Type 0
IsClosed none ms = Unit
IsClosed (some id) ms = All (λ (m : Message). open_message id m ≡ false) ms

-- The answer is a refusal, or that nothing was updated.
abbrev pub Declined : Result Reply → Type 0
Declined (ok (refused status message)) = Unit
Declined (ok (updated false)) = Unit
Declined (ok (updated true)) = ⊥
Declined (thrown e) = ⊥

-- The request does not carry the configured token.
abbrev pub IsUnauthorized : Option Text → Request → Type 0
IsUnauthorized none req = Unit
IsUnauthorized (some token) req = is_authorized token req.authorization ≡ false

-- Nothing but the count of statements is another.
abbrev pub Inert : Store → Result Reply × Store → Type 0
Inert s (r, t) = Declined r × (t ≡ record s { queries = t.queries })

update_rows-none :
    (sel : Message → Bool) (f : Message → Message) (n : ℕ) (ms : List Message)
    → All (λ (m : Message). sel m ≡ false) ms
    → update_rows sel f n ms ≡ ms
unfolding update_rows
update_rows-none sel f n [] h = refl
update_rows-none sel f n (m ∷ ms) h =
    rw h.0 (ap (λ (l : List Message). m ∷ l) (update_rows-none sel f n ms h.1))

count_rows-none :
    (sel : Message → Bool) (ms : List Message)
    → All (λ (m : Message). sel m ≡ false) ms
    → count_rows sel ms ≡ 0
unfolding count_rows
count_rows-none sel [] h = refl
count_rows-none sel (m ∷ ms) h = rw h.0 (omega (arith, count_rows-none sel ms h.1))

update_messages-none :
    (sel : Message → Bool) (f : Message → Message) (s : Store)
    → All (λ (m : Message). sel m ≡ false) s.messages
    → update_messages sel f s ≡ (0, s)
unfolding update_messages
update_messages-none sel f s h =
    ground (arith, update_rows-none sel f s.next_seq s.messages h, count_rows-none sel s.messages h)

Inert-if :
    (b : Bool) (m n : Exec Store Reply) (s : Store)
    → Inert s (m s)
    → Inert s (n s)
    → Inert s ((if b then m else n) s)
Inert-if true m n s h k = h
Inert-if false m n s h k = k

Inert-given :
    {A : Type 0} (o : Option A) (m : Exec Store Reply) (f : A → Exec Store Reply) (s : Store)
    → Inert s (m s)
    → ((a : A) → o ≡ some a → Inert s (f a s))
    → Inert s (given o m f s)
unfolding given
Inert-given none m f s h k = h
Inert-given (some a) m f s h k = k a refl

Inert-refused :
    (status : ℕ) (message : String) (s : Store) → Inert s (pure (refused status message) s)
unfolding pure
Inert-refused status message s = (tt, refl)

module _ (config : Config) (fails : ℕ → Bool) (fetch : Work → Result Answer) (now : ℕ)
    (works : (n : ℕ) → fails n ≡ false) where
  update_works :
      (sel : Message → Bool) (f : Message → Message) (s : Store)
      → All (λ (m : Message). sel m ≡ false) s.messages
      → statement fails (update_messages sel f) s ≡ (ok 0, record s { queries = suc s.queries })
  unfolding statement
  update_works sel f s h = rw (works s.queries) (
      ap (λ (x : ℕ × Store). (ok x.0, x.1))
        (update_messages-none sel f (record s { queries = suc s.queries }) h))

  declined :
      (found : Option Message)
      → Declined (ok (given found (refused 404 "unknown_message") (λ _. updated false)))
  unfolding given
  declined none = tt
  declined (some m) = tt

  not_updated-Inert : (id : ℕ) (s : Store) → Inert s (not_updated config fails fetch now id s)
  unfolding not_updated pure ◌>>=◌
  not_updated-Inert id s =
      rw (select_works fails works (λ t. find_message id t.messages) s)
        (declined (find_message id s.messages), refl)

  -- An update that finds no open row.
  after_none :
      (id : ℕ) (sel : Message → Bool) (f : Message → Message) (later : ℕ → Exec Store Reply)
      (s : Store)
      → All (λ (m : Message). sel m ≡ false) s.messages
      → later 0 ≡ not_updated config fails fetch now id
      → Inert s ((statement fails (update_messages sel f) >>= later) s)
  unfolding ◌>>=◌
  after_none id sel f later s h e =
      rw (update_works sel f s h, e)
        (let (d, p) = not_updated-Inert id (record s { queries = suc s.queries }) in (d, p))

  thinking_callback-Inert :
      (body : Body) (id : ℕ) (s : Store)
      → IsClosed (some id) s.messages
      → Inert s (thinking_callback config fails fetch now body id s)
  unfolding thinking_callback
  thinking_callback-Inert body id s h =
      after_none id (open_message id) (as_thinking body now) _ s h refl

  final_callback-Inert :
      (body : Body) (id : ℕ) (s : Store)
      → IsClosed (some id) s.messages
      → Inert s (final_callback config fails fetch now body id s)
  unfolding final_callback
  final_callback-Inert body id s h = after_none id (open_message id) (as_final body now) _ s h refl

  callback_body-Inert :
      (body : Body) (s : Store)
      → IsClosed body.message_id s.messages
      → Inert s (callback_body config fails fetch now body s)
  unfolding callback_body
  callback_body-Inert body s h = Inert-given body.message_id _ _ s (Inert-refused 400 _ s) (λ id e.
      let closed = subst (λ (o : Option ℕ). IsClosed o s.messages) e h in
      Inert-if (is_some body.idempotency_key) _ _ s (Inert-refused 400 _ s) (
        Inert-if (is_status "thinking" body.status) _ _ s (thinking_callback-Inert body id s closed)
          (final_callback-Inert body id s closed)))

  -- Where no statement fails, a callback that does not carry the token, or that names no message or one that is
  -- terminal or not there, is declined, and changes nothing but the count of statements.
  pub chat_callback_handler-Inert :
      (req : Request) (s : Store)
      → IsClosed req.body.message_id s.messages ⊎ IsUnauthorized config.callback_token req
      → Inert s (chat_callback_handler config fails fetch now req s)
  unfolding chat_callback_handler
  chat_callback_handler-Inert req s h =
      Inert-given config.callback_token _ _ s (Inert-refused 503 _ s) (λ token e. elim h [
        | inl closed ↦
            Inert-if (is_authorized token req.authorization) _ _ s
              (callback_body-Inert req.body s closed) (Inert-refused 401 _ s)
        | inr unauthorized ↦
            rw (subst (λ (o : Option Text). IsUnauthorized o req) e unauthorized)
              (Inert-refused 401 "unauthorized" s)
      ])

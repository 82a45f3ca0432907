-- ===== src/Chat/Threads.antt =====
-- services/api/src/routes/chat.ts: what its handlers share, and POST /threads/:id/cancel. An exception that leaves
-- a handler becomes its 500. Who may call at all is the gate `requireRole('user')`.
pub mod Rows
pub mod Cancelled
use hill90_app.Chat.Store.{
  pure, ◌>>=◌, Participant, Store, pending, by_agent, same_status, statement, select,
  update_messages,
}
use hill90_app.Chat.Dispatch.{fail_with}
use hill90_app.Prelude.{
  true, if◌then◌else◌, some, List, ◌∷◌, Option, ◌&&◌, false, none, ℕ, String, is_some, not, Bool,
  str_eq, any, [],
}
use hill90_app.Prelude.Exec.{Result, Exec, ok, thrown}
use hill90_app.Prelude.Text.{codes, Text}

-- What a response says.
pub data Reply : Type 0 where
  refused : ℕ → String → Reply
  cancelled : ℕ → Reply
  participants : List Participant → Reply
  -- the identifier and `seq` of the user's message, and the three arrays
  sent : ℕ × ℕ → List (String × ℕ) → List (String × String) → List (String × ℕ × String) → Reply

pub record Caller : Type 0 where
  pub sub : String
  pub admin : Bool

-- The rows of `isParticipant` and of `isThreadOwner`.
unfoldable pub participant_row : String → Caller → Participant → Bool
participant_row thread_id caller p =
    str_eq p.thread_id thread_id
    && str_eq p.participant_id caller.sub
    && not (by_agent p.participant_type)
    && not (is_some p.left_at)

unfoldable pub owner_row : String → Caller → Participant → Bool
owner_row thread_id caller p =
    str_eq p.thread_id thread_id
    && str_eq p.participant_id caller.sub
    && not (by_agent p.participant_type)
    && p.is_owner

-- A token that is there and not empty.
unfoldable pub has_token : Option Text → Bool
has_token none = false
has_token (some []) = false
has_token (some (c ∷ s)) = true

unfoldable pub is_empty : {A : Type 0} → List A → Bool
is_empty [] = true
is_empty (x ∷ xs) = false

-- A unique index refuses an idempotency key that the author has used in the thread.
reply_of : String → Result Reply → Reply
reply_of message (ok reply) = reply
reply_of message (thrown e) =
    if str_eq e "idempotency"
    then refused 409 "Duplicate message (idempotency key already used)"
    else refused 500 message

module _ (fails : ℕ → Bool) where
  -- The caller is an admin, or the query finds a row of theirs.
  unfoldable pub allowed : (Participant → Bool) → Caller → Exec Store Bool
  allowed row caller =
      if caller.admin then (pure true) else select fails (λ s. any row s.participants)

  -- The `catch` of a handler.
  unfoldable pub answer : String → Exec Store Reply → Exec Store Reply
  unfolding reply_of
  answer message handler s = (ok (reply_of message (handler s).0), (handler s).1)

  cancel_rows : String → Exec Store Reply
  unfolding update_messages fail_with
  cancel_rows thread_id = do
    count ← statement fails (
        update_messages (λ m. str_eq m.thread_id thread_id && same_status m.status pending)
          (fail_with (codes "Cancelled by user")))
    pure (cancelled count)

  -- POST /threads/:id/cancel
  pub cancel : String → Caller → Exec Store Reply
  unfolding participant_row
  cancel thread_id caller = answer "Failed to cancel messages" (do
    found ← allowed (participant_row thread_id caller) caller
    if found then cancel_rows thread_id else pure (refused 404 "Thread not found"))

-- ===== src/Chat/Threads/Rows.antt =====
-- What the shared steps of the handlers and a cancellation do to `chat_messages`.
use hill90_app.Chat.Store.{
  Message, Store, Participant, statement, update_messages, same_status, pending,
}
use hill90_app.Chat.Dispatch.{fail_with}
use hill90_app.Chat.Dispatch.Rows.{fail_with-IsKept}
use hill90_app.Chat.Threads.{Text, Exec, codes, Caller, Reply, allowed, answer, cancel, cancel_rows}
use hill90_app.Chat.Kept.{
  Keeps, Lasts, Keeps-bind, Keeps-if, Keeps-pure, Keeps-select, Keeps-update_messages,
}
use hill90_app.Prelude.{true, Bool, ◌&&◌, arith, ℕ, str_eq, ◌≡◌, String}

-- A pending row that a condition selects may be failed.
pub fail_pending :
    (P : Message → Type 0) (fails : ℕ → Bool) (sel : Message → Bool) (reason : Text)
    → ((m : Message) → sel m ≡ true → same_status m.status pending ≡ true)
    → Keeps P (statement fails (update_messages sel (fail_with reason)))
fail_pending P fails sel reason h =
    Keeps-update_messages {P = P} fails sel (fail_with reason)
      (λ m e n. fail_with-IsKept reason m n (h m e))

module _ (P : Message → Type 0) (lasts : Lasts P) (fails : ℕ → Bool) where
  pub allowed-Keeps :
      (row : Participant → Bool) (caller : Caller) → Keeps P (allowed fails row caller)
  unfolding allowed
  allowed-Keeps row caller = Keeps-if _ (Keeps-pure _) (Keeps-select _ _)

  pub answer-Keeps :
      (message : String) (handler : Exec Store Reply)
      → Keeps P handler
      → Keeps P (answer fails message handler)
  unfolding answer
  answer-Keeps message handler h = record { at = h.at }

  cancel_rows-Keeps : (thread_id : String) → Keeps P (cancel_rows fails thread_id)
  unfolding cancel_rows
  cancel_rows-Keeps thread_id =
      Keeps-bind lasts
        (fail_pending P fails (λ m. str_eq m.thread_id thread_id && same_status m.status pending)
          (codes "Cancelled by user") (λ m e. ground arith))
        (λ count. Keeps-pure _)

  pub cancel-Keeps :
      (thread_id : String) (caller : Caller) → Keeps P (cancel fails thread_id caller)
  unfolding cancel
  cancel-Keeps thread_id caller = answer-Keeps "Failed to cancel messages" _ (
      Keeps-bind lasts (allowed-Keeps _ caller)
        (λ found. Keeps-if _ (cancel_rows-Keeps thread_id) (Keeps-pure _)))

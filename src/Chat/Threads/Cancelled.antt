-- ===== src/Chat/Threads/Cancelled.antt =====
-- What a cancellation reaches: the messages that are pending, and no others.
use hill90_app.Chat.Store.{
  Message, Store, pending, thinking, same_status, statement, update_rows, update_messages, pure,
  ◌>>=◌,
}
use hill90_app.Chat.Dispatch.{fail_with}
use hill90_app.Chat.Threads.{
  codes, answer, Text, Caller, participant_row, allowed, cancel_rows, cancel,
}
use hill90_app.Prelude.{
  if◌then◌else◌, inl, suc, ◌&&◌, List, Bool-cases, ℕ, ◌≡◌, true, All, false, Bool, In, arith, inr,
  String, ◌∙◌, ◌∷◌, str_eq, sym, [], ap,
}
use hill90_app.Prelude.Exec.{ok}

-- `WHERE thread_id = $1 AND status = 'pending'`
pub pending_in : String → Message → Bool
pending_in thread_id m = str_eq m.thread_id thread_id && same_status m.status pending

failed :
    (reason : Text) (thread_id : String) (m : Message) (n : ℕ)
    → pending_in thread_id (record (fail_with reason m) { seq = n }) ≡ false
unfolding pending_in fail_with
failed reason thread_id m n = ground arith

thinking_out :
    (thread_id : String) (m : Message) → m.status ≡ thinking → pending_in thread_id m ≡ false
unfolding pending_in
thinking_out thread_id m e = ground arith

module _ (reason : Text) (thread_id : String) where
  update_rows-settled :
      (n : ℕ) (ms : List Message)
      → All
          (λ (m : Message). pending_in thread_id m ≡ false)
          (update_rows (pending_in thread_id) (fail_with reason) n ms)
  unfolding update_rows
  update_rows-settled n [] = tt
  update_rows-settled n (m ∷ ms) = elim (Bool-cases (pending_in thread_id m)) [
    | inl e ↦ rw e (failed reason thread_id m n, update_rows-settled (suc n) ms)
    | inr e ↦ rw e (e, update_rows-settled n ms)
  ]

  update_rows-thinking :
      (ms : List Message) (n : ℕ) (m : Message)
      → m.status ≡ thinking
      → In m ms
      → In m (update_rows (pending_in thread_id) (fail_with reason) n ms)
  unfolding update_rows
  update_rows-thinking [] n m t i = elim i [ ]
  update_rows-thinking (x ∷ xs) n m t (inl e) =
      rw (thinking_out thread_id x (ap (λ (r : Message). r.status) (sym e) ∙ t)) (inl e)
  update_rows-thinking (x ∷ xs) n m t (inr i) =
      inr (update_rows-thinking xs (if pending_in thread_id x then suc n else n) m t i)

module _ (fails : ℕ → Bool) (thread_id : String) (caller : Caller) where
  cancel-messages :
      (s : Store) (u : Store)
      → allowed fails (participant_row thread_id caller) caller s ≡ (ok true, u)
      → fails u.queries ≡ false
      → (cancel fails thread_id caller s).1.messages
        ≡ update_rows
            (pending_in thread_id)
            (fail_with (codes "Cancelled by user"))
            u.next_seq
            u.messages
  unfolding cancel answer cancel_rows statement update_messages pure ◌>>=◌ pending_in
  cancel-messages s u h k = rw h (ground arith)

  -- A cancellation by one who may cancel, whose statement does not fail, leaves no pending message in the
  -- thread; but a message whose agent has reported that it is thinking stays as it is, open.
  pub cancel-thinking :
      (s : Store) (u : Store) (m : Message)
      → allowed fails (participant_row thread_id caller) caller s ≡ (ok true, u)
      → fails u.queries ≡ false
      → m.status ≡ thinking
      → In m u.messages
      → All
          (λ (x : Message). pending_in thread_id x ≡ false)
          (cancel fails thread_id caller s).1.messages
        × In m (cancel fails thread_id caller s).1.messages
  cancel-thinking s u m h k t i = rw (cancel-messages s u h k) (
    update_rows-settled (codes "Cancelled by user") thread_id u.next_seq u.messages,
    update_rows-thinking (codes "Cancelled by user") thread_id u.messages u.next_seq m t i,
  )

-- ===== src/Chat/Membership/Rows.antt =====
-- What a change of a thread's participants does to `chat_messages`: it fails pending messages of the agents
-- that leave.
use hill90_app.Chat.Store.{Message, update_thread, by_agent, same_status, pending}
use hill90_app.Chat.Threads.{Caller}
use hill90_app.Chat.Threads.Rows.{fail_pending, allowed-Keeps, answer-Keeps}
use hill90_app.Chat.Membership.{
  codes, Changes, rejoin, leave, promote, denied, insert_all, promote_thread, add_agents,
  remove_agents, change_members, update_participants,
}
use hill90_app.Chat.Kept.{
  Keeps, Lasts, Keeps-bind, Keeps-if, Keeps-given, Keeps-when, Keeps-pure, Keeps-skip, Keeps-log,
  Keeps-select, Keeps-elsewhere,
}
use hill90_app.Prelude.{[], refl, String, ◌∷◌, ◌&&◌, arith, List, ℕ, Bool, str_eq}

module _ (P : Message → Type 0) (lasts : Lasts P) (fails : ℕ → Bool) (now : ℕ) where
  denied-Keeps : (caller : Caller) (uuids : List String) → Keeps P (denied fails now caller uuids)
  unfolding denied
  denied-Keeps caller [] = Keeps-pure _
  denied-Keeps caller (uuid ∷ uuids) = Keeps-bind lasts (Keeps-select _ _) (λ scope.
      Keeps-if _ (Keeps-bind lasts (Keeps-log _) (λ _. Keeps-pure _)) (denied-Keeps caller uuids))

  insert_all-Keeps :
      (thread_id : String) (uuids : List String) → Keeps P (insert_all fails now thread_id uuids)
  unfolding insert_all
  insert_all-Keeps thread_id [] = Keeps-skip
  insert_all-Keeps thread_id (uuid ∷ uuids) =
      Keeps-bind lasts
        (Keeps-elsewhere fails
          (λ s. (tt, record s { participants = rejoin thread_id uuid s.participants })) (λ s. refl))
        (λ _. insert_all-Keeps thread_id uuids)

  promote_thread-Keeps : (thread_id : String) → Keeps P (promote_thread fails now thread_id)
  unfolding promote_thread
  promote_thread-Keeps thread_id = Keeps-bind lasts (Keeps-select _ _) (λ agents. Keeps-when _ (λ _.
      Keeps-elsewhere fails
        (λ s. (tt, record s { threads = update_thread thread_id promote s.threads })) (λ s. refl)))

  add_agents-Keeps :
      (thread_id : String) (caller : Caller) (ids : List String)
      → Keeps P (add_agents fails now thread_id caller ids)
  unfolding add_agents
  add_agents-Keeps thread_id caller ids = Keeps-bind lasts (Keeps-select _ _) (λ current.
      Keeps-if _ (Keeps-pure _) (
        Keeps-bind lasts (denied-Keeps caller ids) (λ refusal.
          Keeps-given _
            (Keeps-bind lasts (insert_all-Keeps thread_id ids)
              (λ _. Keeps-bind lasts (promote_thread-Keeps thread_id) (λ _. Keeps-pure _)))
            (λ reply. Keeps-pure _))))

  remove_agents-Keeps :
      (thread_id : String) (uuids : List String) → Keeps P (remove_agents fails now thread_id uuids)
  unfolding remove_agents
  remove_agents-Keeps thread_id [] = Keeps-skip
  remove_agents-Keeps thread_id (uuid ∷ uuids) =
      Keeps-bind lasts
        (fail_pending P fails
          (λ m.
            str_eq m.thread_id thread_id
            && str_eq m.author_id uuid
            && by_agent m.author_type
            && same_status m.status pending)
          (codes "Agent removed from thread") (λ m e. ground arith))
        (λ _.
          Keeps-bind lasts
            (Keeps-elsewhere fails
              (λ s. (tt, record s { participants = leave thread_id uuid now s.participants }))
              (λ s. refl))
            (λ _. remove_agents-Keeps thread_id uuids))

  change_members-Keeps :
      (thread_id : String) (caller : Caller) (changes : Changes)
      → Keeps P (change_members fails now thread_id caller changes)
  unfolding change_members
  change_members-Keeps thread_id caller changes =
      Keeps-bind lasts (Keeps-given _ (Keeps-pure _) (λ ids. add_agents-Keeps thread_id caller ids))
        (λ refusal.
          Keeps-given _
            (Keeps-bind lasts (remove_agents-Keeps thread_id _)
              (λ _. Keeps-bind lasts (Keeps-select _ _) (λ rows. Keeps-pure _)))
            (λ reply. Keeps-pure _))

  pub update_participants-Keeps :
      (thread_id : String) (caller : Caller) (changes : Changes)
      → Keeps P (update_participants fails now thread_id caller changes)
  unfolding update_participants
  update_participants-Keeps thread_id caller changes =
      answer-Keeps P lasts fails "Failed to update participants" _ (
        Keeps-bind lasts (allowed-Keeps P lasts fails _ caller)
          (λ owner. Keeps-if _ (change_members-Keeps thread_id caller changes) (Keeps-pure _)))

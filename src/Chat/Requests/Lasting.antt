-- ===== src/Chat/Requests/Lasting.antt =====
-- No request loses a message or rewrites one that is terminal, and no chain passes its budget of hops.
use hill90_app.Chat.Store.{Message, Store, Work}
use hill90_app.Chat.Dispatch.{Answer}
use hill90_app.Chat.Chain.{Config}
use hill90_app.Chat.Requests.{
  Event, Occasion, send, cancel_pending, change, callback, sweep_round, handle, run,
}
use hill90_app.Chat.Kept.{Grows, Lasts, ChainKept, Grows-refl, Grows-trans}
use hill90_app.Chat.Threads.Rows.{cancel-Keeps}
use hill90_app.Chat.Send.Rows.{send_message-Keeps}
use hill90_app.Chat.Membership.Rows.{update_participants-Keeps}
use hill90_app.Chat.Callback.Rows.{chat_callback_handler-Keeps}
use hill90_app.Chat.Sweep.Rows.{sweep-Grows}
use hill90_app.Prelude.{
  inr, Option, arith, sym, some, inl, ◌≤◌, [], subst, ◌≡◌, List, or_else, ℕ, none, Bool, ◌∷◌,
}
use hill90_app.Prelude.Exec.{Result}

-- The hop of a message in its chain is within the budget.
abbrev pub HopWithin : ℕ → Message → Type 0
HopWithin budget m = or_else m.chain_hop 0 ≤ budget

HopWithin-kept :
    (budget : ℕ) (m n : Message) → ChainKept m n → HopWithin budget m → HopWithin budget n
HopWithin-kept budget m n (inl (a, b)) h = subst (λ (o : Option ℕ). or_else o 0 ≤ budget) (sym b) h
HopWithin-kept budget m n (inr (a, b)) h =
    subst (λ (o : Option ℕ). or_else o 0 ≤ budget) (sym b) (omega arith)

HopWithin-Lasts : (budget : ℕ) → Lasts (HopWithin budget)
HopWithin-Lasts budget m n k h = HopWithin-kept budget m n k.chain h

HopWithin-outside : (budget : ℕ) (m : Message) → m.chain_hop ≡ none → HopWithin budget m
HopWithin-outside budget m e = subst (λ (o : Option ℕ). or_else o 0 ≤ budget) (sym e) (omega arith)

HopWithin-within :
    (budget : ℕ) (m : Message) (h : ℕ) → m.chain_hop ≡ some h → h ≤ budget → HopWithin budget m
HopWithin-within budget m h e le = subst (λ (o : Option ℕ). or_else o 0 ≤ budget) (sym e) le

module _ (config : Config) where
  handle-Grows :
      (now : ℕ) (fails : ℕ → Bool) (fetch : Work → Result Answer) (event : Event) (s : Store)
      → Grows
          (HopWithin config.max_chain_hops)
          s.messages
          (handle config now fails fetch event s).messages
  unfolding handle
  handle-Grows now fails fetch (send thread_id caller req) s =
      (send_message-Keeps (HopWithin config.max_chain_hops) (HopWithin-Lasts config.max_chain_hops)
          (HopWithin-outside config.max_chain_hops) fails fetch config.callback_token
          config.default_model now thread_id caller req).at
        s
  handle-Grows now fails fetch (cancel_pending thread_id caller) s =
      (cancel-Keeps (HopWithin config.max_chain_hops) (HopWithin-Lasts config.max_chain_hops) fails
          thread_id caller).at
        s
  handle-Grows now fails fetch (change thread_id caller changes) s =
      (update_participants-Keeps (HopWithin config.max_chain_hops)
          (HopWithin-Lasts config.max_chain_hops) fails now thread_id caller changes).at
        s
  handle-Grows now fails fetch (callback req) s =
      (chat_callback_handler-Keeps (HopWithin config.max_chain_hops)
          (HopWithin-Lasts config.max_chain_hops) config (HopWithin-within config.max_chain_hops)
          fails fetch now req).at
        s
  handle-Grows now fails fetch sweep_round s =
      sweep-Grows (HopWithin config.max_chain_hops) fails now s

  -- Whatever messages are sent and cancelled, whatever agents report, join, leave or mention, whichever
  -- statements fail and whenever the sweeper comes: no message is lost, and each keeps its author, its
  -- thread and what it replies to. A message that is complete or has failed keeps what it says. Messages
  -- that are new stay within the budget of hops of their chain.
  pub run-Grows :
      (os : List Occasion) (s : Store)
      → Grows (HopWithin config.max_chain_hops) s.messages (run config os s).messages
  unfolding run
  run-Grows [] s = Grows-refl (HopWithin config.max_chain_hops) s.messages
  run-Grows (o ∷ os) s =
      Grows-trans (HopWithin config.max_chain_hops) (HopWithin-Lasts config.max_chain_hops)
        s.messages _ _ (handle-Grows o.now o.fails o.fetch o.event s)
        (run-Grows os (handle config o.now o.fails o.fetch o.event s))

-- ===== src/Chat/Requests.antt =====
-- The requests that reach the messages of routes/chat.ts, one after the other: each brings the instant, which
-- statements of its run fail, and what agents answer.
pub mod Lasting
use hill90_app.Chat.Store.{Store, Work}
use hill90_app.Chat.Dispatch.{Answer}
use hill90_app.Chat.Threads.{Caller, cancel}
use hill90_app.Chat.Send.{SendRequest, send_message}
use hill90_app.Chat.Membership.{Changes, update_participants}
use hill90_app.Chat.Chain.{Config}
use hill90_app.Chat.Callback
use hill90_app.Chat.Callback.{chat_callback_handler}
use hill90_app.Chat.Sweep.{sweep}
use hill90_app.Prelude.{ℕ, ◌∷◌, Bool, [], List, String}
use hill90_app.Prelude.Exec.{Result}

pub data Event : Type 0 where
  send : String → Caller → SendRequest → Event
  cancel_pending : String → Caller → Event
  change : String → Caller → Changes → Event
  callback : Callback.Request → Event
  sweep_round : Event

pub record Occasion : Type 0 where
  pub now : ℕ
  pub fails : ℕ → Bool
  pub fetch : Work → Result Answer
  pub event : Event

module _ (config : Config) (now : ℕ) (fails : ℕ → Bool) (fetch : Work → Result Answer) where
  pub handle : Event → Store → Store
  handle (send thread_id caller req) s =
      (send_message fails fetch config.callback_token config.default_model now thread_id caller req
        s).1
  handle (cancel_pending thread_id caller) s = (cancel fails thread_id caller s).1
  handle (change thread_id caller changes) s =
      (update_participants fails now thread_id caller changes s).1
  handle (callback req) s = (chat_callback_handler config fails fetch now req s).1
  handle sweep_round s = sweep fails now s

pub run : Config → List Occasion → Store → Store
unfolding handle
run config [] s = s
run config (o ∷ os) s = run config os (handle config o.now o.fails o.fetch o.event s)

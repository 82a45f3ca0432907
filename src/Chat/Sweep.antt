-- ===== src/Chat/Sweep.antt =====
-- services/api/src/routes/chat.ts, `startStaleSweeper`: one round of the interval, which ends the messages
-- whose final callback does not come.
pub mod Rows
use hill90_app.Chat.Store.{Message, Store, error, is_open, statement, update_messages}
use hill90_app.Prelude.{◌*◌, ℕ, Bool, some, ◌&&◌, ltb, ◌+◌}
use hill90_app.Prelude.Text.{codes}

abbrev pub stale_timeout_ms : ℕ
stale_timeout_ms = 2 * 60 * 1000

-- `status IN ('pending', 'thinking') AND updated_at < NOW() - INTERVAL '2 minutes'`
pub is_stale : ℕ → Message → Bool
is_stale now m = is_open m.status && ltb (m.updated_at + stale_timeout_ms) now

pub give_up : ℕ → Message → Message
give_up now m = record m {
  status = error;
  error_message = some (codes "No response received within 2 minutes");
  updated_at = now;
}

-- An error of the statement is only logged.
pub sweep : (ℕ → Bool) → ℕ → Store → Store
unfolding statement update_messages is_stale give_up
sweep fails now s = (statement fails (update_messages (is_stale now) (give_up now)) s).1

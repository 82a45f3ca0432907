-- ===== src/Chat/Working.antt =====
-- Statements of routes/chat.ts's handlers, where none fails.
use hill90_app.Chat.Store.{Store, statement, select}
use hill90_app.Prelude.{ℕ, false, suc, ◌≡◌, Bool, refl}
use hill90_app.Prelude.Exec.{ok}

module _ (fails : ℕ → Bool) (works : (n : ℕ) → fails n ≡ false) where
  pub select_works :
      {A : Type 0} (f : Store → A) (s : Store)
      → select fails f s
        ≡ (ok (f (record s { queries = suc s.queries })), record s { queries = suc s.queries })
  unfolding select statement
  select_works f s = rw (works s.queries) refl

  pub statement_works :
      {A : Type 0} (f : Store → A × Store) (s : Store)
      → statement fails f s ≡ (
        ok (f (record s { queries = suc s.queries })).0,
        (f (record s { queries = suc s.queries })).1,
      )
  unfolding statement
  statement_works f s = rw (works s.queries) refl

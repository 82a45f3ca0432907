-- ===== src/Chat/Sweep/Rows.antt =====
-- What a round of the sweeper does to `chat_messages`.
use hill90_app.Chat.Store.{Message, Store, is_open, statement, update_rows, update_messages}
use hill90_app.Chat.Sweep.{stale_timeout_ms, is_stale, give_up, sweep}
use hill90_app.Chat.Kept.{IsKept, Grows, IsKept-open, Keeps-update_messages}
use hill90_app.Prelude.{
  ◌⊎◌, List, Bool-cases, true, arith, inr, suc, ◌≤◌, false, ◌+◌, ◌≡◌, ℕ, [], inl, ◌∷◌, Bool, All,
  refl,
}

is_stale-open : (now : ℕ) (m : Message) → is_stale now m ≡ true → is_open m.status ≡ true
unfolding is_stale
is_stale-open now m h = ground arith

give_up-IsKept :
    (now : ℕ) (m : Message) (n : ℕ)
    → is_open m.status ≡ true
    → IsKept m (record (give_up now m) { seq = n })
unfolding give_up
give_up-IsKept now m n h =
    IsKept-open m _ h refl refl refl refl refl refl refl refl (inl (refl, refl))

module _ (P : Message → Type 0) (fails : ℕ → Bool) where
  pub sweep-Grows : (now : ℕ) (s : Store) → Grows P s.messages (sweep fails now s).messages
  unfolding sweep
  sweep-Grows now s =
      (Keeps-update_messages {P = P} fails (is_stale now) (give_up now)
          (λ m h n. give_up-IsKept now m n (is_stale-open now m h))).at
        s

-- A message is terminal, or has been heard of in the last two minutes.
abbrev pub IsHeard : ℕ → Message → Type 0
IsHeard now m = (is_open m.status ≡ false) ⊎ (now ≤ m.updated_at + stale_timeout_ms)

give_up-IsHeard : (now : ℕ) (m : Message) (n : ℕ) → IsHeard now (record (give_up now m) { seq = n })
unfolding give_up
give_up-IsHeard now m n = inl refl

not_stale-IsHeard : (now : ℕ) (m : Message) → is_stale now m ≡ false → IsHeard now m
unfolding is_stale
not_stale-IsHeard now m h = elim (Bool-cases (is_open m.status)) [
  | inl e ↦ inr (ground arith)
  | inr e ↦ inl e
]

update_rows-IsHeard :
    (now n : ℕ) (ms : List Message)
    → All (IsHeard now) (update_rows (is_stale now) (give_up now) n ms)
unfolding update_rows
update_rows-IsHeard now n [] = tt
update_rows-IsHeard now n (m ∷ ms) = elim (Bool-cases (is_stale now m)) [
  | inl e ↦ rw e (give_up-IsHeard now m n, update_rows-IsHeard now (suc n) ms)
  | inr e ↦ rw e (not_stale-IsHeard now m e, update_rows-IsHeard now n ms)
]

module _ (fails : ℕ → Bool) (now : ℕ) (s : Store) (works : fails s.queries ≡ false) where
  sweep-messages :
      (sweep fails now s).messages ≡ update_rows (is_stale now) (give_up now) s.next_seq s.messages
  unfolding sweep statement update_messages
  sweep-messages = ground arith

  -- After a round of the sweeper whose statement does not fail, each message, be it pending or thinking
  -- before, is terminal or has been heard of in the last two minutes.
  pub sweep-IsHeard : All (IsHeard now) (sweep fails now s).messages
  sweep-IsHeard = rw sweep-messages (update_rows-IsHeard now s.next_seq s.messages)

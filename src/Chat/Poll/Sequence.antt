-- ===== src/Chat/Poll/Sequence.antt =====
-- Messages by `seq`: what a client has been sent, and the rows of a query.
use hill90_app.Chat.Poll.{
  Message, Frame, backfill, message, delayed, overflow, Stream, Env, newer, backfill_tail, page_of,
}
use hill90_app.Prelude.{
  ap, true, ◌<◌, inl, ltb→lt, ltb, zero, [], drop, inr, ℕ, ◌≤◌, ◌≡◌, refl, List, ◌++◌, Bool-cases,
  arith, suc, ◌∷◌,
}

-- The messages that the client has been sent, by `seq`.
unfoldable pub sent : List Frame → List ℕ
sent [] = []
sent (message m ∷ fs) = m.seq ∷ sent fs
sent (backfill n ∷ fs) = sent fs
sent (delayed ∷ fs) = sent fs
sent (overflow ∷ fs) = sent fs

pub sent-append : (fs gs : List Frame) → sent (fs ++ gs) ≡ sent fs ++ sent gs
unfolding sent
sent-append [] gs = refl
sent-append (message m ∷ fs) gs = ap (λ l. m.seq ∷ l) (sent-append fs gs)
sent-append (backfill n ∷ fs) gs = sent-append fs gs
sent-append (delayed ∷ fs) gs = sent-append fs gs
sent-append (overflow ∷ fs) gs = sent-append fs gs

-- Strictly increasing, above `lo` and at most `hi`.
abbrev pub Within : ℕ → ℕ → List ℕ → Type 0
Within lo hi [] = lo ≤ hi
Within lo hi (n ∷ ns) = (lo < n) × Within n hi ns

pub Within-append :
    (lo mid hi : ℕ) (xs ys : List ℕ) → Within lo mid xs → Within mid hi ys → Within lo hi (xs ++ ys)
Within-append lo mid hi [] [] h k = omega arith
Within-append lo mid hi [] (y ∷ ys) h k = (omega arith, k.1)
Within-append lo mid hi (x ∷ xs) ys h k = (h.0, Within-append x mid hi xs ys h.1 k)

-- The rows of a query, by `seq`.
abbrev pub Ascending : ℕ → List Message → Type 0
Ascending k [] = Unit {0}
Ascending k (m ∷ ms) = (k < m.seq) × Ascending m.seq ms

Ascending-weaken : (j k : ℕ) (ms : List Message) → j ≤ k → Ascending k ms → Ascending j ms
Ascending-weaken j k [] h a = tt
Ascending-weaken j k (m ∷ ms) h a = (omega arith, a.1)

-- Above the cursor nothing is left out.
pub newer-whole :
    (cursor k : ℕ) (ms : List Message) → cursor ≤ k → Ascending k ms → newer cursor ms ≡ ms
unfolding newer
newer-whole cursor k [] h a = refl
newer-whole cursor k (m ∷ ms) h a =
    ground (arith, a.0, newer-whole cursor m.seq ms (omega arith) a.1)

pub newer-Ascending :
    (cursor k : ℕ) (ms : List Message) → Ascending k ms → Ascending cursor (newer cursor ms)
unfolding newer
newer-Ascending cursor k [] a = tt
newer-Ascending cursor k (m ∷ ms) a = elim (Bool-cases (ltb cursor m.seq)) [
  | inl e ↦ rw e (ltb→lt cursor m.seq e, rw (newer-whole cursor m.seq ms (below e) a.1) a.1)
  | inr e ↦ rw e (newer-Ascending cursor m.seq ms a.1)
]
  where
    below : ltb cursor m.seq ≡ true → cursor ≤ m.seq
    below e = omega (arith, ltb→lt cursor m.seq e)

drop-Ascending : (n k : ℕ) (ms : List Message) → Ascending k ms → Ascending k (drop n ms)
drop-Ascending zero k ms a = a
drop-Ascending (suc n) k [] a = tt
drop-Ascending (suc n) k (m ∷ ms) a =
    Ascending-weaken k m.seq (drop n ms) (omega arith) (drop-Ascending n m.seq ms a.1)

pub page_of-Ascending :
    (env : Env) (st : Stream) → Ascending 0 env.messages → Ascending st.cursor (page_of env st)
unfolding page_of backfill_tail
page_of-Ascending env st a = elim (Bool-cases st.is_backfill) [
  | inl e ↦ rw e (drop-Ascending _ st.cursor _ (newer-Ascending st.cursor 0 env.messages a))
  | inr e ↦ rw e (newer-Ascending st.cursor 0 env.messages a)
]

pub Within-weaken : (lo mid hi : ℕ) (xs : List ℕ) → mid ≤ hi → Within lo mid xs → Within lo hi xs
Within-weaken lo mid hi [] h k = omega arith
Within-weaken lo mid hi (x ∷ xs) h k = (k.0, Within-weaken x mid hi xs h k.1)

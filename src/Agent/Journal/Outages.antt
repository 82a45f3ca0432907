-- ===== src/Agent/Journal/Outages.antt =====
-- The notices of an agent against the runs of failures in its own history.
use hill90_app.Prelude.{
  ℕ, ◌+◌, ◌≡◌, refl, Bool, true, false, ◌&&◌, Option, none, some, List, [], ◌∷◌, ◌++◌, String,
  str_eq, eq_iff, eq_refl, sym, ap, arith, Bool-cases, inl, inr, leb, if◌then◌else◌,
}
use hill90_app.Agent.Journal.{
  Streak, Notice, notice_of, next_streak, Journal, no_gaps, has_owner, record_journal_failure,
  record_journal_success, Append, failed, worked, run_appends, persistent_after,
}
use hill90_app.Stream.PollSignal.{Tick, failure, success}
use hill90_app.Stream.PollSignal.Outages.{failure_runs, count_long}

-- What an agent's own appends came to.
pub ticks_of : String → List Append → List Tick
ticks_of a [] = []
ticks_of a (failed slug owner reason ∷ es) =
    let rest = ticks_of a es in if str_eq slug a then failure ∷ rest else rest
ticks_of a (worked slug ∷ es) =
    let rest = ticks_of a es in if str_eq slug a then success ∷ rest else rest

pub notices_to : String → List Notice → ℕ
notices_to a [] = 0
notices_to a (n ∷ ns) = (if str_eq n.agent_slug a then 1 else 0) + notices_to a ns

-- Every failure comes with the agent's owner.
unfoldable pub all_owned : List Append → Bool
all_owned [] = true
all_owned (failed slug owner reason ∷ es) = has_owner owner && all_owned es
all_owned (worked slug ∷ es) = all_owned es

notices_to-append :
    (a : String) (ms ns : List Notice) → notices_to a (ms ++ ns) ≡ notices_to a ms + notices_to a ns
unfolding notices_to
notices_to-append a [] ns = omega arith
notices_to-append a (m ∷ ms) ns = ground (arith, notices_to-append a ms ns)

told : Option Streak → Bool
told none = false
told (some s) = s.notified

length_of : Option Streak → ℕ
length_of none = 0
length_of (some s) = s.count

-- One failure, for its own agent and for another one.
failure_own :
    (a : String) (owner : Option String) (reason : String) (j : Journal)
    → has_owner owner ≡ true
    → told (j.streaks a) ≡ leb persistent_after (length_of (j.streaks a))
    → let k = record_journal_failure a owner reason j in
      (length_of (k.streaks a) ≡ length_of (j.streaks a) + 1)
      × (told (k.streaks a) ≡ leb persistent_after (length_of (k.streaks a)))
      × (notices_to a k.notices + (if told (j.streaks a) then 1 else 0)
          ≡ notices_to a j.notices + (if told (k.streaks a) then 1 else 0))
unfolding record_journal_failure notices_to told length_of
failure_own a owner reason j owned h = ground (
  arith,
  owned,
  h,
  eq_refl a,
  notices_to-append a j.notices (notice_of a owner reason (next_streak reason (j.streaks a)) ∷ []),
)

failure_other :
    (a slug : String) (owner : Option String) (reason : String) (j : Journal)
    → str_eq slug a ≡ false
    → let k = record_journal_failure slug owner reason j in
      (k.streaks a ≡ j.streaks a) × (notices_to a k.notices ≡ notices_to a j.notices)
unfolding record_journal_failure notices_to
failure_other a slug owner reason j other = ground (
  arith,
  other,
  notices_to-append a j.notices
      (notice_of slug owner reason (next_streak reason (j.streaks slug)) ∷ []),
)

and_split : (x y : Bool) → (x && y) ≡ true → (x ≡ true) × (y ≡ true)
and_split x y h = ground (arith, h)

run_appends-notices :
    (a : String) (es : List Append) (j : Journal)
    → all_owned es ≡ true
    → told (j.streaks a) ≡ leb persistent_after (length_of (j.streaks a))
    → notices_to a (run_appends es j).notices + (if told (j.streaks a) then 1 else 0)
      ≡ notices_to a j.notices
        + count_long persistent_after (failure_runs (length_of (j.streaks a)) (ticks_of a es))
unfolding run_appends all_owned ticks_of told length_of failure_runs count_long
    record_journal_success
run_appends-notices a [] j owned h = ground (arith, h)
run_appends-notices a (failed slug owner reason ∷ es) j owned h =
    elim (Bool-cases (str_eq slug a)) [
      | inr e ↦
          let k = record_journal_failure slug owner reason j in
          let (same, quiet) = failure_other a slug owner reason j e in
          let later =
            run_appends-notices a es k (and_split (has_owner owner) (all_owned es) owned).1
              (rw same h) in
          rw e (rw (sym same) (rw (sym quiet) later))
      | inl e ↦
          let k = record_journal_failure a owner reason j in
          let (longer, told_now, count) =
            failure_own a owner reason j (and_split (has_owner owner) (all_owned es) owned).0 h in
          let later =
            run_appends-notices a es k (and_split (has_owner owner) (all_owned es) owned).1
              told_now in
          rw ((eq_iff slug a).0 e) (
            rw (eq_refl a) (
              omega (
                arith,
                later,
                count,
                ap (λ n. count_long persistent_after (failure_runs n (ticks_of a es))) longer,
              )))
    ]
run_appends-notices a (worked slug ∷ es) j owned h =
    ground (arith, h, run_appends-notices a es (record_journal_success slug j) owned)

-- If every failure comes with the agent's owner, the owner is told exactly once for each run of at
-- least three consecutive failures of the agent's own appends, whatever other agents do, and for no
-- shorter run.
pub run_appends-count_long :
    (a : String) (es : List Append)
    → all_owned es ≡ true
    → notices_to a (run_appends es no_gaps).notices
      ≡ count_long persistent_after (failure_runs 0 (ticks_of a es))
run_appends-count_long a es owned =
    let h = run_appends-notices a es no_gaps owned (unfold told in unfold length_of in refl) in
    unfold told in unfold length_of in unfold notices_to in ground (arith, h)

-- ===== src/Agent/Journal.antt =====
-- services/api/src/services/journal-gaps.ts: consecutive failures of an agent's journal, and the one
-- notice to its owner. The map of streaks is a function; the instant of the first failure is only
-- printed, and is left out.
pub mod Outages
use hill90_app.Prelude.{
  ℕ, suc, ◌+◌, Bool, true, false, Option, none, some, List, [], ◌∷◌, ◌++◌, String, str_eq, leb, not,
  ◌&&◌, if◌then◌else◌,
}

abbrev pub persistent_after : ℕ
persistent_after = 3

pub record Streak : Type 0 where
  pub count : ℕ
  pub reason : String
  pub notified : Bool

-- A call of `notify`.
pub record Notice : Type 0 where
  pub owner_sub : String
  pub agent_slug : String
  pub consecutive_failures : ℕ
  pub reason : String

pub record Journal : Type 0 where
  pub streaks : String → Option Streak
  pub notices : List Notice

abbrev pub no_gaps : Journal
no_gaps = record { streaks = λ slug. none; notices = [] }

-- `Map.set` and `Map.delete`
abbrev pub put : String → Option Streak → (String → Option Streak) → String → Option Streak
put slug streak m = λ j. if str_eq slug j then streak else m j

pub next_streak : String → Option Streak → Streak
next_streak reason none = record { count = 1; reason = reason; notified = false }
next_streak reason (some prev) = record prev { count = prev.count + 1; reason = reason }

-- `ownerSub` is truthy.
unfoldable pub has_owner : Option String → Bool
has_owner none = false
has_owner (some owner) = not (str_eq owner "")

pub name_of : Option String → String
name_of none = ""
name_of (some owner) = owner

abbrev pub notice_of : String → Option String → String → Streak → Notice
notice_of slug owner reason streak = record {
  owner_sub = name_of owner;
  agent_slug = slug;
  consecutive_failures = streak.count;
  reason = reason;
}

pub record_journal_failure : String → Option String → String → Journal → Journal
unfolding next_streak has_owner name_of
record_journal_failure slug owner reason j =
    let streak = next_streak reason (j.streaks slug) in
    if leb persistent_after streak.count && not streak.notified && has_owner owner
    then record {
      streaks = put slug (some (record streak { notified = true })) j.streaks;
      notices = j.notices ++ notice_of slug owner reason streak ∷ [];
    }
    else record j { streaks = put slug (some streak) j.streaks }

pub record_journal_success : String → Journal → Journal
record_journal_success slug j = record j { streaks = put slug none j.streaks }

pub journal_streak : String → Journal → ℕ
journal_streak slug j = elim (j.streaks slug) [ none ↦ 0 | some s ↦ s.count ]

pub data Append : Type 0 where
  failed : String → Option String → String → Append
  worked : String → Append

pub run_appends : List Append → Journal → Journal
unfolding record_journal_failure record_journal_success
run_appends [] j = j
run_appends (failed slug owner reason ∷ es) j =
    run_appends es (record_journal_failure slug owner reason j)
run_appends (worked slug ∷ es) j = run_appends es (record_journal_success slug j)

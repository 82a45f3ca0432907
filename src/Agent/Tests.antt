-- ===== src/Agent/Tests.antt =====
-- A fleet of three agents at one pass, and single rows at a few rounds.
use hill90_app.Prelude.{
  true, ℕ, ◌≡◌, ◌≢◌, refl, Bool, false, Option, none, some, List, [], ◌∷◌, String, str_eq, map,
  differ, ◌==◌, if◌then◌else◌, All,
}
use hill90_app.Prelude.Exec.{Result, ok, thrown}
use hill90_app.Agent.Reconcile.{
  Row, Container, ReconcileResult, already_observed_not_running, is_running, decide, unchanged,
  patch_of,
}
use hill90_app.Agent.Update.{settle}
use hill90_app.Agent.Settling.{settle_twice}
use hill90_app.Agent.Verification.{reported_status, initial}
use hill90_app.Agent.Verification.History.{
  replay, vouched, pass, failure, operation, reported_status-vouched, Happening,
}
use hill90_app.Agent.World.{World, Session}
use hill90_app.Agent.Pass.{run_reconcile_pass, close_sessions_for_stopped_agents, close_session}
use hill90_app.Agent.Pass.Tables.{Distinct}
use hill90_app.Agent.Pass.Outcome.{IsComplete, run_reconcile_pass-IsComplete}
use hill90_app.Agent.Pass.Sweeps.{Swept, close_sessions-Swept}
use hill90_app.Agent.Tools.{ToolsConfig, default_tools_config, merge_tools_configs}
use hill90_app.Agent.Tools.Permissions.{Binaries, IsJoin, merge_tools_configs-IsJoin}
use hill90_app.Agent.Journal.{
  has_owner, Append, failed, worked, run_appends, no_gaps, persistent_after,
}
use hill90_app.Agent.Journal.Outages.{all_owned, ticks_of, notices_to, run_appends-count_long}
use hill90_app.Stream.PollSignal.Outages.{count_long, failure_runs}

abbrev web_row : Row
web_row = record {
  id = "1";
  agent_id = "web";
  status = "running";
  container_id = some "c1";
  container_state = some "exited";
  created_by = "ann";
  error_message = none;
  container_finished_at = none;
  model_router_exp = some 4;
}

abbrev job_row : Row
job_row = record {
  id = "2";
  agent_id = "job";
  status = "stopped";
  container_id = none;
  container_state = none;
  created_by = "bob";
  error_message = some "Container exited";
  container_finished_at = none;
  model_router_exp = none;
}

abbrev bot_row : Row
bot_row = record {
  id = "3";
  agent_id = "bot";
  status = "running";
  container_id = some "c3";
  container_state = some "running";
  created_by = "bob";
  error_message = none;
  container_finished_at = none;
  model_router_exp = some 4;
}

abbrev exited_container : Container
exited_container = record { status = "exited"; container_id = "c1"; finished_at = some 3000 }

abbrev up_container : Container
up_container = record { status = "running"; container_id = "c2"; finished_at = none }

-- The daemon knows `web`, which exited, and `job`, which runs; it does not answer for `bot`.
abbrev daemon : String → Result (Option Container)
daemon a =
    if str_eq a "web"
    then ok (some exited_container)
    else if str_eq a "job"
    then ok (some up_container)
    else thrown "timeout"

-- The third statement fails.
abbrev third_fails : ℕ → Bool
third_fails n = n == 2

abbrev web_session : Session
web_session = record { agent_id = "1"; stopped_at = none; stopped_at_estimated = false }

abbrev fleet : World
fleet = record {
  agents = web_row ∷ job_row ∷ bot_row ∷ [];
  sessions = web_session ∷ [];
  history = [];
  notices = [];
  verification = initial;
  escalated = [];
  patched = [];
  queries = 0;
}

abbrev counts : ReconcileResult
counts = record { checked = 3; reconciled = 2; promoted = 1; demoted = 1; unverified = "bot" ∷ [] }

fleet-Distinct : Distinct fleet.agents
fleet-Distinct = (((differ refl), ((differ refl), tt)), (((differ refl), tt), (tt, tt)))

fleet-counts : (run_reconcile_pass third_fails 5000 daemon fleet).0 ≡ some counts
unfolding run_reconcile_pass
fleet-counts = refl

run_reconcile_pass-IsComplete_example :
    IsComplete third_fails daemon fleet counts (run_reconcile_pass third_fails 5000 daemon fleet).1
run_reconcile_pass-IsComplete_example =
    run_reconcile_pass-IsComplete third_fails daemon 5000 fleet counts fleet-Distinct fleet-counts

web_row_lost : (settle web_row (ok (some exited_container))).status ≢ "running"
unfolding settle decide patch_of
web_row_lost = differ refl

settle_twice_example :
    (str_eq
        (settle (settle job_row (ok (some up_container))) (ok (some up_container))).status
        "running"
      ≡ is_running (some up_container))
    × (decide
          (settle (settle job_row (ok (some up_container))) (ok (some up_container)))
          (ok (some up_container))
        ≡ unchanged)
settle_twice_example = settle_twice job_row (some up_container)

bot_row_fresh : already_observed_not_running bot_row ≡ false
unfolding already_observed_not_running
bot_row_fresh = refl

abbrev happenings : List Happening
happenings = operation "bot" ∷ pass ("bot" ∷ []) ∷ failure ∷ []

reported_status-vouched_example : reported_status "bot" "running" (replay happenings) ≡ "running"
unfolding vouched
reported_status-vouched_example = reported_status-vouched "bot" "running" happenings

abbrev downed : World
downed = record fleet {
  agents = record web_row { status = "stopped"; container_finished_at = some 3000 } ∷ [];
}

close_sessions-Swept_example :
    let after = (close_sessions_for_stopped_agents third_fails 5000 downed).sessions in
    (after ≡ map (close_session third_fails 5000 downed.agents) downed.sessions)
    × All (Swept third_fails 5000 downed.agents) downed.sessions
    × (map (close_session third_fails 5000 downed.agents) after ≡ after)
close_sessions-Swept_example = close_sessions-Swept third_fails 5000 downed refl

abbrev git_skill : ToolsConfig
git_skill = record default_tools_config {
  shell = record {
    enabled = true;
    allowed_binaries = "git" ∷ "git" ∷ [];
    denied_patterns = "rm" ∷ [];
    max_timeout = 60;
  };
}

merge_tools_configs-IsJoin_example :
    let cs = git_skill ∷ git_skill ∷ default_tools_config ∷ [] in
    IsJoin (merge_tools_configs cs) cs × ((b : String) → Binaries (merge_tools_configs cs) cs b)
merge_tools_configs-IsJoin_example =
    merge_tools_configs-IsJoin git_skill (git_skill ∷ default_tools_config ∷ [])

abbrev bot_failed : Append
bot_failed = failed "bot" (some "bob") "refused"

abbrev appends : List Append
appends = bot_failed ∷ bot_failed ∷ worked "web" ∷ bot_failed ∷ bot_failed ∷ worked "bot" ∷ []

appends-owned : all_owned appends ≡ true
unfolding all_owned has_owner
appends-owned = refl

run_appends-count_long_example :
    notices_to "bot" (run_appends appends no_gaps).notices
    ≡ count_long persistent_after (failure_runs 0 (ticks_of "bot" appends))
run_appends-count_long_example = run_appends-count_long "bot" appends appends-owned

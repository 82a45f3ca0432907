-- ===== src/Router/Refresh.antt =====
-- services/api/src/services/model-router-refresh.ts (`modelRouterRefreshHandler`) and
-- model-router-revoke.ts: an agent renews its token with the secret that came with the last one.
-- The handler is cut at its queries: `identify` before the first, `look_up` and `rotate` after it.
-- Logging to the console is left out.
pub mod Authorised
pub mod Rotation
pub mod Superseded
pub mod Races
pub mod Chain
use hill90_app.Access.Auth.{bearer}
use hill90_app.Router.Token.{
  Claims, Crypto, Config, Draw, TokenOptions, TokenResult, generate_agent_model_router_token,
  verify_model_router_token, is_model_router_configured,
}
use hill90_app.Prelude.Exec.{Result, ok, thrown, Exec}
use hill90_app.Prelude.Text.{Text, starts_with}
use hill90_app.Prelude.{
  ℕ, if◌then◌else◌, String, not, some, or_else, drop, [], true, ◌+◌, ◌∷◌, length, Bool, List, ◌&&◌,
  Option, ◌++◌, ◌||◌, none, str_eq, false,
}

-- The columns of `agents` that the handler reads or writes, less `updated_at`.
pub record AgentRow : Type 0 where
  pub id : String
  pub agent_id : String
  pub status : String
  pub created_by : String
  pub model_router_jti : Option String
  pub model_router_exp : Option ℕ
  pub model_router_refresh_hash : Option String

-- A revocation that the AI service has accepted.
pub record Revocation : Type 0 where
  pub jti : String
  pub agent_id : String
  pub expires_at : ℕ

-- The entries of the audit log, each with the agent and the token it names.
pub data AuditEntry : Type 0 where
  token_revoked token_revoke_failed : String → String → AuditEntry

pub record World : Type 0 where
  pub agents : List AgentRow
  pub revocations : List Revocation
  pub audit_log : List AuditEntry

-- A secret that is no string is `none`.
pub record Request : Type 0 where
  pub refresh_secret : Option String
  pub authorization : Option Text

-- What a run of the handler meets: the mint's draw, and how its two queries and its call of the AI
-- service end.
pub record Run : Type 0 where
  pub draw : Draw
  pub select : Result (Unit {0})
  pub update : Result (Unit {0})
  pub revoke : Result (Unit {0})

-- `failed` is a rejected promise.
pub data Reply : Type 0 where
  refused : ℕ → String → Reply
  failed : String → Reply
  renewed : Text → String → ℕ → Reply

pub data Identity : Type 0 where
  rejected : ℕ → String → Identity
  claimed : String → String → Identity

-- A string that is there and not empty.
unfoldable pub truthy : Option String → Option String
truthy none = none
truthy (some s) = if str_eq s "" then none else some s

identify_claims : String → Result Claims → Identity
unfolding truthy
identify_claims secret (thrown e) = rejected 401 "invalid token"
identify_claims secret (ok payload) = elim (truthy payload.sub) [
  | none ↦ rejected 401 "invalid token"
  | some sub ↦ claimed sub secret
]

identify_bearer : Crypto → Config → ℕ → String → Option Text → Identity
unfolding identify_claims
identify_bearer c config now secret none = rejected 401 "missing bearer token"
identify_bearer c config now secret (some header) =
    if not (starts_with header bearer)
    then rejected 401 "missing bearer token"
    else identify_claims secret
        (verify_model_router_token c config (drop (length bearer) header) true now)

identify_secret : Crypto → Config → ℕ → Option Text → Option String → Identity
unfolding identify_bearer
identify_secret c config now authorization none = rejected 400 "refresh_secret is required"
identify_secret c config now authorization (some secret) =
    identify_bearer c config now secret authorization

pub identify : Crypto → Config → ℕ → Request → Identity
unfolding identify_secret truthy is_model_router_configured
identify c config now req =
    if not (is_model_router_configured config)
    then rejected 503 "model-router not configured"
    else identify_secret c config now req.authorization (truthy req.refresh_secret)

-- The `WHERE` of the query.
unfoldable pub selects : String → String → AgentRow → Bool
selects sub hash row =
    (str_eq row.agent_id sub || str_eq row.id sub)
    && (elim row.model_router_refresh_hash [ none ↦ false | some h ↦ str_eq h hash ])
    && str_eq row.status "running"

-- `rows[0]`
unfoldable pub look_up : String → String → List AgentRow → Option AgentRow
unfolding selects
look_up sub hash [] = none
look_up sub hash (row ∷ rows) =
    let later = look_up sub hash rows in if selects sub hash row then some row else later

-- The `UPDATE`.
pub store_token : String → TokenResult → String → List AgentRow → List AgentRow
store_token id t hash [] = []
store_token id t hash (row ∷ rows) =
    (if str_eq row.id id
      then record row {
        model_router_jti = some t.jti;
        model_router_exp = some t.expires_at;
        model_router_refresh_hash = some hash;
      }
      else row)
    ∷ store_token id t hash rows

pub revoke_agent_model_router_token :
    Config → Result (Unit {0}) → ℕ → String → String → Option ℕ → Exec World (Unit {0})
revoke_agent_model_router_token config answer now agent_id jti expires_at s =
    elim config.internal_service_token [
      | none ↦ (ok tt, s)
      | some _ ↦ elim answer [
        | thrown e ↦ (thrown e, s)
        | ok _ ↦ (
          ok tt,
          record s {
            revocations =
                s.revocations
                ++ record {
                  jti = jti;
                  agent_id = agent_id;
                  expires_at = or_else expires_at (now + 3600);
                }
                  ∷ [];
          },
        )
      ]
    ]

-- The audit entry of the revocation.
audited : String → String → Result (Unit {0}) × World → World
audited agent_id jti (ok _, s) = record s {
  audit_log = s.audit_log ++ token_revoked agent_id jti ∷ [];
}
audited agent_id jti (thrown e, s) = record s {
  audit_log = s.audit_log ++ token_revoke_failed agent_id jti ∷ [];
}

pub revoke_superseded : Config → Run → AgentRow → World → World
unfolding audited revoke_agent_model_router_token truthy
revoke_superseded config run agent s = elim (truthy agent.model_router_jti) [
  | none ↦ s
  | some jti ↦ audited agent.agent_id jti (
      revoke_agent_model_router_token config run.revoke run.draw.now agent.agent_id jti
        agent.model_router_exp s)
]

store_and_revoke :
    Crypto → Config → Run → AgentRow → World → Result (Unit {0}) → TokenResult → Reply × World
unfolding revoke_superseded store_token
store_and_revoke c config run agent s (thrown e) t = (failed e, s)
store_and_revoke c config run agent s (ok _) t = (
  renewed t.token t.refresh_secret t.expires_at,
  revoke_superseded config run agent
      (record s { agents = store_token agent.id t (c.sha256_hex t.refresh_secret) s.agents }),
)

rotate_minted : Crypto → Config → Run → AgentRow → World → Result TokenResult → Reply × World
unfolding store_and_revoke
rotate_minted c config run agent s (thrown e) = (failed e, s)
rotate_minted c config run agent s (ok t) = store_and_revoke c config run agent s run.update t

abbrev pub options_of : AgentRow → TokenOptions
options_of agent = record {
  agent_slug = agent.agent_id;
  agent_uuid = agent.id;
  owner = agent.created_by;
  scopes = none;
  correlation_id = none;
}

-- From the mint on, for the row that the query gave.
pub rotate : Crypto → Config → Run → Option AgentRow → World → Reply × World
unfolding rotate_minted
rotate c config run none s = (refused 401 "invalid refresh secret", s)
rotate c config run (some agent) s =
    rotate_minted c config run agent s
      (generate_agent_model_router_token c config (options_of agent) run.draw)

refresh_selected :
    Crypto → Config → Run → String → String → World → Result (Unit {0}) → Reply × World
unfolding rotate look_up
refresh_selected c config run sub secret s (thrown e) = (failed e, s)
refresh_selected c config run sub secret s (ok _) =
    rotate c config run (look_up sub (c.sha256_hex secret) s.agents) s

refresh_identified : Crypto → Config → Run → World → Identity → Reply × World
unfolding refresh_selected
refresh_identified c config run s (rejected status message) = (refused status message, s)
refresh_identified c config run s (claimed sub secret) =
    refresh_selected c config run sub secret s run.select

pub model_router_refresh_handler : Crypto → Config → Run → Request → World → Reply × World
unfolding refresh_identified identify
model_router_refresh_handler c config run req s =
    refresh_identified c config run s (identify c config run.draw.now req)

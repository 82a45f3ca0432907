-- ===== src/Router/Refresh/Chain.antt =====
-- One renewal after another.
use hill90_app.Access.Auth.{bearer}
use hill90_app.Prelude.Exec.{ok}
use hill90_app.Prelude.Text.{Text, starts_with-append}
use hill90_app.Router.Token.{
  Claims, Crypto, Config, TokenResult, get_private_key, claims, verify_model_router_token,
  is_model_router_configured,
}
use hill90_app.Router.Token.RoundTrip.{IsSound, verify-generate}
use hill90_app.Router.Refresh.{
  rotate, refresh_selected, Draw, refresh_identified, identify_claims, identify_bearer,
  identify_secret, AgentRow, World, Request, Run, renewed, claimed, identify, selects, look_up,
  store_token, options_of, truthy, model_router_refresh_handler,
}
use hill90_app.Router.Refresh.Authorised.{refresh-IsAuthorised}
use hill90_app.Router.Refresh.Rotation.{revoke_superseded-agents, rotate-stores}
use hill90_app.Router.Refresh.Superseded.{IsRenewal}
use hill90_app.Router.Refresh.Races.{rotate-ok}
use hill90_app.Prelude.{
  ◌∙◌, All, All-In, Bool-cases, inr, str_eq, refl, ap, Option-cases, inl, ◌++◌, List, ◌∷◌, In, some,
  ℕ, ◌≢◌, String, ◌≡◌, ◌⊎◌, eq_iff, if◌then◌else◌, arith, true, [],
}

truthy-non_empty : (s : String) → s ≢ "" → truthy (some s) ≡ some s
unfolding truthy
truthy-non_empty s h = ground (arith, h, eq_iff s "")

-- The subject of the tokens of an agent.
abbrev pub subject_of : Config → AgentRow → String
subject_of config agent = if config.workload_v2 then agent.id else agent.agent_id

abbrev updated : AgentRow → TokenResult → String → AgentRow → AgentRow
updated agent t hash r =
    if str_eq r.id agent.id
    then record r {
      model_router_jti = some t.jti;
      model_router_exp = some t.expires_at;
      model_router_refresh_hash = some hash;
    }
    else r

updated-selects :
    (sub hash : String) (agent : AgentRow) (t : TokenResult)
    → (agent.agent_id ≡ sub) ⊎ (agent.id ≡ sub)
    → agent.status ≡ "running"
    → selects sub hash (updated agent t hash agent) ≡ true
unfolding selects
updated-selects sub hash agent t named running = ground (
  arith,
  named,
  running,
  eq_iff agent.id agent.id,
  eq_iff hash hash,
  eq_iff agent.agent_id sub,
  eq_iff agent.id sub,
  eq_iff agent.status "running",
)

-- The row that was updated is found again.
look_up-store_token :
    (sub hash : String) (agent : AgentRow) (t : TokenResult) (rows : List AgentRow)
    → In agent rows
    → (agent.agent_id ≡ sub) ⊎ (agent.id ≡ sub)
    → agent.status ≡ "running"
    → (row : AgentRow) × (look_up sub hash (store_token agent.id t hash rows) ≡ some row)
unfolding look_up store_token
look_up-store_token sub hash agent t [] i named running = elim i [ ]
look_up-store_token sub hash agent t (r ∷ rows) i named running =
    elim (Bool-cases (selects sub hash (updated agent t hash r))) [
      | inl e ↦ (updated agent t hash r, rw e refl)
      | inr e ↦ elim i [
        | inl same ↦ absurd (
            ground (
              arith,
              e,
              ap (λ q. selects sub hash (updated agent t hash q)) same,
              updated-selects sub hash agent t named running,
            ))
        | inr later ↦
            let (row, f) = look_up-store_token sub hash agent t rows later named running in
            (row, rw e f)
      ]
    ]

subject_there :
    (config : Config) (agent : AgentRow)
    → agent.id ≢ ""
    → agent.agent_id ≢ ""
    → subject_of config agent ≢ ""
subject_there config agent h k e = ground (arith, h, k, e)

claims-sub :
    (config : Config) (agent : AgentRow) (draw : Draw)
    → (claims config (options_of agent) draw).sub ≡ some (subject_of config agent)
unfolding claims
claims-sub config agent draw = refl

subject-named :
    (config : Config) (agent : AgentRow)
    → (agent.agent_id ≡ subject_of config agent) ⊎ (agent.id ≡ subject_of config agent)
subject-named config agent = elim (Bool-cases config.workload_v2) [
  | inl e ↦ inr (ground (arith, e))
  | inr e ↦ inl (ground (arith, e))
]

configured :
    (c : Crypto) (config : Config) (key : Text)
    → get_private_key c config ≡ ok key
    → is_model_router_configured config ≡ true
unfolding get_private_key is_model_router_configured
configured c config key h = elim (Option-cases config.signing_private_key) [
  | inl e ↦ absurd (ground (arith, e, h))
  | inr (pem, e) ↦ ground (arith, e)
]

pub identify-bearer :
    (c : Crypto) (config : Config) (now : ℕ) (secret : String) (token key : Text) (payload : Claims)
    (sub : String)
    → get_private_key c config ≡ ok key
    → secret ≢ ""
    → sub ≢ ""
    → payload.sub ≡ some sub
    → verify_model_router_token c config token true now ≡ ok payload
    → identify c config now
        (record { refresh_secret = some secret; authorization = some (bearer ++ token) })
      ≡ claimed sub secret
unfolding identify identify_secret identify_bearer identify_claims
identify-bearer c config now secret token key payload sub has_key s_there sub_there named v =
    let q : truthy payload.sub ≡ some sub = ap truthy named ∙ truthy-non_empty sub sub_there in
    rw (configured c config key has_key) (
      rw (truthy-non_empty secret s_there)
        (rw (starts_with-append bearer token) (rw v (ground (arith, q)))))

-- A request that is identified, and whose row is found, is renewed.
pub identified-rotates :
    (c : Crypto) (config : Config) (run : Run) (req : Request) (s : World) (sub secret : String)
    (row : AgentRow)
    → identify c config run.draw.now req ≡ claimed sub secret
    → run.select ≡ ok tt
    → look_up sub (c.sha256_hex secret) s.agents ≡ some row
    → model_router_refresh_handler c config run req s ≡ rotate c config run (some row) s
unfolding model_router_refresh_handler refresh_identified refresh_selected
identified-rotates c config run req s sub secret row i selects' found =
    rw i (rw selects' (rw found refl))

identified-renewed :
    (c : Crypto) (config : Config) (run : Run) (req : Request) (s : World) (sub secret : String)
    (row : AgentRow) (key : Text)
    → identify c config run.draw.now req ≡ claimed sub secret
    → run.select ≡ ok tt
    → look_up sub (c.sha256_hex secret) s.agents ≡ some row
    → get_private_key c config ≡ ok key
    → run.update ≡ ok tt
    → IsRenewal (model_router_refresh_handler c config run req s).0
identified-renewed c config run req s sub secret row key i selects' found has_key updates =
    rw (identified-rotates c config run req s sub secret row i selects' found)
      (rw (rotate-ok c config run row s key has_key updates) (_, _, _, refl))

-- The token and the secret of a renewal renew in turn, at any later time: the next request with them is
-- answered with a new token when its queries go through, the agent's slug and id and the secret are
-- not empty, and the token was minted soundly.
pub refresh-refresh :
    (c : Crypto) (config : Config) (run run' : Run) (req : Request) (s s' : World)
    (token key : Text) (next : String) (exp : ℕ)
    → model_router_refresh_handler c config run req s ≡ (renewed token next exp, s')
    → get_private_key c config ≡ ok key
    → All (λ r. IsSound c key (claims config (options_of r) run.draw)) s.agents
    → run'.select ≡ ok tt
    → run'.update ≡ ok tt
    → next ≢ ""
    → All (λ r. (r.id ≢ "") × (r.agent_id ≢ "")) s.agents
    → IsRenewal
        (model_router_refresh_handler c config run'
          (record { refresh_secret = some next; authorization = some (bearer ++ token) })
          s').0
refresh-refresh c config run run' req s s' token key next exp h has_key sound selects' updates there
      names =
    let (agent, a, r) = refresh-IsAuthorised c config run req s s' token next exp h in
    let (t, minted, next_is, token_is, exp_is, after) =
      rotate-stores c config run agent s s' token next exp r in
    let agent-IsSound =
      All-In (λ r. IsSound c key (claims config (options_of r) run.draw)) agent s.agents sound
        a.in_table in
    let v =
      verify-generate c config (options_of agent) run.draw key t true run'.draw.now has_key
        agent-IsSound minted (inr refl) in
    let named =
      All-In (λ (r : AgentRow). (r.id ≢ "") × (r.agent_id ≢ "")) agent s.agents names a.in_table in
    let i =
      identify-bearer c config run'.draw.now next token key
        (claims config (options_of agent) run.draw) (subject_of config agent) has_key there
        (subject_there config agent named.0 named.1) (claims-sub config agent run.draw)
        (ap (λ x. verify_model_router_token c config x true run'.draw.now) token_is ∙ v) in
    let (row, found) =
      look_up-store_token (subject_of config agent) (c.sha256_hex next) agent t s.agents a.in_table
        (subject-named config agent) a.agent-IsSelected.running in
    let table = ap (λ w. w.agents) after ∙ revoke_superseded-agents config run agent _ in
    identified-renewed c config run' _ s' (subject_of config agent) next row key i selects'
      (ap (look_up (subject_of config agent) (c.sha256_hex next)) table ∙ found) has_key updates

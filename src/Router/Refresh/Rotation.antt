-- ===== src/Router/Refresh/Rotation.antt =====
-- What a renewal does to the table, and what every other answer leaves alone.
use hill90_app.Prelude.Exec.{Result, ok, thrown, Result-cases}
use hill90_app.Router.Token.{Crypto, Config, TokenResult, generate_agent_model_router_token}
use hill90_app.Router.Refresh.{
  model_router_refresh_handler, truthy, revoke_agent_model_router_token, audited, revoke_superseded,
  store_and_revoke, Text, rotate_minted, AgentRow, World, Request, Run, renewed, rotate,
  store_token, options_of,
}
use hill90_app.Router.Refresh.Authorised.{refresh-IsAuthorised}
use hill90_app.Prelude.{
  subst, sym, All-In, ap, ◌∙◌, refl, ℕ, arith, some, if◌then◌else◌, inl, ◌≢◌, ◌∷◌, Bool-cases, List,
  str_eq, Option-cases, String, inr, eq_iff, All, ◌≡◌, [],
}

pub revoke_superseded-agents :
    (config : Config) (run : Run) (agent : AgentRow) (s : World)
    → (revoke_superseded config run agent s).agents ≡ s.agents
unfolding revoke_superseded audited revoke_agent_model_router_token
revoke_superseded-agents config run agent s = elim (Option-cases (truthy agent.model_router_jti)) [
  | inl e ↦ ground (arith, e)
  | inr (jti, e) ↦ elim (Option-cases config.internal_service_token) [
    | inl e' ↦ ground (arith, e, e')
    | inr (t, e') ↦ elim (Result-cases run.revoke) [
      | inl (u, e'') ↦ ground (arith, e, e', e'')
      | inr (x, e'') ↦ ground (arith, e, e', e'')
    ]
  ]
]

-- The world after the `UPDATE`.
abbrev pub stored : Crypto → AgentRow → TokenResult → String → World → World
stored c agent t secret s = record s {
  agents = store_token agent.id t (c.sha256_hex secret) s.agents;
}

store_and_revoke-stores :
    (c : Crypto) (config : Config) (run : Run) (agent : AgentRow) (s s' : World)
    (r : Result (Unit {0})) (t : TokenResult) (token : Text) (secret : String) (exp : ℕ)
    → store_and_revoke c config run agent s r t ≡ (renewed token secret exp, s')
    → (secret ≡ t.refresh_secret)
      × (token ≡ t.token)
      × (exp ≡ t.expires_at)
      × (s' ≡ revoke_superseded config run agent (stored c agent t secret s))
unfolding store_and_revoke
store_and_revoke-stores c config run agent s s' (thrown e) t token secret exp h =
    absurd (ground (arith, h))
store_and_revoke-stores c config run agent s s' (ok u) t token secret exp h = ground (arith, h)

rotate_minted-stores :
    (c : Crypto) (config : Config) (run : Run) (agent : AgentRow) (s s' : World)
    (r : Result TokenResult) (token : Text) (secret : String) (exp : ℕ)
    → rotate_minted c config run agent s r ≡ (renewed token secret exp, s')
    → (t : TokenResult) × (r ≡ ok t)
      × (secret ≡ t.refresh_secret)
      × (token ≡ t.token)
      × (exp ≡ t.expires_at)
      × (s' ≡ revoke_superseded config run agent (stored c agent t secret s))
unfolding rotate_minted
rotate_minted-stores c config run agent s s' (thrown e) token secret exp h =
    absurd (ground (arith, h))
rotate_minted-stores c config run agent s s' (ok t) token secret exp h =
    let (a, b, d, e) =
      store_and_revoke-stores c config run agent s s' run.update t token secret exp h in
    (t, refl, a, b, d, e)

pub rotate-stores :
    (c : Crypto) (config : Config) (run : Run) (agent : AgentRow) (s s' : World) (token : Text)
    (secret : String) (exp : ℕ)
    → rotate c config run (some agent) s ≡ (renewed token secret exp, s')
    → (t : TokenResult) × (generate_agent_model_router_token c config (options_of agent) run.draw
        ≡ ok t)
      × (secret ≡ t.refresh_secret)
      × (token ≡ t.token)
      × (exp ≡ t.expires_at)
      × (s' ≡ revoke_superseded config run agent (stored c agent t secret s))
unfolding rotate
rotate-stores c config run agent s s' token secret exp h =
    rotate_minted-stores c config run agent s s' _ token secret exp h

-- A secret is stored with one agent at most.
abbrev pub Sole : String → String → List AgentRow → Type 0
Sole hash id rows = All (λ r. r.model_router_refresh_hash ≡ some hash → r.id ≡ id) rows

abbrev pub Unused : String → List AgentRow → Type 0
Unused hash rows = All (λ r. r.model_router_refresh_hash ≢ some hash) rows

store_token-Unused :
    (hash id : String) (t : TokenResult) (hash' : String) (rows : List AgentRow)
    → Sole hash id rows
    → hash' ≢ hash
    → Unused hash (store_token id t hash' rows)
unfolding store_token
store_token-Unused hash id t hash' [] sole h = tt
store_token-Unused hash id t hash' (r ∷ rows) sole h =
    (head, store_token-Unused hash id t hash' rows sole.1 h)
  where
    head :
        (if str_eq r.id id
          then record r {
            model_router_jti = some t.jti;
            model_router_exp = some t.expires_at;
            model_router_refresh_hash = some hash';
          }
          else r).model_router_refresh_hash
        ≢ some hash
    head e = elim (Bool-cases (str_eq r.id id)) [
      | inl same ↦ ground (arith, h, e, same)
      | inr other ↦ ground (arith, e, other, sole.0 (ground (arith, e, other)), eq_iff r.id id)
    ]

Unused-refuses :
    (c : Crypto) (config : Config) (run : Run) (req : Request) (s s' : World) (secret : String)
    (token : Text) (secret' : String) (exp : ℕ)
    → req.refresh_secret ≡ some secret
    → Unused (c.sha256_hex secret) s.agents
    → model_router_refresh_handler c config run req s ≢ (renewed token secret' exp, s')
Unused-refuses c config run req s s' secret token secret' exp e unused h =
    let (agent, a, _) = refresh-IsAuthorised c config run req s s' token secret' exp h in
    let same : secret ≡ a.secret = ground (arith, e, a.request-IsIdentified.has_secret) in
    All-In (λ (r : AgentRow). r.model_router_refresh_hash ≢ some (c.sha256_hex secret)) agent
      s.agents unused a.in_table
      (a.agent-IsSelected.has_hash ∙ ap (λ x. some (c.sha256_hex x)) (sym same))

-- A secret whose hash is stored with one agent at most renews once: after a renewal, no request with
-- it is answered by another, whatever its bearer token, as long as the hash of the new secret differs.
pub refresh-single_use :
    (c : Crypto) (config config' : Config) (run run' : Run) (req req' : Request) (s s' s'' : World)
    (secret id : String) (token token' : Text) (next next' : String) (exp exp' : ℕ)
    → model_router_refresh_handler c config run req s ≡ (renewed token next exp, s')
    → req.refresh_secret ≡ some secret
    → req'.refresh_secret ≡ some secret
    → Sole (c.sha256_hex secret) id s.agents
    → c.sha256_hex next ≢ c.sha256_hex secret
    → model_router_refresh_handler c config' run' req' s' ≢ (renewed token' next' exp', s'')
refresh-single_use c config config' run run' req req' s s' s'' secret id token token' next next' exp
      exp' h e e' sole fresh =
    let (agent, a, r) = refresh-IsAuthorised c config run req s s' token next exp h in
    let (t, _, _, _, _, after) = rotate-stores c config run agent s s' token next exp r in
    let same : secret ≡ a.secret = ground (arith, e, a.request-IsIdentified.has_secret) in
    let mine : agent.id ≡ id =
      All-In
        (λ (r : AgentRow). r.model_router_refresh_hash ≡ some (c.sha256_hex secret) → r.id ≡ id)
        agent s.agents sole a.in_table
        (a.agent-IsSelected.has_hash ∙ ap (λ x. some (c.sha256_hex x)) (sym same)) in
    Unused-refuses c config' run' req' s' s'' secret token' next' exp' e' (
      subst (Unused (c.sha256_hex secret))
        (ap (λ i. store_token i t (c.sha256_hex next) s.agents) (sym mine)
          ∙ sym (ap (λ w. w.agents) after ∙ revoke_superseded-agents config run agent _))
        (store_token-Unused (c.sha256_hex secret) id t (c.sha256_hex next) s.agents sole fresh))

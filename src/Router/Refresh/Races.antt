-- ===== src/Router/Refresh/Races.antt =====
-- Two requests with one secret, whose queries both run before either `UPDATE`.
use hill90_app.Prelude.Exec.{ok, Result-cases}
use hill90_app.Router.Token.{Crypto, Config, TokenResult, get_private_key, claims, signed}
use hill90_app.Router.Token.RoundTrip.{generate-ok}
use hill90_app.Router.Refresh.{
  revoke_agent_model_router_token, store_and_revoke, Text, rotate_minted, audited, AgentRow, World,
  Run, renewed, Revocation, look_up, rotate, store_token, options_of, revoke_superseded, truthy,
}
use hill90_app.Router.Refresh.Rotation.{revoke_superseded-agents, stored}
use hill90_app.Router.Refresh.Superseded.{IsRenewal}
use hill90_app.Prelude.{
  ◌++◌, or_else, ◌⊎◌, ◌≡◌, Option-cases, String, Bool-cases, ap, ◌∷◌, some, [], All, eq_iff, ◌+◌,
  arith, refl, All-append, str_eq, List, ◌∙◌, inl, inr, ◌≢◌,
}

abbrev minted_for : Crypto → Config → Run → AgentRow → Text → TokenResult
minted_for c config run agent key = record {
  token = signed c key (claims config (options_of agent) run.draw);
  jti = run.draw.uuid;
  refresh_secret = run.draw.secret_uuid;
  expires_at = run.draw.now + 3600;
}

-- With a key, and an `UPDATE` that goes through, a row that was found is renewed.
pub rotate-ok :
    (c : Crypto) (config : Config) (run : Run) (agent : AgentRow) (s : World) (key : Text)
    → get_private_key c config ≡ ok key
    → run.update ≡ ok tt
    → rotate c config run (some agent) s ≡ (
      renewed
          (signed c key (claims config (options_of agent) run.draw))
          run.draw.secret_uuid
          (run.draw.now + 3600),
      revoke_superseded config run agent
          (stored c agent (minted_for c config run agent key) run.draw.secret_uuid s),
    )
unfolding rotate rotate_minted store_and_revoke
rotate-ok c config run agent s key has_key updates =
    ap (rotate_minted c config run agent s)
      (generate-ok c config (options_of agent) run.draw key has_key)
    ∙ ap (λ r. store_and_revoke c config run agent s r (minted_for c config run agent key)) updates

-- The row of the agent after a renewal.
abbrev pub Holds : Crypto → AgentRow → Run → List AgentRow → Type 0
Holds c agent run rows =
    All
      (λ r.
        r.id ≡ agent.id
        → (r.model_router_jti ≡ some run.draw.uuid)
          × (r.model_router_refresh_hash ≡ some (c.sha256_hex run.draw.secret_uuid)))
      rows

store_token-Holds :
    (c : Crypto) (agent : AgentRow) (run : Run) (t : TokenResult) (rows : List AgentRow)
    → t.jti ≡ run.draw.uuid
    → Holds c agent run (store_token agent.id t (c.sha256_hex run.draw.secret_uuid) rows)
unfolding store_token
store_token-Holds c agent run t [] e = tt
store_token-Holds c agent run t (r ∷ rows) e = elim (Bool-cases (str_eq r.id agent.id)) [
  | inl same ↦ (λ i. ground (arith, same, e), store_token-Holds c agent run t rows e)
  | inr other ↦ (
    λ i. absurd (ground (arith, other, i, eq_iff r.id agent.id)),
    store_token-Holds c agent run t rows e,
  )
]

-- No revocation names the token.
abbrev pub Unrevoked : String → List Revocation → Type 0
Unrevoked jti l = All (λ v. v.jti ≢ jti) l

revoke_superseded-revocations :
    (config : Config) (run : Run) (agent : AgentRow) (s : World)
    → ((revoke_superseded config run agent s).revocations ≡ s.revocations)
      ⊎ ((v : Revocation) × (truthy agent.model_router_jti ≡ some v.jti)
          × ((revoke_superseded config run agent s).revocations ≡ s.revocations ++ v ∷ []))
unfolding revoke_superseded audited revoke_agent_model_router_token
revoke_superseded-revocations config run agent s =
    elim (Option-cases (truthy agent.model_router_jti)) [
      | inl e ↦ inl (ground (arith, e))
      | inr (old, e) ↦ elim (Option-cases config.internal_service_token) [
        | inl e' ↦ inl (ground (arith, e, e'))
        | inr (t, e') ↦ elim (Result-cases run.revoke) [
          | inl (u, e'') ↦ inr (
            record {
              jti = old;
              agent_id = agent.agent_id;
              expires_at = or_else agent.model_router_exp (run.draw.now + 3600);
            },
            e,
            ground (arith, e, e', e''),
          )
          | inr (x, e'') ↦ inl (ground (arith, e, e', e''))
        ]
      ]
    ]

revoke_superseded-Unrevoked :
    (config : Config) (run : Run) (agent : AgentRow) (s : World) (jti : String)
    → Unrevoked jti s.revocations
    → truthy agent.model_router_jti ≢ some jti
    → Unrevoked jti (revoke_superseded config run agent s).revocations
revoke_superseded-Unrevoked config run agent s jti h other =
    elim (revoke_superseded-revocations config run agent s) [
      | inl e ↦ rw e h
      | inr (v, old, e) ↦ rw e (
          All-append (λ (v : Revocation). v.jti ≢ jti) s.revocations (v ∷ []) h
            ((λ k. other (old ∙ ap (λ x. some x) k)), tt))
    ]

-- The query does not reserve the row: of two requests that both find it before either updates it, both
-- are answered with a new token. The row then holds the token and the secret of the second, so not the
-- token of the first where the two draw different identifiers, and the token of the first is not revoked.
pub rotate-races :
    (c : Crypto) (config : Config) (run run' : Run) (sub hash : String) (agent : AgentRow)
    (s : World) (key : Text)
    → look_up sub hash s.agents ≡ some agent
    → get_private_key c config ≡ ok key
    → run.update ≡ ok tt
    → run'.update ≡ ok tt
    → Unrevoked run.draw.uuid s.revocations
    → truthy agent.model_router_jti ≢ some run.draw.uuid
    → let first = rotate c config run (look_up sub hash s.agents) s in
      let second = rotate c config run' (look_up sub hash s.agents) first.1 in
      IsRenewal first.0
      × IsRenewal second.0
      × Holds c agent run' second.1.agents
      × Unrevoked run.draw.uuid second.1.revocations
rotate-races c config run run' sub hash agent s key found has_key updates updates' fresh other =
    rw found (
      rw (rotate-ok c config run agent s key has_key updates) (
        rw (rotate-ok c config run' agent _ key has_key updates') (
          (_, _, _, refl),
          (_, _, _, refl),
          rw (revoke_superseded-agents config run' agent _)
              (store_token-Holds c agent run' _ _ refl),
          revoke_superseded-Unrevoked config run' agent _ run.draw.uuid
              (revoke_superseded-Unrevoked config run agent _ run.draw.uuid fresh other) other,
        )))

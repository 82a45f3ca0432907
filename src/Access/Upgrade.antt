-- ===== src/Access/Upgrade.antt =====
-- services/api/src/services/terminal-proxy.ts: the handshake that opens a terminal. The token's
-- verifier, the two database lookups and the clock are parameters; the first three may throw. The clock is read once for the handshake.
pub mod Guards
use hill90_app.Prelude.{
  ℕ, zero, suc, ◌+◌, ◌-◌, ◌*◌, Bool, true, false, Option, none, some, List, [], ◌∷◌, ◌++◌, String,
  length, drop, not, ◌||◌, ◌&&◌, leb, ◌==◌, min, map, if◌then◌else◌,
}
use hill90_app.Prelude.Exec.{Result, ok, thrown}
use hill90_app.Prelude.Text.{Text, codes, starts_with, trim, split, includes}
use hill90_app.Access.Roles.{has_role}
use hill90_app.Access.Auth.{Principal, bearer}

-- The headers of an upgrade request that the handler reads.
pub record Request : Type 0 where
  pub url : Option Text
  pub origin : Option Text
  pub protocols : Option Text
  pub authorization : Option Text

abbrev pub protocol_bearer_prefix : Text
protocol_bearer_prefix = codes "hill90.bearer."

abbrev pub max_timeout_ms : ℕ
max_timeout_ms = 2147483647

abbrev is_empty : Text → Bool
is_empty [] = true
is_empty (c ∷ s) = false

non_empty : List Text → List Text
non_empty [] = []
non_empty (t ∷ ts) = let rest = non_empty ts in if is_empty t then rest else t ∷ rest

-- `configured` is TERMINAL_ALLOWED_ORIGINS, empty where it is unset.
pub allowed_origins : Text → List Text
unfolding split trim non_empty
allowed_origins configured = non_empty (map trim (split b',' configured))

unfoldable pub is_origin_allowed : Text → Option Text → Bool
unfolding allowed_origins includes
is_origin_allowed configured none = false
is_origin_allowed configured (some origin) =
    not (is_empty origin) && includes (allowed_origins configured) origin

-- The loop over the offered subprotocols: the first entry with the prefix and a token behind it.
first_token : List Text → Option Text
unfolding trim starts_with
first_token [] = none
first_token (raw ∷ rest) =
    let later = first_token rest in
    let entry = trim raw in
    let token = drop (length protocol_bearer_prefix) entry in
    if starts_with entry protocol_bearer_prefix && not (is_empty token) then some token else later

pub token_from_protocols : Option Text → Option Text
unfolding first_token split
token_from_protocols none = none
token_from_protocols (some header) =
    if is_empty header then none else first_token (split b',' header)

-- The token of the handler: the subprotocol's, or else the Authorization header's, if not empty.
unfoldable pub offered_token : Request → Option Text
unfolding token_from_protocols starts_with
offered_token req = elim (token_from_protocols req.protocols) [
  | some token ↦ some token
  | none ↦ elim req.authorization [
    | none ↦ none
    | some header ↦
        let token = drop (length bearer) header in
        if starts_with header bearer && not (is_empty token) then some token else none
  ]
]

-- `[^/]+`: the longest run without a slash, and what follows it.
until_slash : Text → Text × Text
until_slash [] = ([], [])
until_slash (c ∷ s) =
    let (run, rest) = until_slash s in if c == b'/' then ([], c ∷ s) else (c ∷ run, rest)

-- The regular expression `^/chat/threads/([^/]+)/terminal`.
unfoldable pub parse_thread_id : Option Text → Option Text
unfolding until_slash starts_with
parse_thread_id none = none
parse_thread_id (some url) =
    let tail = drop (length (codes "/chat/threads/")) url in
    let (id, rest) = until_slash tail in
    if starts_with url (codes "/chat/threads/")
      && not (is_empty id)
      && starts_with rest (codes "/terminal")
    then some id
    else none

-- A terminal session as the handler opens it; `expiry_timer` is the delay of its timeout.
pub record Session : Type 0 where
  pub thread : Text
  pub user : Principal
  pub upstream : Text
  pub expiry_timer : ℕ

-- How the handler leaves the socket.
pub data Answer : Type 0 where
  ignored destroyed : Answer
  refused : ℕ → Answer
  upgraded : Session → Answer

module _ (configured : Text) (verify_token : Text → Result (Option Principal)) (now : ℕ)
    (is_participant : Text → String → Result Bool)
    (resolve_upstream : Text → Result (Option Text)) where
  pub is_admin : Principal → Bool
  unfolding has_role
  is_admin user = has_role user.roles "admin"

  connect : Text → Principal → Result (Option Text) → Answer
  connect thread user (thrown e) = destroyed
  connect thread user (ok none) = refused 404
  connect thread user (ok (some url)) =
      if is_empty url
      then refused 404
      else upgraded (record {
        thread = thread;
        user = user;
        upstream = url;
        expiry_timer = min (user.exp * 1000 - now) max_timeout_ms;
      })

  participate : Text → Principal → Result Bool → Answer
  unfolding connect
  participate thread user (thrown e) = destroyed
  participate thread user (ok false) = refused 403
  participate thread user (ok true) = connect thread user (resolve_upstream thread)

  admit : Text → Result (Option Principal) → Answer
  unfolding participate is_admin
  admit thread (thrown e) = destroyed
  admit thread (ok none) = refused 401
  admit thread (ok (some user)) =
      if leb (user.exp * 1000) now
      then refused 401
      else if is_admin user
      then connect thread user (resolve_upstream thread)
      else participate thread user (is_participant thread user.sub)

  -- The 'upgrade' listener.
  unfoldable pub on_upgrade : Request → Answer
  unfolding admit is_origin_allowed parse_thread_id
  on_upgrade req = elim (parse_thread_id req.url) [
    | none ↦ ignored
    | some thread ↦
        if not (is_origin_allowed configured req.origin)
        then refused 403
        else (elim (offered_token req) [
          | none ↦ refused 401
          | some token ↦ admit thread (verify_token token)
        ])
  ]

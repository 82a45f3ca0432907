-- ===== src/Hooks/Redact.antt =====
-- services/api/src/helpers/redact.ts, `redactDeep`: what a log line shows of a value. Objects live in a heap,
-- so that they may be shared and cyclic; `redactString` is a parameter.
pub mod Clean
use hill90_app.Prelude.Text.{Text, codes, text_eq, includes}
use hill90_app.Prelude.{
  ◌==◌, [], map, ◌&&◌, some, ◌+◌, suc, ℕ, none, Option, if◌then◌else◌, zero, not, ◌||◌, List, ◌∷◌,
  false, leb, Bool,
}

pub data Value : Type 0 where
  null undefined : Value
  text : Text → Value
  scalar : ℕ → Value
  ref : ℕ → Value

-- An Error with its stack, where that is not empty, and its own enumerable properties; an array, a
-- plain object and an instance of some other class.
pub data Object : Type 0 where
  error_object : Text → Text → Option Text → List (Text × Value) → Object
  array : List Value → Object
  plain : List (Text × Value) → Object
  instance_of_class : List (Text × Value) → Object

-- What is logged. `copied` is the value itself, by reference where it is one.
mutual
  pub data Out : Type 0 where
    copied : Value → Out
    scrubbed : Text → Out
    redacted max_depth circular : Out
    named : Text → Fields → Out
    fields : Fields → Out
    items : Items → Out

  pub data Fields : Type 0 where
    no_fields : Fields
    field : Text → Out → Fields → Fields

  pub data Items : Type 0 where
    no_items : Items
    item : Out → Items → Items

-- The names of SENSITIVE_KEY, which is matched without regard to the case of letters.
sensitive_names : List Text
sensitive_names =
    codes "authorization"
    ∷ codes "proxy-authorization"
    ∷ codes "cookie"
    ∷ codes "set-cookie"
    ∷ codes "password"
    ∷ codes "passwd"
    ∷ codes "pass"
    ∷ codes "secret"
    ∷ codes "client_secret"
    ∷ codes "clientsecret"
    ∷ codes "token"
    ∷ codes "access_token"
    ∷ codes "refresh_token"
    ∷ codes "id_token"
    ∷ codes "session_token"
    ∷ codes "api_key"
    ∷ codes "apikey"
    ∷ codes "x-api-key"
    ∷ codes "anthropic-api-key"
    ∷ codes "private_key"
    ∷ codes "privatekey"
    ∷ codes "signing_key"
    ∷ codes "encryption_key"
    ∷ codes "connection_string"
    ∷ codes "database_url"
    ∷ codes "dsn"
    ∷ []

lower : ℕ → ℕ
lower c = if leb b'A' c && leb c b'Z' then c + 32 else c

pub sensitive : Text → Bool
unfolding sensitive_names lower
sensitive key = includes sensitive_names (map lower key)

-- The properties of an Error that are not walked.
pub own_property : Text → Bool
own_property key =
    not (text_eq key (codes "name") || text_eq key (codes "message") || text_eq key (codes "stack"))

seen_before : ℕ → List ℕ → Bool
seen_before id [] = false
seen_before id (n ∷ ns) = id == n || seen_before id ns

-- The fields of an object, in order; `walk` is the call for a value, which remembers the objects seen.
pub redact_fields : (List ℕ → Value → Out × List ℕ) → List ℕ → List (Text × Value) → Fields × List ℕ
redact_fields walk seen [] = (no_fields, seen)
redact_fields walk seen ((key, v) ∷ kvs) =
    if sensitive key
    then (let rest = redact_fields walk seen kvs in (field key redacted rest.0, rest.1))
    else (let here = walk seen v in
        let rest = redact_fields walk here.1 kvs in (field key here.0 rest.0, rest.1))

pub redact_items : (List ℕ → Value → Out × List ℕ) → List ℕ → List Value → Items × List ℕ
redact_items walk seen [] = (no_items, seen)
redact_items walk seen (v ∷ vs) =
    let here = walk seen v in let rest = redact_items walk here.1 vs in (item here.0 rest.0, rest.1)

walked : List (Text × Value) → List (Text × Value)
walked [] = []
walked ((key, v) ∷ kvs) =
    let rest = walked kvs in if own_property key then (key, v) ∷ rest else rest

-- `out.message` and `out.stack`
headed : (Text → Text) → Text → Option Text → Fields → Fields
headed redact_string message none rest =
    field (codes "message") (scrubbed (redact_string message)) rest
headed redact_string message (some stack) rest =
    field (codes "message") (scrubbed (redact_string message))
      (field (codes "stack") (scrubbed (redact_string stack)) rest)

redact_object : (Text → Text) → (List ℕ → Value → Out × List ℕ) → List ℕ → ℕ → Object → Out × List ℕ
unfolding redact_fields redact_items walked headed
redact_object redact_string walk seen id (error_object name message stack kvs) =
    let r = redact_fields walk seen (walked kvs) in
    (named name (headed redact_string message stack r.0), r.1)
redact_object redact_string walk seen id (array vs) =
    let r = redact_items walk seen vs in (items r.0, r.1)
redact_object redact_string walk seen id (plain kvs) =
    let r = redact_fields walk seen kvs in (fields r.0, r.1)
redact_object redact_string walk seen id (instance_of_class kvs) = (copied (ref id), seen)

redact_value :
    (Text → Text) → (ℕ → Object) → (List ℕ → Value → Out × List ℕ) → List ℕ → Value → Out × List ℕ
unfolding redact_object seen_before
redact_value redact_string heap walk seen null = (copied null, seen)
redact_value redact_string heap walk seen undefined = (copied undefined, seen)
redact_value redact_string heap walk seen (text s) = (scrubbed (redact_string s), seen)
redact_value redact_string heap walk seen (scalar n) = (copied (scalar n), seen)
redact_value redact_string heap walk seen (ref id) =
    if seen_before id seen
    then (circular, seen)
    else redact_object redact_string walk (id ∷ seen) id (heap id)

-- `levels` is `9 - depth`.
pub redact_levels : (Text → Text) → (ℕ → Object) → ℕ → List ℕ → Value → Out × List ℕ
unfolding redact_value
redact_levels redact_string heap zero seen v = (max_depth, seen)
redact_levels redact_string heap (suc levels) seen v =
    redact_value redact_string heap (redact_levels redact_string heap levels) seen v

pub redact_deep : (Text → Text) → (ℕ → Object) → Value → Out
unfolding redact_levels
redact_deep redact_string heap v = (redact_levels redact_string heap 9 [] v).0

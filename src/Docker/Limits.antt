-- ===== src/Docker/Limits.antt =====
-- services/api/src/routes/agents.ts and services/api/src/services/docker.ts: the limits on an agent's container,
-- as the routes check them before they are stored and as they are read when a container is created. A number of
-- JavaScript is a natural number of `unit`ths, or Infinity; `round` is the nearest such number to a decimal
-- with no bound above, so what is larger than `largest` is Infinity. A message names no value.
pub mod Agreed
use hill90_app.Prelude.{
  ℕ, ◌+◌, ◌*◌, Bool, true, false, Option, none, some, List, [], ◌∷◌, ◌++◌, ltb, leb, ◌==◌, ◌&&◌,
  ◌||◌, not, if◌then◌else◌, String, given,
}
use hill90_app.Prelude.Text.{Text, is_space}
use hill90_app.Prelude.Exec.{Result, ok, thrown}

abbrev pub max_agent_cpus : ℕ
max_agent_cpus = 4

abbrev pub max_agent_mem_bytes : ℕ
max_agent_mem_bytes = 16761118720

abbrev pub max_agent_pids_limit : ℕ
max_agent_pids_limit = 300

-- What a field of a request or a column holds: a string, an integer, or something else.
pub data Value : Type 0 where
  text : Text → Value
  natural : ℕ → Value
  negative : ℕ → Value
  other : Value

pub data Double : Type 0 where
  finite : ℕ → Double
  infinite : Double

-- \d
is_digit : ℕ → Bool
is_digit c = leb 48 c && leb c 57

-- \d*
digits : Text → Text × Text
unfolding is_digit
digits [] = ([], [])
digits (c ∷ s) = let (ds, rest) = digits s in if is_digit c then (c ∷ ds, rest) else ([], c ∷ s)

-- (?:\.\d+)? behind the digits `ds`
fraction : Text → Text → Text × Text
unfolding digits
fraction ds [] = (ds, [])
fraction ds (c ∷ s) =
    let (decimals, rest) = digits s in
    elim decimals [
      | [] ↦ (ds, c ∷ s)
      | f ∷ fs ↦ if c == 46 then (ds ++ c ∷ f ∷ fs, rest) else (ds, c ∷ s)
    ]

-- (\d+(?:\.\d+)?) at the start, and what follows it.
unfoldable pub number : Text → Option (Text × Text)
unfolding digits fraction
number s =
    let (whole, rest) = digits s in
    elim whole [ [] ↦ none | d ∷ ds ↦ some (fraction (d ∷ ds) rest) ]

unfoldable pub match_cpus : Text → Option Text
unfolding number
match_cpus s = given (number s) none (λ (num, rest). elim rest [ [] ↦ some num | c ∷ later ↦ none ])

pub data Scale : Type 0 where
  bytes kilo mega giga : Scale

-- [kmg]? in either case
scale_of : ℕ → Option Scale
scale_of c =
    if c == 107 || c == 75
    then some kilo
    else if c == 109 || c == 77
    then some mega
    else if c == 103 || c == 71
    then some giga
    else none

-- b?$
closed_by : Scale → Text → Option Scale
closed_by scale [] = some scale
closed_by scale (c ∷ []) = if c == 98 || c == 66 then some scale else none
closed_by scale (c ∷ d ∷ s) = none

-- \s*([kmg]?)b?$
suffix : Text → Option Scale
unfolding scale_of closed_by is_space
suffix [] = some bytes
suffix (c ∷ s) =
    let later = suffix s in
    if is_space c
    then later
    else given (scale_of c) (closed_by bytes (c ∷ s)) (λ scale. closed_by scale s)

unfoldable pub match_mem_limit : Text → Option (Text × Scale)
unfolding number suffix
match_mem_limit s =
    given (number s) none (λ (num, rest). given (suffix rest) none (λ scale. some (num, scale)))

module _ (unit largest : ℕ) where
  unfoldable pub capped : ℕ → Double
  capped n = if ltb largest n then infinite else finite n

  -- `d * k`, for a power of two
  unfoldable pub times : Double → ℕ → Double
  unfolding capped
  times infinite k = infinite
  times (finite n) k = capped (n * k)

  -- `d > k`
  unfoldable pub exceeds : Double → ℕ → Bool
  exceeds infinite k = true
  exceeds (finite n) k = ltb (k * unit) n

-- `d > 0`
unfoldable pub is_positive : Double → Bool
is_positive infinite = true
is_positive (finite n) = ltb 0 n

unfoldable pub is_finite : Double → Bool
is_finite infinite = false
is_finite (finite n) = true

module _ (unit largest : ℕ) (round : Text → ℕ) where
  unfoldable pub parse_float : Text → Double
  unfolding capped
  parse_float num = capped unit largest (round num)

  -- services/docker.ts, from `parseFloat` on
  unfoldable pub cpus_value : Double → Result Double
  unfolding is_positive exceeds
  cpus_value d =
      if not (is_positive d)
      then thrown "Invalid cpus"
      else if exceeds unit largest d max_agent_cpus
      then thrown "Invalid cpus (exceeds VPS capacity)"
      else ok d

  unfoldable pub parse_cpus : Value → Result Double
  unfolding match_cpus parse_float cpus_value
  parse_cpus (text s) =
      given (match_cpus s) (thrown "Invalid cpus") (λ num. cpus_value (parse_float num))
  parse_cpus _ = thrown "Invalid cpus"

  unfoldable pub scaled : Scale → Double → Double
  unfolding times
  scaled bytes d = d
  scaled kilo d = times unit largest d 1024
  scaled mega d = times unit largest (times unit largest d 1024) 1024
  scaled giga d = times unit largest (times unit largest (times unit largest d 1024) 1024) 1024

  unfoldable pub mem_value : Double → Result Double
  unfolding exceeds
  mem_value d =
      if exceeds unit largest d max_agent_mem_bytes
      then thrown "Invalid mem_limit (exceeds VPS total RAM)"
      else ok d

  -- A value that is no string has no `match`.
  unfoldable pub parse_mem_limit : Value → Result Double
  unfolding match_mem_limit parse_float scaled mem_value
  parse_mem_limit (text s) =
      given (match_mem_limit s) (thrown "Invalid mem_limit")
        (λ (num, scale). mem_value (scaled scale (parse_float num)))
  parse_mem_limit _ = thrown "limit.match is not a function"

  -- routes/agents.ts
  unfoldable pub cpus_value_error : Double → Option String
  unfolding is_finite is_positive exceeds
  cpus_value_error d =
      if not (is_finite d) || not (is_positive d)
      then some "cpus must be a positive number (e.g. \"1.0\")"
      else if exceeds unit largest d max_agent_cpus
      then some "cpus must not exceed 4"
      else none

  unfoldable pub cpus_validation_error : Value → Option String
  unfolding match_cpus parse_float cpus_value_error
  cpus_validation_error (text s) =
      given (match_cpus s) (some "cpus must be a positive number (e.g. \"1.0\")")
        (λ num. cpus_value_error (parse_float num))
  cpus_validation_error _ = some "cpus must be a string"

  abbrev pub multiplier : Scale → ℕ
  multiplier bytes = 1
  multiplier kilo = 1024
  multiplier mega = 1024 * 1024
  multiplier giga = 1024 * 1024 * 1024

  unfoldable pub mem_value_error : Double → Option String
  unfolding is_finite is_positive exceeds
  mem_value_error d =
      if not (is_finite d) || not (is_positive d)
      then some "mem_limit must be a positive amount of memory"
      else if exceeds unit largest d max_agent_mem_bytes
      then some "mem_limit must not exceed the VPS's total RAM"
      else none

  unfoldable pub mem_limit_validation_error : Value → Option String
  unfolding match_mem_limit parse_float times mem_value_error
  mem_limit_validation_error (text s) =
      given (match_mem_limit s) (some "mem_limit must be a number with an optional k/m/g unit")
        (λ (num, scale). mem_value_error (times unit largest (parse_float num) (multiplier scale)))
  mem_limit_validation_error _ = some "mem_limit must be a string"

-- The guard on `pidsLimit` at the creation of a container.
unfoldable pub check_pids : Value → Result ℕ
check_pids (natural n) =
    if n == 0 || ltb max_agent_pids_limit n then thrown "Invalid pidsLimit" else ok n
check_pids _ = thrown "Invalid pidsLimit"

pub record ResourceLimits : Type 0 where
  pub cpus : Double
  pub memory_bytes : Double
  pub pids_limit : ℕ

-- The first of the three that throws ends the creation.
unfoldable pub in_order : Result Double → Result Double → Result ℕ → Result ResourceLimits
in_order (thrown e) mem pids = thrown e
in_order (ok c) (thrown e) pids = thrown e
in_order (ok c) (ok m) (thrown e) = thrown e
in_order (ok c) (ok m) (ok p) = ok (record { cpus = c; memory_bytes = m; pids_limit = p })

-- How `createAndStartContainer` reads its limits, before the cpus are rounded to billionths.
unfoldable pub container_limits : ℕ → ℕ → (Text → ℕ) → Value → Value → Value → Result ResourceLimits
unfolding parse_cpus parse_mem_limit check_pids in_order
container_limits unit largest round cpus mem_limit pids_limit =
    in_order (parse_cpus unit largest round cpus) (parse_mem_limit unit largest round mem_limit)
      (check_pids pids_limit)

unfoldable pub pids_limit_validation_error : Value → Option String
pids_limit_validation_error (natural n) =
    if n == 0
    then some "pids_limit must be a positive integer"
    else if ltb max_agent_pids_limit n
    then some "pids_limit must not exceed 300"
    else none
pids_limit_validation_error (negative n) = some "pids_limit must be a positive integer"
pids_limit_validation_error _ = some "pids_limit must be an integer"

pub record ContainerProfileResourceRow : Type 0 where
  pub name : String
  pub default_cpus : Value
  pub default_mem_limit : Value
  pub default_pids_limit : Value

-- The profile, the field and the error.
pub record ContainerProfileCeilingViolation : Type 0 where
  pub profile : String
  pub field : String
  pub error : String

abbrev pub violation : String → String → Option String → List ContainerProfileCeilingViolation
violation profile field none = []
violation profile field (some e) = record { profile = profile; field = field; error = e } ∷ []

module _ (unit largest : ℕ) (round : Text → ℕ) where
  unfoldable pub violations_of : ContainerProfileResourceRow → List ContainerProfileCeilingViolation
  unfolding cpus_validation_error mem_limit_validation_error pids_limit_validation_error
  violations_of p =
      violation p.name "default_cpus" (cpus_validation_error unit largest round p.default_cpus)
      ++ violation p.name "default_mem_limit"
          (mem_limit_validation_error unit largest round p.default_mem_limit)
      ++ violation p.name "default_pids_limit" (pids_limit_validation_error p.default_pids_limit)

  unfoldable pub container_profile_ceiling_violations :
      List ContainerProfileResourceRow → List ContainerProfileCeilingViolation
  unfolding violations_of
  container_profile_ceiling_violations [] = []
  container_profile_ceiling_violations (p ∷ ps) =
      violations_of p ++ container_profile_ceiling_violations ps

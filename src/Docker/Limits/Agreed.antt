-- ===== src/Docker/Limits/Agreed.antt =====
-- What the routes take for a limit is what the container's creation takes.
use hill90_app.Docker.Limits.{
  max_agent_pids_limit, ResourceLimits, in_order, container_limits, check_pids, Value, text,
  natural, negative, other, Double, finite, infinite, Scale, bytes, kilo, mega, giga, is_positive,
  is_finite, exceeds, capped, times, parse_float, cpus_value, cpus_value_error, parse_cpus,
  cpus_validation_error, scaled, multiplier, mem_value, mem_value_error, parse_mem_limit,
  mem_limit_validation_error, pids_limit_validation_error, ContainerProfileResourceRow, violation,
  violations_of, container_profile_ceiling_violations, match_cpus, match_mem_limit,
  ContainerProfileCeilingViolation, max_agent_cpus, max_agent_mem_bytes,
}
use hill90_app.Prelude.{
  ℕ, Option, none, some, List, [], ◌∷◌, ◌++◌, ◌≡◌, ◌↔◌, ◌≤◌, ◌<◌, ◌*◌, refl, arith, All, given,
  given, String,
}
use hill90_app.Prelude.Text.{Text}
use hill90_app.Prelude.Exec.{Result, ok, thrown}

module _ (unit : ℕ) where
  -- A positive number of at most `k`.
  abbrev pub IsWithin : ℕ → Double → Type 0
  IsWithin k infinite = ⊥
  IsWithin k (finite n) = (0 < n) × (n ≤ k * unit)

  -- A limit is read as a number in range.
  abbrev pub Reads : ℕ → Result Double → Type 0
  Reads k (thrown e) = ⊥
  Reads k (ok d) = IsWithin k d

given-Reads :
    {A : Type 0} (unit k : ℕ) (o : Option A) (e t : String) (f : A → Option String)
    (g : A → Result Double)
    → ((a : A) → (f a ≡ none) ↔ Reads unit k (g a))
    → (given o (some e) f ≡ none) ↔ Reads unit k (given o (thrown t) g)
unfolding given
given-Reads unit k none e t f g h = ground arith
given-Reads unit k (some a) e t f g h = h a

module _ (unit largest : ℕ) (round : Text → ℕ) where
  cpus_value-Reads :
      (d : Double)
      → (cpus_value_error unit largest round d ≡ none)
        ↔ Reads unit 4 (cpus_value unit largest round d)
  unfolding cpus_value_error cpus_value is_finite is_positive exceeds
  cpus_value-Reads infinite = ground arith
  cpus_value-Reads (finite n) = ground arith

  mem_value-Reads :
      (d : Double)
      → (mem_value_error unit largest round d ≡ none)
        ↔ Reads unit 16761118720 (mem_value unit largest round d)
  unfolding mem_value_error mem_value is_finite is_positive exceeds
  mem_value-Reads infinite = ground arith
  mem_value-Reads (finite n) = ground arith

  times-scaled :
      (scale : Scale) (n : ℕ)
      → times unit largest (capped unit largest n) (multiplier unit largest round scale)
        ≡ scaled unit largest round scale (capped unit largest n)
  unfolding times scaled capped
  times-scaled bytes n = ground arith
  times-scaled kilo n = ground arith
  times-scaled mega n = ground arith
  times-scaled giga n = ground arith

  cpus_validation_error-Reads :
      (v : Value)
      → (cpus_validation_error unit largest round v ≡ none)
        ↔ Reads unit max_agent_cpus (parse_cpus unit largest round v)
  unfolding cpus_validation_error parse_cpus
  cpus_validation_error-Reads (text s) =
      given-Reads unit max_agent_cpus (match_cpus s) _ _ _ _
        (λ num. cpus_value-Reads (parse_float unit largest round num))
  cpus_validation_error-Reads (natural n) = ground arith
  cpus_validation_error-Reads (negative n) = ground arith
  cpus_validation_error-Reads other = ground arith

  mem_limit_validation_error-Reads :
      (v : Value)
      → (mem_limit_validation_error unit largest round v ≡ none)
        ↔ Reads unit max_agent_mem_bytes (parse_mem_limit unit largest round v)
  unfolding mem_limit_validation_error parse_mem_limit parse_float
  mem_limit_validation_error-Reads (text s) =
      given-Reads unit max_agent_mem_bytes (match_mem_limit s) _ _ _ _ (λ (num, scale).
        rw (times-scaled scale (round num))
          (mem_value-Reads (scaled unit largest round scale (capped unit largest (round num)))))
  mem_limit_validation_error-Reads (natural n) = ground arith
  mem_limit_validation_error-Reads (negative n) = ground arith
  mem_limit_validation_error-Reads other = ground arith

-- A number of processes from 1 to 300.
abbrev pub IsCount : Result ℕ → Type 0
IsCount (thrown e) = ⊥
IsCount (ok n) = (0 < n) × (n ≤ max_agent_pids_limit)

pids_limit_validation_error-IsCount :
    (v : Value) → (pids_limit_validation_error v ≡ none) ↔ IsCount (check_pids v)
unfolding pids_limit_validation_error check_pids
pids_limit_validation_error-IsCount (natural n) = ground arith
pids_limit_validation_error-IsCount (text s) = ground arith
pids_limit_validation_error-IsCount (negative n) = ground arith
pids_limit_validation_error-IsCount other = ground arith

-- The limits are read, each above zero and within its ceiling.
abbrev pub IsLimited : ℕ → Result ResourceLimits → Type 0
IsLimited unit (thrown e) = ⊥
IsLimited unit (ok r) =
    IsWithin unit max_agent_cpus r.cpus
    × IsWithin unit max_agent_mem_bytes r.memory_bytes
    × IsCount (ok r.pids_limit)

in_order-IsLimited :
    (unit : ℕ) (c m : Result Double) (p : Result ℕ)
    → IsLimited unit (in_order c m p)
      ↔ (Reads unit max_agent_cpus c × Reads unit max_agent_mem_bytes m × IsCount p)
unfolding in_order
in_order-IsLimited unit (thrown e) m p = (λ h. elim h [ ], λ (a, b, c). elim a [ ])
in_order-IsLimited unit (ok x) (thrown e) p = (λ h. elim h [ ], λ (a, b, c). elim b [ ])
in_order-IsLimited unit (ok x) (ok m) (thrown e) = (λ h. elim h [ ], λ (a, b, c). elim c [ ])
in_order-IsLimited unit (ok c) (ok m) (ok p) = (λ h. h, λ h. h)

violation-none :
    (p f : String) (e : Option String) (rest : List ContainerProfileCeilingViolation)
    → (violation p f e ++ rest ≡ []) ↔ ((e ≡ none) × (rest ≡ []))
violation-none p f none rest = ground arith
violation-none p f (some e) rest = ground arith

module _ (unit largest : ℕ) (round : Text → ℕ) where
  -- A container with the profile's limits is created, and has them.
  abbrev pub IsStartable : ContainerProfileResourceRow → Type 0
  IsStartable p =
      IsLimited unit (
        container_limits unit largest round p.default_cpus p.default_mem_limit p.default_pids_limit)

  violations_of-none :
      (p : ContainerProfileResourceRow) → (violations_of unit largest round p ≡ []) ↔ IsStartable p
  unfolding violations_of container_limits
  violations_of-none p =
      let cpus = cpus_validation_error-Reads unit largest round p.default_cpus in
      let mem = mem_limit_validation_error-Reads unit largest round p.default_mem_limit in
      let pids = pids_limit_validation_error-IsCount p.default_pids_limit in
      let all =
        in_order-IsLimited unit (parse_cpus unit largest round p.default_cpus)
          (parse_mem_limit unit largest round p.default_mem_limit)
          (check_pids p.default_pids_limit) in
      ground (
        arith,
        cpus,
        mem,
        pids,
        all,
        violation-none p.name "default_cpus"
            (cpus_validation_error unit largest round p.default_cpus)
            (violation p.name "default_mem_limit"
                (mem_limit_validation_error unit largest round p.default_mem_limit)
              ++ violation p.name "default_pids_limit"
                  (pids_limit_validation_error p.default_pids_limit)),
        violation-none p.name "default_mem_limit"
            (mem_limit_validation_error unit largest round p.default_mem_limit)
            (violation p.name "default_pids_limit"
              (pids_limit_validation_error p.default_pids_limit)),
        violation-none p.name "default_pids_limit"
            (pids_limit_validation_error p.default_pids_limit) [],
      )

append-none : {A : Type 0} (xs ys : List A) → (xs ++ ys ≡ []) ↔ ((xs ≡ []) × (ys ≡ []))
append-none [] ys = ground arith
append-none (x ∷ xs) ys = ground arith

module _ (unit largest : ℕ) (round : Text → ℕ) where
  -- The check of the profiles at startup finds nothing exactly when each profile's limits are ones that the
  -- creation of a container reads without throwing, as numbers above zero and within the ceilings.
  pub container_profile_ceiling_violations-none :
      (ps : List ContainerProfileResourceRow)
      → (container_profile_ceiling_violations unit largest round ps ≡ [])
        ↔ All (λ (p : ContainerProfileResourceRow). IsStartable unit largest round p) ps
  unfolding container_profile_ceiling_violations
  container_profile_ceiling_violations-none [] = (λ e. tt, λ h. refl)
  container_profile_ceiling_violations-none (p ∷ ps) = ground (
    arith,
    violations_of-none unit largest round p,
    container_profile_ceiling_violations-none ps,
    append-none (violations_of unit largest round p)
        (container_profile_ceiling_violations unit largest round ps),
  )

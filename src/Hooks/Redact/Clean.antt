-- ===== src/Hooks/Redact/Clean.antt =====
-- What a log line cannot show.
use hill90_app.Prelude.Text.{Text, text_eq, includes}
use hill90_app.Hooks.Redact.{
  walked, seen_before, redact_value, redact_object, headed, Value, null, undefined, text, scalar,
  ref, Object, error_object, array, plain, instance_of_class, Out, copied, scrubbed, redacted,
  max_depth, circular, named, fields, items, Fields, no_fields, field, Items, no_items, item,
  sensitive, redact_fields, redact_items, redact_levels, redact_deep,
}
use hill90_app.Prelude.{
  suc, ℕ, Option, [], subst, ◌∷◌, inr, Bool-cases, refl, inl, List, sym, none, ◌≡◌, true, some,
  zero, arith,
}

pub data IsInstance : Object → Type 0 where
  of_class : (kvs : List (Text × Value)) → IsInstance (instance_of_class kvs)

-- What may be logged as it is: no text, and no object but an instance of a class.
abbrev pub Harmless : (ℕ → Object) → Value → Type 0
Harmless heap null = Unit {0}
Harmless heap undefined = Unit {0}
Harmless heap (scalar n) = Unit {0}
Harmless heap (text s) = ⊥
Harmless heap (ref id) = IsInstance (heap id)

-- Each text went through `redactString`, and each field with a sensitive name is redacted.
mutual
  pub Clean : (Text → Text) → (ℕ → Object) → Out → Type 0
  Clean redact_string heap (copied v) = Harmless heap v
  Clean redact_string heap (scrubbed s) = (t : Text) × (s ≡ redact_string t)
  Clean redact_string heap redacted = Unit {0}
  Clean redact_string heap max_depth = Unit {0}
  Clean redact_string heap circular = Unit {0}
  Clean redact_string heap (named name fs) = CleanFields redact_string heap fs
  Clean redact_string heap (fields fs) = CleanFields redact_string heap fs
  Clean redact_string heap (items os) = CleanItems redact_string heap os

  pub CleanFields : (Text → Text) → (ℕ → Object) → Fields → Type 0
  CleanFields redact_string heap no_fields = Unit {0}
  CleanFields redact_string heap (field key o fs) =
      (sensitive key ≡ true → o ≡ redacted)
      × Clean redact_string heap o
      × CleanFields redact_string heap fs

  pub CleanItems : (Text → Text) → (ℕ → Object) → Items → Type 0
  CleanItems redact_string heap no_items = Unit {0}
  CleanItems redact_string heap (item o os) =
      Clean redact_string heap o × CleanItems redact_string heap os

module _ (redact_string : Text → Text) (heap : ℕ → Object) where
  Walks : (List ℕ → Value → Out × List ℕ) → Type 0
  Walks walk = (seen : List ℕ) (v : Value) → Clean redact_string heap (walk seen v).0

  redact_fields-Clean :
      (walk : List ℕ → Value → Out × List ℕ) (seen : List ℕ) (kvs : List (Text × Value))
      → Walks walk
      → CleanFields redact_string heap (redact_fields walk seen kvs).0
  unfolding redact_fields Clean Walks
  redact_fields-Clean walk seen [] w = tt
  redact_fields-Clean walk seen ((key, v) ∷ kvs) w = elim (Bool-cases (sensitive key)) [
    | inl e ↦ rw e ((λ q. refl), tt, redact_fields-Clean walk seen kvs w)
    | inr e ↦ rw e (
      (λ q. absurd (ground (arith, e, q))),
      w seen v,
      redact_fields-Clean walk (walk seen v).1 kvs w,
    )
  ]

  redact_items-Clean :
      (walk : List ℕ → Value → Out × List ℕ) (seen : List ℕ) (vs : List Value)
      → Walks walk
      → CleanItems redact_string heap (redact_items walk seen vs).0
  unfolding redact_items Clean Walks
  redact_items-Clean walk seen [] w = tt
  redact_items-Clean walk seen (v ∷ vs) w = (w seen v, redact_items-Clean walk (walk seen v).1 vs w)

  headed-Clean :
      (message : Text) (stack : Option Text) (rest : Fields)
      → CleanFields redact_string heap rest
      → CleanFields redact_string heap (headed redact_string message stack rest)
  unfolding headed Clean sensitive includes text_eq
  headed-Clean message none rest c = ((λ q. absurd (ground (arith, q))), (message, refl), c)
  headed-Clean message (some stack) rest c = (
    (λ q. absurd (ground (arith, q))),
    (message, refl),
    ((λ q. absurd (ground (arith, q))), (stack, refl), c),
  )

  redact_object-Clean :
      (walk : List ℕ → Value → Out × List ℕ) (seen : List ℕ) (id : ℕ) (o : Object)
      → heap id ≡ o
      → Walks walk
      → Clean redact_string heap (redact_object redact_string walk seen id o).0
  unfolding redact_object Clean
  redact_object-Clean walk seen id (error_object name message stack kvs) e w =
      headed-Clean message stack _ (redact_fields-Clean walk seen (walked kvs) w)
  redact_object-Clean walk seen id (array vs) e w = redact_items-Clean walk seen vs w
  redact_object-Clean walk seen id (plain kvs) e w = redact_fields-Clean walk seen kvs w
  redact_object-Clean walk seen id (instance_of_class kvs) e w =
      subst IsInstance (sym e) (of_class kvs)

  redact_value-Clean :
      (walk : List ℕ → Value → Out × List ℕ) (seen : List ℕ) (v : Value)
      → Walks walk
      → Clean redact_string heap (redact_value redact_string heap walk seen v).0
  unfolding redact_value Clean
  redact_value-Clean walk seen null w = tt
  redact_value-Clean walk seen undefined w = tt
  redact_value-Clean walk seen (text s) w = (s, refl)
  redact_value-Clean walk seen (scalar n) w = tt
  redact_value-Clean walk seen (ref id) w = elim (Bool-cases (seen_before id seen)) [
    | inl e ↦ rw e tt
    | inr e ↦ rw e (redact_object-Clean walk (id ∷ seen) id (heap id) refl w)
  ]

  redact_levels-Clean : (levels : ℕ) → Walks (redact_levels redact_string heap levels)
  unfolding redact_levels Clean Walks
  redact_levels-Clean zero seen v = tt
  redact_levels-Clean (suc levels) seen v =
      redact_value-Clean (redact_levels redact_string heap levels) seen v
        (redact_levels-Clean levels)

  -- However deep, shared or cyclic a value is, in what is logged of it each field with a sensitive name is
  -- redacted and each text, but for the name of an error, went through `redactString`; an object that
  -- is logged unwalked is an instance of a class.
  pub redact_deep-Clean : (v : Value) → Clean redact_string heap (redact_deep redact_string heap v)
  unfolding redact_deep Walks
  redact_deep-Clean v = redact_levels-Clean 9 [] v

-- ===== src/Chat/Mentions/Found.antt =====
-- Which slugs `parseMentions` finds: those that stand in the text as mentions.
use hill90_app.Chat.Mentions.{
  text_eq, without, unique, slugs_from, parse_mentions, is_space, Text, is_slug_start, is_slug_char,
  take_slug, mention,
}
use hill90_app.Prelude.{
  given, ◌↔◌, ◌⊎◌, if-so, Option, ◌∙◌, ◌&&◌, In, subst, if-not, or_else, ◌==◌, sym, if-both, List,
  none, some, arith, ap, Bool-cases, refl, ◌++◌, Bool, ℕ, ◌∷◌, ◌≡◌, All, true, if◌then◌else◌, inr,
  inl, [], false,
}
use hill90_app.Prelude.Text.{text_eq_iff}

-- A slug is not empty, and its characters are the letters a to z, digits and dashes, the first of them no dash.
abbrev pub IsSlug : Text → Type 0
IsSlug [] = ⊥
IsSlug (c ∷ s) = (is_slug_start c ≡ true) × All (λ (d : ℕ). is_slug_char d ≡ true) s

-- A mention may start behind the text: at its start, or behind white space.
abbrev pub opens : Bool → Text → Bool
opens at [] = at
opens at (c ∷ s) = opens (is_space c) s

-- A slug ends before the text.
abbrev pub Ends : Text → Type 0
Ends [] = Unit
Ends (c ∷ s) = is_slug_char c ≡ false

-- The text has an '@' with the slug `x` behind it, where a mention may start.
abbrev pub Mentions : Bool → Text → Text → Type 0
Mentions at x s =
    (before : Text) × (after : Text) × (s ≡ before ++ 64 ∷ x ++ after)
    × (opens at before ≡ true)
    × IsSlug x
    × Ends after

-- A text is its slug and what follows.
rest_of : Text → Text
rest_of [] = []
rest_of (c ∷ s) = let rest = rest_of s in if is_slug_char c then rest else c ∷ s

take_slug-rest_of : (s : Text) → s ≡ take_slug s ++ rest_of s
unfolding take_slug rest_of
take_slug-rest_of [] = refl
take_slug-rest_of (c ∷ s) = ground (arith, take_slug-rest_of s)

take_slug-chars : (s : Text) → All (λ (d : ℕ). is_slug_char d ≡ true) (take_slug s)
unfolding take_slug
take_slug-chars [] = tt
take_slug-chars (c ∷ s) = elim (Bool-cases (is_slug_char c)) [
  | inl e ↦ rw e (e, take_slug-chars s)
  | inr e ↦ rw e tt
]

rest_of-Ends : (s : Text) → Ends (rest_of s)
unfolding rest_of
rest_of-Ends [] = tt
rest_of-Ends (c ∷ s) = elim (Bool-cases (is_slug_char c)) [
  | inl e ↦ rw e (rest_of-Ends s)
  | inr e ↦ rw e e
]

-- A slug that ends is taken whole.
take_slug-append :
    (x s : Text) → All (λ (d : ℕ). is_slug_char d ≡ true) x → Ends s → take_slug (x ++ s) ≡ x
unfolding take_slug
take_slug-append [] [] h e = refl
take_slug-append [] (c ∷ s) h e = rw e refl
take_slug-append (d ∷ x) s h e = rw h.0 (ap (λ l. d ∷ l) (take_slug-append x s h.1 e))

mention-append : (x s : Text) → IsSlug x → Ends s → mention (64 ∷ x ++ s) ≡ some x
unfolding mention
mention-append [] s h e = elim h [ ]
mention-append (c ∷ x) s h e = ground (arith, h.0, take_slug-append x s h.1 e)

-- What `mention` reads.
Read : Text → Text → Type 0
Read x s = (after : Text) × (s ≡ 64 ∷ x ++ after) × IsSlug x × Ends after

some_inj : {A : Type 0} {a b : A} → some a ≡ some b → a ≡ b
some_inj {a = a} h = ap (λ o. or_else o a) h

read :
    (a c : ℕ) (s x : Text)
    → a ≡ 64
    → is_slug_start c ≡ true
    → c ∷ take_slug s ≡ x
    → Read x (a ∷ c ∷ s)
unfolding Read
read a c s x ea ec ex =
    subst (λ (y : Text). Read y (a ∷ c ∷ s)) ex
      (
        rest_of s,
        ground (arith, ap (λ (l : Text). 64 ∷ c ∷ l) (take_slug-rest_of s)),
        (ec, take_slug-chars s),
        rest_of-Ends s,
      )

mention-Read : (s x : Text) → mention s ≡ some x → Read x s
unfolding mention Read
mention-Read [] x h = cc
mention-Read (a ∷ []) x h = cc
mention-Read (a ∷ c ∷ s) x h = elim (Bool-cases (a == 64 && is_slug_start c)) [
  | inl e ↦
      let found : some (c ∷ take_slug s) ≡ some x = sym (if-so _ _ _ e) ∙ h in
      read a c s x (ground (arith, e)) (ground (arith, e)) (some_inj found)
  | inr e ↦ cc (sym (if-not _ _ _ e) ∙ h)
]

further :
    (x : Text) (at : Bool) (c : ℕ) (s : Text) → Mentions (is_space c) x s → Mentions at x (c ∷ s)
further x at c s (before, after, e, o, i, n) =
    (c ∷ before, after, ap (λ (l : Text). c ∷ l) e, o, i, n)

at_start : (x : Text) (s : Text) → Read x s → Mentions true x s
unfolding Read
at_start x s (after, e, i, n) = ([], after, e, refl, i, n)

first_or_later :
    (x : Text) (c : ℕ) (s : Text) (found : Option Text)
    → mention (c ∷ s) ≡ found
    → (In x (slugs_from (is_space c) s) → Mentions (is_space c) x s)
    → In x (given found (slugs_from (is_space c) s) (λ slug. slug ∷ slugs_from (is_space c) s))
    → Mentions true x (c ∷ s)
unfolding given
first_or_later x c s none e ih h = further x true c s (ih h)
first_or_later x c s (some slug) e ih (inl same) =
    at_start x (c ∷ s) (mention-Read (c ∷ s) x (e ∙ ap some (sym same)))
first_or_later x c s (some slug) e ih (inr i) = further x true c s (ih i)

later_In :
    (x : Text) (at : Bool) (found : Option Text) (later : List Text)
    → In x later
    → In x (if at then given found later (λ slug. slug ∷ later) else later)
unfolding given
later_In x false found later h = h
later_In x true none later h = h
later_In x true (some slug) later h = inr h

slugs_from-Mentions : (x : Text) (at : Bool) (s : Text) → In x (slugs_from at s) → Mentions at x s
unfolding slugs_from
slugs_from-Mentions x at [] h = elim h [ ]
slugs_from-Mentions x false (c ∷ s) h = further x false c s (slugs_from-Mentions x (is_space c) s h)
slugs_from-Mentions x true (c ∷ s) h =
    first_or_later x c s (mention (c ∷ s)) refl (slugs_from-Mentions x (is_space c) s) h

slugs_from-append :
    (x before after : Text) (at : Bool)
    → opens at before ≡ true
    → IsSlug x
    → Ends after
    → In x (slugs_from at (before ++ 64 ∷ x ++ after))
unfolding slugs_from
slugs_from-append x [] after false o i e = cc
slugs_from-append x [] after true o i e = rw (mention-append x after i e) (inl refl)
slugs_from-append x (c ∷ before) after at o i e =
    later_In x at (mention (c ∷ before ++ 64 ∷ x ++ after)) _
      (slugs_from-append x before after (is_space c) o i e)

kept : (x z : Text) (zs : List Text) → In x (z ∷ zs) → (x ≡ z) ⊎ In x zs
kept x z zs h = h

without-In : (x y : Text) (ys : List Text) → In x ys → (x ≡ y) ⊎ In x (without y ys)
unfolding without
without-In x y [] h = elim h [ ]
without-In x y (z ∷ zs) (inl e) = elim (Bool-cases (text_eq y z)) [
  | inl same ↦ inl (e ∙ sym ((text_eq_iff y z).0 same))
  | inr other ↦ rw other (inr (inl e))
]
without-In x y (z ∷ zs) (inr i) = elim (without-In x y zs i) [
  | inl e ↦ inl e
  | inr j ↦ inr (if-both (λ l. In x l) (text_eq y z) (without y zs) (z ∷ without y zs) j (inr j))
]

In-without : (x y : Text) (ys : List Text) → In x (without y ys) → In x ys
unfolding without
In-without x y [] h = h
In-without x y (z ∷ zs) h = elim (Bool-cases (text_eq y z)) [
  | inl same ↦ inr (In-without x y zs (subst (In x) (if-so _ _ _ same) h))
  | inr other ↦ elim (kept x z (without y zs) (subst (In x) (if-not _ _ _ other) h)) [
    | inl e ↦ inl e
    | inr j ↦ inr (In-without x y zs j)
  ]
]

unique-In : (x : Text) (xs : List Text) → In x (unique xs) ↔ In x xs
unfolding unique
unique-In x [] = (λ h. h, λ h. h)
unique-In x (y ∷ ys) = (
  λ h. elim h [ inl e ↦ inl e | inr i ↦ inr ((unique-In x ys).0 (In-without x y (unique ys) i)) ],
  λ h. elim h [ inl e ↦ inl e | inr i ↦ without-In x y (unique ys) ((unique-In x ys).1 i) ],
)

found_In : (content x : Text) → Mentions true x content → In x (slugs_from true content)
found_In content x (before, after, e, o, i, n) =
    subst (λ (s : Text). In x (slugs_from true s)) (sym e)
      (slugs_from-append x before after true o i n)

-- The slugs that are found in a text are exactly those that it mentions: behind an '@' that stands at
-- its start or behind white space, as far as the letters a to z, digits and dashes go.
pub parse_mentions-Mentions :
    (content x : Text) → In x (parse_mentions content).slugs ↔ Mentions true x content
unfolding parse_mentions
parse_mentions-Mentions content x = (
  λ h. slugs_from-Mentions x true content ((unique-In x (slugs_from true content)).0 h),
  λ h. (unique-In x (slugs_from true content)).1 (found_In content x h),
)

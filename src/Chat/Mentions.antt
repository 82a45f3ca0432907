-- ===== src/Chat/Mentions.antt =====
-- services/api/src/routes/chat.ts, `parseMentions`: the pattern (?:^|\s)@([a-z0-9][a-z0-9-]*) is a walk
-- over the text that knows whether a mention may start where it stands. A text is in UTF-16 code units.
pub mod Found
use hill90_app.Prelude.{
  given, zero, suc, length, ℕ, Bool, true, List, [], ◌∷◌, if◌then◌else◌, ◌==◌, leb, ◌&&◌, ◌||◌,
  Option, none, some,
}
use hill90_app.Prelude.Text.{Text, text_eq, is_space, trim}

-- [a-z0-9] and [a-z0-9-]
unfoldable pub is_slug_start : ℕ → Bool
is_slug_start c = (leb 97 c && leb c 122) || (leb 48 c && leb c 57)

unfoldable pub is_slug_char : ℕ → Bool
unfolding is_slug_start
is_slug_char c = is_slug_start c || c == 45

-- Where a slug ends.
unfoldable pub take_slug : Text → Text
unfolding is_slug_char
take_slug [] = []
take_slug (c ∷ s) = let rest = take_slug s in if is_slug_char c then c ∷ rest else []

-- The slug of a mention that starts here: an '@' and a character that may start a slug.
unfoldable pub mention : Text → Option Text
unfolding take_slug is_slug_start
mention (a ∷ c ∷ s) = if a == 64 && is_slug_start c then some (c ∷ take_slug s) else none
mention _ = none

-- The slugs of the mentions; `at` says that one may start here, at the start of the text or behind white
-- space.
unfoldable pub slugs_from : Bool → Text → List Text
unfolding mention is_space given
slugs_from at [] = []
slugs_from at (c ∷ s) =
    let later = slugs_from (is_space c) s in
    if at then given (mention (c ∷ s)) later (λ slug. slug ∷ later) else later

-- The text less its mentions, each with the white space before it; `k` characters are still to be left
-- out.
unfoldable pub strip_from : ℕ → Text → Text
unfolding mention is_space
strip_from k [] = []
strip_from (suc k) (c ∷ s) = strip_from k s
strip_from zero (c ∷ s) =
    let kept = c ∷ strip_from zero s in
    if is_space c
    then (elim (mention s) [ none ↦ kept | some slug ↦ strip_from (suc (length slug)) s ])
    else kept

unfoldable pub strip_mentions : Text → Text
unfolding strip_from mention
strip_mentions s = elim (mention s) [
  | none ↦ strip_from 0 s
  | some slug ↦ strip_from (suc (length slug)) s
]

without : Text → List Text → List Text
without x [] = []
without x (y ∷ ys) = let rest = without x ys in if text_eq x y then rest else y ∷ rest

-- `[...new Set(slugs)]`
unfoldable pub unique : List Text → List Text
unfolding without
unique [] = []
unique (x ∷ xs) = x ∷ without x (unique xs)

-- `a || b` on strings.
abbrev pub or_text : Text → Text → Text
or_text [] b = b
or_text (c ∷ s) b = c ∷ s

pub record Parsed : Type 0 where
  pub slugs : List Text
  pub clean_content : Text

unfoldable pub parse_mentions : Text → Parsed
unfolding slugs_from strip_mentions unique trim
parse_mentions content = record {
  slugs = unique (slugs_from true content);
  clean_content = or_text (trim (strip_mentions content)) (trim content);
}

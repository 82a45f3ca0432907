-- ===== src/Access/Page.antt =====
-- services/api/src/helpers/page-params.ts: `limit` and `offset` of a bounded list. A parameter is given
-- by what `Number` makes of it.
pub mod Accepted
use hill90_app.Prelude.{ℕ, Bool, true, false, Option, none, some, String, ltb, ◌||◌, if◌then◌else◌}

abbrev pub max_page : ℕ
max_page = 2000

-- No integer, one below zero, or one that is not.
pub data Parameter : Type 0 where
  not_integer negative : Parameter
  natural : ℕ → Parameter

pub record PageParams : Type 0 where
  pub limit : Option ℕ
  pub offset : Option ℕ

pub data Parsed : Type 0 where
  page : PageParams → Parsed
  error : String → Parsed

-- One round of the loop each; `none` is an absent parameter.
parse_limit : Option Parameter → PageParams → Parsed
parse_limit none out = page out
parse_limit (some not_integer) out = error "limit must be an integer"
parse_limit (some negative) out = error "limit must be between 1 and 2000"
parse_limit (some (natural n)) out =
    if ltb n 1 || ltb max_page n
    then error "limit must be between 1 and 2000"
    else page (record out { limit = some n })

parse_offset : Option Parameter → PageParams → Parsed
parse_offset none out = page out
parse_offset (some not_integer) out = error "offset must be an integer"
parse_offset (some negative) out = error "offset must be >= 0"
parse_offset (some (natural n)) out = page (record out { offset = some n })

unfoldable pub parse_page_params : Option Parameter → Option Parameter → Parsed
unfolding parse_limit parse_offset
parse_page_params limit offset = elim (parse_limit limit (record { limit = none; offset = none })) [
  | error e ↦ error e
  | page out ↦ parse_offset offset out
]

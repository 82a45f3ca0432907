-- ===== src/Access/Page/Accepted.antt =====
-- Which parameters of a page are accepted.
use hill90_app.Prelude.{ℕ, ◌≡◌, Bool, true, false, Option, none, some, arith, leb, ◌&&◌}
use hill90_app.Access.Page.{Parameter, natural, PageParams, page, parse_page_params, max_page}

-- The number that a parameter stands for.
pub value_of : Option Parameter → Option ℕ
value_of (some (natural n)) = some n
value_of (some x) = none
value_of none = none

pub is_limit : Option Parameter → Bool
is_limit none = true
is_limit (some (natural n)) = leb 1 n && leb n max_page
is_limit (some x) = false

pub is_offset : Option Parameter → Bool
is_offset none = true
is_offset (some (natural n)) = true
is_offset (some x) = false

-- A page is accepted only with a limit between 1 and 2000, if there is one, and an offset from 0, and
-- carries exactly these numbers: nothing is clamped.
parse_page_params-page :
    (limit offset : Option Parameter) (p : PageParams)
    → parse_page_params limit offset ≡ page p
    → (is_limit limit ≡ true)
      × (is_offset offset ≡ true)
      × (p.limit ≡ value_of limit)
      × (p.offset ≡ value_of offset)
unfolding parse_page_params value_of is_limit is_offset
parse_page_params-page limit offset p h = ground (arith, h)

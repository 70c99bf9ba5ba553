-- ===== src/Handlers/Paging.antt =====
-- internal/http/handlers/auth.go: the page of ListUsers.
use anti_river_ten_demo.Prelude.{arith, inl, inr, Bool-cases, Option-cases}
use anti_river_ten_demo.Prelude.Int.{pos, ◌≤ℤ◌}
use anti_river_ten_demo.Strings.{Bytes, is_empty}
use anti_river_ten_demo.Handlers.Admin.{page_limit, page_offset, parse_positive_int}

page_limit-bounds : (s : Bytes) → (pos 1 ≤ℤ page_limit s) × (page_limit s ≤ℤ pos 100)
unfolding page_limit
page_limit-bounds s = elim (Bool-cases (is_empty s)) [
  | inl e ↦ rw e (omega arith, omega arith)
  | inr e ↦ elim (Option-cases (parse_positive_int s)) [
    | inl h ↦ rw (e, h) (omega arith, omega arith)
    | inr (n, h) ↦ rw (e, h) (ground arith, ground arith)
  ]
]

page_offset_positive : (s : Bytes) → pos 0 ≤ℤ page_offset s
unfolding page_offset
page_offset_positive s = elim (Bool-cases (is_empty s)) [
  | inl e ↦ rw e (omega arith)
  | inr e ↦ elim (Option-cases (parse_positive_int s)) [
    | inl h ↦ rw (e, h) (omega arith)
    | inr (n, h) ↦ rw (e, h) (ground arith)
  ]
]

-- Whatever the two query parameters are, a page has a limit from 1 to 100 and an offset that is not
-- negative.
pub page_bounds :
    (limit offset : Bytes)
    → (pos 1 ≤ℤ page_limit limit) × (page_limit limit ≤ℤ pos 100) × (pos 0 ≤ℤ page_offset offset)
page_bounds limit offset =
    let (least, most) = page_limit-bounds limit in (least, most, page_offset_positive offset)

-- ===== src/Handlers/Report/Percentiles.antt =====
-- internal/http/handlers/sqllog_report.go: the percentiles of the query. The set of the numbers that
-- were seen is the list of those that were kept.
pub mod Chosen
use anti_river_ten_demo.Prelude.{
  ℕ, Bool, true, false, ◌||◌, Option, none, some, List, [], ◌∷◌, map, take, ltb, if◌then◌else◌,
}
use anti_river_ten_demo.Prelude.Int.{ℤ, pos, pos_part, ltb_ℤ}
use anti_river_ten_demo.Prelude.Sort.{sort_ints, add_once}
use anti_river_ten_demo.Strings.{Bytes, is_empty, trim_space, split}
use anti_river_ten_demo.Strconv.{parse_int}
use anti_river_ten_demo.Exec.{Result, ok, err, and_then}

pub data PctError : Type 0 where
  empty_list : PctError
  non_integer : Bytes → PctError
  out_of_range : ℤ → PctError
  no_valid_values : PctError

unfoldable pub in_range : ℤ → Result PctError (Option ℕ)
in_range n =
    if ltb_ℤ n (pos 0) || ltb_ℤ (pos 100) n then err (out_of_range n) else ok (some (pos_part n))

abbrev pub integer_of : Bytes → Option ℤ → Result PctError (Option ℕ)
integer_of p none = err (non_integer p)
integer_of p (some n) = in_range n

-- One part of the list: nothing if it is empty.
unfoldable pub pct_part : Bytes → Result PctError (Option ℕ)
pct_part part =
    let p = trim_space part in if is_empty p then ok none else integer_of p (parse_int p)

abbrev pub keep_number : Option ℕ → List ℕ → List ℕ
keep_number none ints = ints
keep_number (some n) ints = add_once n ints

-- The loop, behind the numbers that were kept.
unfoldable pub pct_values : List Bytes → List ℕ → Result PctError (List ℕ)
pct_values [] ints = ok ints
pct_values (part ∷ parts) ints =
    and_then (pct_part part) (λ o. pct_values parts (keep_number o ints))

-- The sorted numbers, ten at most, as fractions.
unfoldable pub pct_fractions : List ℕ → Result PctError (List ℤ)
pct_fractions [] = err no_valid_values
pct_fractions (n ∷ ints) = ok (map pos (take 10 (sort_ints (n ∷ ints))))

unfoldable pub parse_percentiles : Bytes → Result PctError (List ℤ)
parse_percentiles s =
    if is_empty (trim_space s)
    then err empty_list
    else and_then (pct_values (split s b',') []) pct_fractions

-- ===== src/Strconv.antt =====
-- Go's decimal conversions: fmt's %d of a non-negative integer, and strconv.ParseInt(s, 10, 64),
-- which strconv.Atoi equals on a 64-bit platform. `none` is a syntax or range error.
pub mod Laws
use anti_river_ten_demo.Prelude.{
  ℕ, zero, suc, ◌+◌, ◌-◌, ◌*◌, ◌/◌, ◌%◌, Bool, true, false, ◌&&◌, Option, none, some, List, [], ◌∷◌,
  ltb, leb, ◌==◌, if◌then◌else◌,
}
use anti_river_ten_demo.Prelude.Int.{ℤ, pos, negsuc, int64_limit}
use anti_river_ten_demo.Strings.{Bytes}

unfoldable pub is_digit : ℕ → Bool
is_digit c = leb b'0' c && leb c b'9'

-- The digits of `n` in front of `out`; the fuel `n` is enough, for each round divides by ten.
unfoldable pub emit : ℕ → ℕ → Bytes → Bytes
emit zero n out = out
emit (suc fuel) n out =
    let rest = emit fuel (n / 10) ((b'0' + n % 10) ∷ out) in if n == 0 then out else rest

-- fmt.Sprintf("%d", n)
unfoldable pub decimal : ℕ → Bytes
unfolding emit
decimal n = if n == 0 then b'0' ∷ [] else emit n n []

-- fmt.Sprintf("%d", n) of an int64.
unfoldable pub decimal_int : ℤ → Bytes
decimal_int (pos n) = decimal n
decimal_int (negsuc n) = b'-' ∷ decimal (suc n)

-- The number that digits spell behind `n`, and `none` at another byte.
unfoldable pub scan : Bytes → ℕ → Option ℕ
unfolding is_digit
scan [] n = some n
scan (c ∷ s) n = let rest = scan s (n * 10 + (c - b'0')) in if is_digit c then rest else none

unfoldable pub parse_nat : Bytes → Option ℕ
unfolding scan
parse_nat [] = none
parse_nat (c ∷ s) = scan (c ∷ s) 0

abbrev below : ℕ → ℕ → Option ℤ
below limit n = if ltb n limit then some (pos n) else none

abbrev minus : ℕ → Option ℤ
minus zero = some (pos 0)
minus (suc n) = if ltb n int64_limit then some (negsuc n) else none

abbrev signed : (ℕ → Option ℤ) → Option ℕ → Option ℤ
signed f none = none
signed f (some n) = f n

unfoldable pub parse_int : Bytes → Option ℤ
unfolding parse_nat
parse_int [] = none
parse_int (c ∷ s) =
    if c == b'-'
    then signed minus (parse_nat s)
    else if c == b'+'
    then signed (below int64_limit) (parse_nat s)
    else signed (below int64_limit) (parse_nat (c ∷ s))

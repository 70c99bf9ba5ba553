-- ===== src/Strconv/Laws.antt =====
-- A printed number is read back, and what is printed are digits.
use anti_river_ten_demo.Prelude.{
  ℕ, zero, suc, ◌+◌, ◌/◌, ◌%◌, ◌≤◌, ◌<◌, ◌≡◌, ◌≢◌, refl, false, some, [], ◌∷◌, arith, lt→ltb, ◌==◌,
  All, Bool-cases, inl, inr,
}
use anti_river_ten_demo.Prelude.Int.{pos, int64_limit}
use anti_river_ten_demo.Strings.{Bytes}
use anti_river_ten_demo.Strconv.{emit, decimal, scan, parse_nat, parse_int}

abbrev pub IsDigit : ℕ → Type 0
IsDigit c = (b'0' ≤ c) × (c ≤ b'9')

scan_last : (n : ℕ) (out : Bytes) → scan ((b'0' + n % 10) ∷ out) (n / 10) ≡ scan out n
unfolding scan
scan_last n out = ground arith

scan-emit : (fuel n : ℕ) (out : Bytes) → n ≤ fuel → scan (emit fuel n out) 0 ≡ scan out n
unfolding emit
scan-emit zero n out h = let e : n ≡ 0 = omega arith in rw e
scan-emit (suc fuel) n out h = elim (Bool-cases (n == 0)) [
  | inl done ↦ let e : n ≡ 0 = ground arith in rw e
  | inr more ↦
      let smaller : n / 10 ≤ fuel = ground arith in
      rw (more, scan-emit fuel (n / 10) ((b'0' + n % 10) ∷ out) smaller) (scan_last n out)
]

emit-digits : (fuel n : ℕ) (out : Bytes) → All IsDigit out → All IsDigit (emit fuel n out)
unfolding emit
emit-digits zero n out h = h
emit-digits (suc fuel) n out h =
    ground
      (arith, emit-digits fuel (n / 10) ((b'0' + n % 10) ∷ out) ((omega arith, omega arith), h))

emit-ne-nil : (fuel n : ℕ) (out : Bytes) → out ≢ [] → emit fuel n out ≢ []
unfolding emit
emit-ne-nil zero n out h = h
emit-ne-nil (suc fuel) n out h =
    ground (arith, emit-ne-nil fuel (n / 10) ((b'0' + n % 10) ∷ out) (cc))

-- Every printed number is made of digits.
pub decimal-digits : (n : ℕ) → All IsDigit (decimal n)
unfolding decimal
decimal-digits n = ground (arith, emit-digits n n [] tt)

pub decimal-ne-nil : (n : ℕ) → decimal n ≢ []
unfolding decimal
decimal-ne-nil zero = cc
decimal-ne-nil (suc n) = ground (arith, emit-ne-nil n (suc n / 10) ((b'0' + suc n % 10) ∷ []) (cc))

scan-decimal : (n : ℕ) → scan (decimal n) 0 ≡ some n
unfolding decimal scan
scan-decimal n = ground (arith, scan-emit n n [] (omega arith))

parse_nat-scan : (s : Bytes) → s ≢ [] → parse_nat s ≡ scan s 0
unfolding parse_nat
parse_nat-scan [] h = absurd (h refl)
parse_nat-scan (c ∷ s) h = refl

-- A printed number is read back.
pub parse_nat-decimal : (n : ℕ) → parse_nat (decimal n) ≡ some n
parse_nat-decimal n = rw (parse_nat-scan (decimal n) (decimal-ne-nil n)) (scan-decimal n)

parse_int-parse_nat :
    (s : Bytes) (n : ℕ)
    → All IsDigit s
    → parse_nat s ≡ some n
    → n < int64_limit
    → parse_int s ≡ some (pos n)
unfolding parse_int
parse_int-parse_nat [] n h e lt = cc
parse_int-parse_nat (c ∷ s) n (d, h) e lt =
    let not_minus : (c == b'-') ≡ false = ground arith in
    let not_plus : (c == b'+') ≡ false = ground arith in
    rw (not_minus, not_plus, e, lt→ltb n int64_limit lt)

-- Every non-negative int64 is read back from its decimal print.
pub parse_int-decimal : (n : ℕ) → n < int64_limit → parse_int (decimal n) ≡ some (pos n)
parse_int-decimal n lt =
    parse_int-parse_nat (decimal n) n (decimal-digits n) (parse_nat-decimal n) lt

-- ===== src/Handlers/Scan/Limit.antt =====
-- internal/http/handlers/sqllog_scan.go: the limit of a scan.
use anti_river_ten_demo.Prelude.{
  ◌≡◌, refl, subst, false, Option, none, some, arith, inl, inr, Bool-cases,
}
use anti_river_ten_demo.Prelude.Int.{ℤ, pos, ltb_ℤ}
use anti_river_ten_demo.Strings.{Bytes, is_empty}
use anti_river_ten_demo.Strconv.{parse_int}
use anti_river_ten_demo.Exec.{Result, ok, err}
use anti_river_ten_demo.Handlers.Scan.{scan_limit, limit_or, clamp_1_1000}

module _ {E A : Type 0} where
  abbrev ok_of : A → Result E A
  ok_of x = ok x

  ok-inj : {x y : A} → ok_of x ≡ ok y → x ≡ y
  ok-inj h = cc

  err-ok : {e : E} {x : A} → err e ≡ ok x → ⊥
  err-ok h = cc

clamp_1_1000-positive : (n : ℤ) → ltb_ℤ (clamp_1_1000 n) (pos 1) ≡ false
clamp_1_1000-positive n = ground arith

limit_or-positive : (o : Option ℤ) (limit : ℤ) → limit_or o ≡ ok limit → ltb_ℤ limit (pos 1) ≡ false
limit_or-positive none limit h = absurd (err-ok h)
limit_or-positive (some n) limit h =
    subst (λ l. ltb_ℤ l (pos 1) ≡ false) (ok-inj h) (clamp_1_1000-positive n)

pub scan_limit-positive :
    (v : Bytes) (limit : ℤ) → scan_limit v ≡ ok limit → ltb_ℤ limit (pos 1) ≡ false
unfolding scan_limit
scan_limit-positive v limit h = elim (Bool-cases (is_empty v)) [
  | inl e ↦ subst (λ l. ltb_ℤ l (pos 1) ≡ false) (ok-inj (rw e at h)) refl
  | inr e ↦ limit_or-positive (parse_int v) limit (rw e at h)
]

-- ===== src/Sqllog/Repo/Limits.antt =====
-- internal/sqllog/repo.go: what the lists of abnormal records hold.
use anti_river_ten_demo.Prelude.{ℕ, ◌≤◌, ◌≡◌, false, some, arith, Bool-cases, inl, inr}
use anti_river_ten_demo.Prelude.Int.{ℤ, pos, negsuc, pos_part, ltb_ℤ, leb_ℤ}
use anti_river_ten_demo.Db.Laws.{AtMost}
use anti_river_ten_demo.Sqllog.Repo.{clamp_list_limit}

pub clamp_list_limit-AtMost :
    (limit : ℤ) (n : ℕ)
    → ltb_ℤ limit (pos 1) ≡ false
    → AtMost (some (clamp_list_limit limit)) n
    → (n ≤ pos_part limit) × (n ≤ 1000)
unfolding clamp_list_limit
clamp_list_limit-AtMost (pos k) n h a =
    let e0 : leb_ℤ (pos k) (pos 0) ≡ false = ground arith in
    elim (Bool-cases (ltb_ℤ (pos 1000) (pos k))) [
      | inl e ↦ let a' = rw (e0, e) at a in (ground arith, a')
      | inr e ↦ let a' = rw (e0, e) at a in (a', ground arith)
    ]
clamp_list_limit-AtMost (negsuc k) n h a = absurd (ground arith)

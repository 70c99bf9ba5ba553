-- ===== src/Sqllog/Report/Filter/Prepared.antt =====
-- internal/sqllog/report.go: the bounds of the filter that Analyze works with.
use anti_river_ten_demo.Prelude.{
  ℕ, suc, ◌+◌, ◌≤◌, ◌<◌, ◌≡◌, refl, ap, ◌∙◌, false, List, [], ◌∷◌, ◌++◌, map, any, ltb, ◌==◌,
  length, length-append, length-take, append_assoc, append-nil, take, All, All-append, Bool-cases,
  inl, inr, arith,
}
use anti_river_ten_demo.Prelude.Int.{ℤ, pos, ◌≤ℤ◌}
use anti_river_ten_demo.Prelude.Sort.{
  sort_ints, add_once, Increasing, Distinct, NotIn, sort_ints-Increasing, sort_ints_sorted,
  sort-each, length-sort, add_once-Distinct, add_once-each,
}
use anti_river_ten_demo.Sqllog.Report.{threshold_or}
use anti_river_ten_demo.Sqllog.Report.Anomalies.{clamp_limit_lem}
use anti_river_ten_demo.Sqllog.Report.Filter.{
  ReportFilter, default_filter, fraction_key, fraction_keys, sanitize_fractions, prepare, pcts_or,
  clamp_top_patterns,
}

abbrev pub AtMost100 : ℕ → Type 0
AtMost100 n = n ≤ 100

-- A list of percentiles: in strictly increasing order, each between 0 and 100, one to ten.
pub record Percents (ns : List ℕ) : Type 0 where
  pub increasing : Increasing ns
  pub bounded : All AtMost100 ns
  pub some_value : 1 ≤ length ns
  pub few : length ns ≤ 10

key-bounded : (v : ℤ) → fraction_key v ≤ 100
unfolding fraction_key
key-bounded v = ground arith

add_once-length :
    (n : ℕ) (keys : List ℕ)
    → (length keys ≤ length (add_once n keys))
      × (length (add_once n keys) ≤ suc (length keys))
      × (1 ≤ length (add_once n keys))
add_once-length n [] = (omega arith, omega arith, omega arith)
add_once-length n (k ∷ keys) = elim (Bool-cases (any (λ y. y == n) (k ∷ keys))) [
  | inl e ↦ rw e (omega arith, omega arith, omega arith)
  | inr e ↦
      let l = length-append (k ∷ keys) (n ∷ []) in
      rw e (omega (arith, l), omega (arith, l), omega (arith, l))
]

keys-Distinct : (vs : List ℤ) (keys : List ℕ) → Distinct keys → Distinct (fraction_keys vs keys)
unfolding fraction_keys
keys-Distinct [] keys h = h
keys-Distinct (v ∷ vs) keys h =
    keys-Distinct vs (add_once (fraction_key v) keys) (add_once-Distinct (fraction_key v) keys h)

keys-bounded :
    (vs : List ℤ) (keys : List ℕ) → All AtMost100 keys → All AtMost100 (fraction_keys vs keys)
unfolding fraction_keys
keys-bounded [] keys h = h
keys-bounded (v ∷ vs) keys h =
    keys-bounded vs (add_once (fraction_key v) keys)
      (add_once-each AtMost100 (fraction_key v) keys (key-bounded v) h)

keys-length :
    (vs : List ℤ) (keys : List ℕ)
    → (length (fraction_keys vs keys) ≤ length vs + length keys)
      × (1 ≤ length vs + length keys → 1 ≤ length (fraction_keys vs keys))
unfolding fraction_keys
keys-length [] keys = (omega arith, λ h. omega arith)
keys-length (v ∷ vs) keys =
    let (_, b, c) = add_once-length (fraction_key v) keys in
    let (d, e) = keys-length vs (add_once (fraction_key v) keys) in
    (omega (arith, b, d), λ h. e (omega (arith, c)))

pub sanitized-Percents :
    (vs : List ℤ) → 1 ≤ length vs → length vs ≤ 10 → Percents (sort_ints (fraction_keys vs []))
sanitized-Percents vs some_v few =
    let (d, e) = keys-length vs [] in
    let l = length-sort ltb (fraction_keys vs []) in
    record {
      increasing = sort_ints-Increasing (fraction_keys vs []) (keys-Distinct vs [] tt);
      bounded = sort-each ltb AtMost100 (fraction_keys vs []) (keys-bounded vs [] tt);
      some_value = omega (arith, l, e (omega arith));
      few = omega (arith, l, d);
    }

-- A list that is in order already is not changed.
NotIn-any : (n : ℕ) (keys : List ℕ) → NotIn n keys → any (λ y. y == n) keys ≡ false
NotIn-any n [] h = refl
NotIn-any n (k ∷ keys) (e, h) = rw (e, NotIn-any n keys h) refl

later-NotIn :
    (n : ℕ) (keys ns : List ℕ)
    → All (λ m. n < m) ns
    → All (λ m. NotIn m keys) ns
    → All (λ m. NotIn m (keys ++ n ∷ [])) ns
later-NotIn n keys [] a h = tt
later-NotIn n keys (m ∷ ns) (l, a) (i, h) = (
  All-append (λ y. (y == m) ≡ false) keys (n ∷ []) i (ground arith, tt),
  later-NotIn n keys ns a h,
)

key_of_pos : (n : ℕ) → n ≤ 100 → fraction_key (pos n) ≡ n
unfolding fraction_key
key_of_pos n h = ground arith

keys_in_order :
    (ns keys : List ℕ)
    → Increasing ns
    → All AtMost100 ns
    → All (λ n. NotIn n keys) ns
    → fraction_keys (map pos ns) keys ≡ keys ++ ns
unfolding fraction_keys
keys_in_order [] keys h b a = rw (append-nil keys) refl
keys_in_order (n ∷ ns) keys (l, h) (p, b) (i, a) =
    let e : add_once (fraction_key (pos n)) keys ≡ keys ++ n ∷ [] =
      rw (key_of_pos n p, NotIn-any n keys i) refl in
    ap (fraction_keys (map pos ns)) e
    ∙ keys_in_order ns (keys ++ n ∷ []) h b (later-NotIn n keys ns l a)
    ∙ append_assoc keys (n ∷ []) ns

none-NotIn : (ns : List ℕ) → All (λ n. NotIn n []) ns
none-NotIn [] = tt
none-NotIn (n ∷ ns) = (tt, none-NotIn ns)

-- sanitizeFractions leaves a list as it is that has percentiles between 0 and 100 in strictly
-- increasing order.
pub sanitize_fractions-Increasing :
    (ns : List ℕ) → Increasing ns → All AtMost100 ns → sanitize_fractions (map pos ns) ≡ map pos ns
unfolding sanitize_fractions
sanitize_fractions-Increasing ns h b =
    rw (keys_in_order ns [] h b (none-NotIn ns), sort_ints_sorted ns h) refl

-- What the first lines of Analyze make of a filter.
pub record Prepared (now : ℕ) (g f : ReportFilter) : Type 0 where
  pub ordered : g.from ≤ now → f.from ≤ f.to
  pub limited : pos 1 ≤ℤ f.limit
  pub slow : pos 1 ≤ℤ f.slow_ms
  pub freq_slow : pos 1 ≤ℤ f.freq_slow_ms
  pub frequent : pos 1 ≤ℤ f.freq_count
  pub percents : (ns : List ℕ) × Percents ns × (f.pcts ≡ map pos ns)
  pub patterns : (pos 1 ≤ℤ f.top_patterns) × (f.top_patterns ≤ℤ pos 200)

threshold_or-positive : (n d : ℤ) → pos 1 ≤ℤ d → pos 1 ≤ℤ threshold_or n d
unfolding threshold_or
threshold_or-positive n d h = ground arith

clamp_top_patterns-bounds :
    (n : ℤ) → (pos 1 ≤ℤ clamp_top_patterns n) × (clamp_top_patterns n ≤ℤ pos 200)
unfolding clamp_top_patterns
clamp_top_patterns-bounds n = (ground arith, ground arith)

pcts_or-Percents :
    (vs : List ℤ)
    → (ns : List ℕ) × Percents ns × (sanitize_fractions (take 10 (pcts_or vs)) ≡ map pos ns)
unfolding sanitize_fractions pcts_or
pcts_or-Percents [] = (_, sanitized-Percents _ (omega arith) (omega arith), refl)
pcts_or-Percents (v ∷ vs) =
    let l = length-take 9 vs in
    (_, sanitized-Percents (v ∷ take 9 vs) (omega arith) (omega (arith, l)), refl)

-- The filter that Analyze works with has a limit and thresholds that are positive, one to ten
-- percentiles between 0 and 100 in strictly increasing order, 1 to 200 patterns, and a window that
-- is not empty, if its first bound was not given in the future.
pub prepare-Prepared : (now : ℕ) (f : ReportFilter) → Prepared now f (prepare now f)
unfolding prepare default_filter
prepare-Prepared now f =
    let (l, _, _) = clamp_limit_lem f.limit f.max_cap in
    record {
      ordered = λ h. ground arith;
      limited = l;
      slow = threshold_or-positive f.slow_ms _ (omega arith);
      freq_slow = threshold_or-positive f.freq_slow_ms _ (omega arith);
      frequent = threshold_or-positive f.freq_count _ (omega arith);
      percents = pcts_or-Percents f.pcts;
      patterns = clamp_top_patterns-bounds f.top_patterns;
    }

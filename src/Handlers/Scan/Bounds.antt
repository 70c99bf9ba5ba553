-- ===== src/Handlers/Scan/Bounds.antt =====
-- internal/http/handlers/sqllog_scan.go: what a scan answers.
use anti_river_ten_demo.Prelude.{
  ℕ, ◌≤◌, ◌≡◌, refl, sym, ap, subst, count, Bool, ◌&&◌, ◌||◌, ◌⊎◌, true, false, none, some, List,
  [], ◌∷◌, map, All, length, arith, inl, inr, Bool-cases, ◌==◌, if◌then◌else◌,
}
use anti_river_ten_demo.Prelude.Int.{ℤ, pos, pos_part, ltb_ℤ}
use anti_river_ten_demo.Strings.{Bytes, text, is_empty, str_eq, trim_space}
use anti_river_ten_demo.Strings.Laws.{str_eq_iff}
use anti_river_ten_demo.Exec.{Result, ok, err, pure, lift, catch, ◌>>=◌, fail_with, continue}
use anti_river_ten_demo.Db.{DbError, Query}
use anti_river_ten_demo.Db.Laws.{TableLaws, Elem, Listed, Counted}
use anti_river_ten_demo.Handlers.{
  Reply, json, plain_error, error_envelope, no_body, Request, finish, merge,
}
use anti_river_ten_demo.Handlers.Scan.{
  ScanResp, scan_item, scan_limit, scan_threshold, scan_count, scan_list, scan_items, scan_handler,
  count_failed, list_failed, nothing_found,
}
use anti_river_ten_demo.Handlers.Scan.Limit.{scan_limit-positive}
use anti_river_ten_demo.Sqllog.{SqlLog}
use anti_river_ten_demo.Sqllog.Repo.{
  LogStore, clamp_list_limit, list_slowest, slowest_first, above, above_in, of_db,
  abnormal_exec_time_threshold, abnormal_exec_count_threshold, count_abnormal_with_thresholds,
  count_abnormal_by_db_with_thresholds, list_abnormal_with_thresholds,
  list_abnormal_by_db_with_thresholds,
}
use anti_river_ten_demo.Sqllog.Repo.Limits.{clamp_list_limit-AtMost}

-- Above both thresholds, and of the database if one is named.
abbrev pub slow_in : Bytes → ℤ → ℤ → SqlLog → Bool
slow_in name time count it =
    (is_empty name || str_eq it.db_name name)
    && (ltb_ℤ time it.exec_time_ms && ltb_ℤ count it.exec_count)

abbrev pub scan_query : Bytes → ℤ → ℤ → ℤ → Query SqlLog
scan_query name limit time count = record {
  condition = slow_in name time count;
  before = slowest_first;
  limit = some (clamp_list_limit limit);
  offset = none;
}

abbrev pub Shown : List SqlLog → Bytes → ℤ → ℤ → SqlLog → Type 0
Shown rows name time count it =
    Elem it rows
    × (ltb_ℤ time it.exec_time_ms ≡ true)
    × (ltb_ℤ count it.exec_count ≡ true)
    × (is_empty name ≡ false → it.db_name ≡ name)

module _ (b : LogStore) (w : b.World) where
  open b use {World, logs}

  abbrev pub counted_in : Bytes → ℤ → ℤ → Result DbError ℕ × World
  counted_in name time count' = logs.count_rows (slow_in name time count') w

  abbrev pub listed_in : Bytes → ℤ → ℤ → ℤ → Result DbError (List SqlLog)
  listed_in name limit time count' =
      (logs.find_rows (scan_query name limit time count') (counted_in name time count').1).0

  -- What a scan answers: the total is the number of the stored records above the thresholds, the
  -- items are those that the database lists, of such records, no more than the limit and than 1000;
  -- 500 is for an error of the count or of the list.
  unfoldable pub Scanned : Bytes → ℤ → ℤ → ℤ → Reply ScanResp → Type 0
  Scanned name limit time count' (json code resp) =
      (code ≡ 200)
      × (resp.total ≡ count (slow_in name time count') (logs.rows w))
      × (xs : List SqlLog) × (resp.items ≡ map scan_item xs)
      × (((resp.total ≡ 0) × (xs ≡ [])) ⊎ (listed_in name limit time count' ≡ ok xs))
      × All (Shown (logs.rows w) name time count') xs
      × (length xs ≤ pos_part limit)
      × (length xs ≤ 1000)
  Scanned name limit time count' (plain_error code m) = ⊥
  Scanned name limit time count' (error_envelope code c m) =
      (code ≡ 500)
      × (e : DbError) × (((counted_in name time count').0 ≡ err e)
          ⊎ (listed_in name limit time count' ≡ err e))
  Scanned name limit time count' (no_body code) = ⊥

module _ (b : LogStore) {Stored : SqlLog → SqlLog → Type 0} {touch : ℕ → SqlLog → SqlLog}
    {Outside : b.World → b.World → Type 0} (laws : TableLaws b.logs Stored touch Outside)
    (name : Bytes) (limit time count' : ℤ) (positive : ltb_ℤ limit (pos 1) ≡ false) where
  open b use {World, logs}

  abbrev slow_if : Bool → SqlLog → Bool
  slow_if unnamed it =
      (unnamed || str_eq it.db_name name)
      && (ltb_ℤ time it.exec_time_ms && ltb_ℤ count' it.exec_count)

  abbrev Same : (SqlLog → Bool) → Type 0
  Same condition = condition ≡ slow_in name time count'

  of_all : is_empty name ≡ true → Same (above time count')
  unfolding above
  of_all e = ap slow_if (sym e)

  of_one : is_empty name ≡ false → Same (above_in name time count')
  unfolding above_in above of_db
  of_one e = ap slow_if (sym e)

  scan_count-rows : scan_count b name time count' ≡ logs.count_rows (slow_in name time count')
  unfolding scan_count count_abnormal_with_thresholds count_abnormal_by_db_with_thresholds
  scan_count-rows = elim (Bool-cases (is_empty name)) [
    | inl e ↦ rw e (ap logs.count_rows (of_all e))
    | inr e ↦ rw e (ap logs.count_rows (of_one e))
  ]

  scan_list-rows :
      scan_list b name limit time count' ≡ logs.find_rows (scan_query name limit time count')
  unfolding scan_list list_abnormal_with_thresholds list_abnormal_by_db_with_thresholds list_slowest
  scan_list-rows =
      let listing = list_slowest b in
      elim (Bool-cases (is_empty name)) [
        | inl e ↦ rw e (ap (λ c. listing c limit) (of_all e))
        | inr e ↦ rw e (ap (λ c. listing c limit) (of_one e))
      ]

  slow_in-Shown :
      (rows xs : List SqlLog)
      → All (λ it. Elem it rows × (slow_in name time count' it ≡ true)) xs
      → All (Shown rows name time count') xs
  slow_in-Shown rows [] h = tt
  slow_in-Shown rows (x ∷ xs) ((el, c), h) = (
    (
      el,
      ground (arith, c),
      ground (arith, c),
      λ named. (str_eq_iff x.db_name name).0 (ground (arith, c, named)),
    ),
    slow_in-Shown rows xs h,
  )

  module _ (w : World) where
    shown :
        (items : List SqlLog)
        → listed_in b w name limit time count' ≡ ok items
        → All (Shown (logs.rows w) name time count') items
          × (length items ≤ pos_part limit)
          × (length items ≤ 1000)
    shown items h =
        let q = scan_query name limit time count' in
        let after = (counted_in b w name time count').1 in
        let (listed, most) = subst (Listed q (logs.rows after)) h (laws.find_answer q after) in
        let (asked, capped) = clamp_list_limit-AtMost limit (length items) positive most in
        (
          subst (λ rows. All (Shown rows name time count') items)
              (laws.count_kept (slow_in name time count') w)
              (slow_in-Shown (logs.rows after) items listed),
          asked,
          capped,
        )

    finish_list :
        (total : ℕ) (res : Result DbError (List SqlLog)) (w' : World)
        → total ≡ count (slow_in name time count') (logs.rows w)
        → listed_in b w name limit time count' ≡ res
        → Scanned b w name limit time count' (
            merge
              (continue
                (fail_with list_failed res)
                (λ items. pure (
                  json 200 (record {
                    message = text "scan complete";
                    total = total;
                    items = map scan_item items;
                  })))
                w').0)
    unfolding Scanned pure
    finish_list total (ok items) w' counted h =
        let (all_of, asked, capped) = shown items h in
        (refl, counted, items, refl, inr h, all_of, asked, capped)
    finish_list total (err e) w' counted h = (refl, e, inr h)

    finish_scan :
        (total : ℕ)
        → total ≡ count (slow_in name time count') (logs.rows w)
        → Scanned b w name limit time count'
            (finish
              (if total == 0 then pure nothing_found else scan_items b name limit time count' total)
              (counted_in b w name time count').1).0
    unfolding finish scan_items ◌>>=◌ catch pure Scanned
    finish_scan total counted = elim (Bool-cases (total == 0)) [
      | inl e ↦
          let none' : 0 ≡ count (slow_in name time count') (logs.rows w) =
            ground (arith, e, counted) in
          rw e (refl, none', [], refl, inl (refl, refl), tt, omega arith, omega arith)
      | inr e ↦
          rw (e, scan_list-rows)
            (finish_list total (listed_in b w name limit time count') _ counted refl)
    ]

    finish_count :
        (res : Result DbError ℕ)
        → (counted_in b w name time count').0 ≡ res
        → Scanned b w name limit time count' (
            merge
              (continue
                (fail_with count_failed res)
                (λ total.
                  if total == 0
                  then pure nothing_found
                  else scan_items b name limit time count' total)
                (counted_in b w name time count').1).0)
    unfolding Scanned finish
    finish_count (ok total) h = finish_scan total (
        subst (Counted (slow_in name time count') (logs.rows w)) h
          (laws.count_answer (slow_in name time count') w))
    finish_count (err e) h = (refl, e, inl h)

    scanned :
        (r : Request)
        → trim_space (r.query (text "dbName")) ≡ name
        → scan_limit (r.query (text "limit")) ≡ ok limit
        → scan_threshold abnormal_exec_time_threshold
            (text "invalid exec_time_ms")
            (r.query (text "exec_time_ms"))
          ≡ ok time
        → scan_threshold abnormal_exec_count_threshold
            (text "invalid exec_count")
            (r.query (text "exec_count"))
          ≡ ok count'
        → Scanned b w name limit time count' (scan_handler b r w).0
    unfolding scan_handler finish ◌>>=◌ lift catch
    scanned r hn hl ht hc =
        rw (hl, ht, hc, hn, scan_count-rows) (finish_count (counted_in b w name time count').0 refl)

module _ (b : LogStore) {Stored : SqlLog → SqlLog → Type 0} {touch : ℕ → SqlLog → SqlLog}
    {Outside : b.World → b.World → Type 0} (laws : TableLaws b.logs Stored touch Outside) where
  open b use {World, logs}

  -- If the table keeps its laws, a scan whose parameters are accepted answers 500 only for an error
  -- of the database, in the count or in the list; otherwise 200, with the number of the stored
  -- records above both thresholds, of the named database if there is one, and with the items that the
  -- database lists, of such records, at most as many as the limit and never more than 1000; without
  -- a list, there are none.
  pub scan_handler-Scanned :
      (r : Request) (w : World) (limit time count' : ℤ)
      → scan_limit (r.query (text "limit")) ≡ ok limit
      → scan_threshold abnormal_exec_time_threshold
          (text "invalid exec_time_ms")
          (r.query (text "exec_time_ms"))
        ≡ ok time
      → scan_threshold abnormal_exec_count_threshold
          (text "invalid exec_count")
          (r.query (text "exec_count"))
        ≡ ok count'
      → Scanned b w (trim_space (r.query (text "dbName"))) limit time count' (scan_handler b r w).0
  scan_handler-Scanned r w limit time count' hl ht hc =
      scanned b laws _ limit time count' (scan_limit-positive _ limit hl) w r refl hl ht hc

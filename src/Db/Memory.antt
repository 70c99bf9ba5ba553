-- ===== src/Db/Memory.antt =====
-- A table kept in a list, which shows that the laws of a table can be met. A write that would break
-- a constraint of the table (`valid`: keys and foreign keys) fails and changes nothing.
use anti_river_ten_demo.Prelude.{
  ℕ, zero, suc, ◌≡◌, refl, Bool, true, false, Option, none, some, List, [], ◌∷◌, ◌++◌, map, filter,
  find, count, length, take, All, arith, inl, inr, Bool-cases, length-take, if◌then◌else◌,
}
use anti_river_ten_demo.Prelude.Int.{ℤ, pos, negsuc}
use anti_river_ten_demo.Strings.{text}
use anti_river_ten_demo.Exec.{Result, ok, err}
use anti_river_ten_demo.Db.{DbError, record_not_found, failed, Query, Table}
use anti_river_ten_demo.Db.Laws.{
  TableLaws, Elem, AtMost, Found, Listed, Created, Updated, Deleted, change, other_than,
}

module _ {R : Type 0} where
  abbrev found_or : Option R → Result DbError R
  found_or none = err record_not_found
  found_or (some r) = ok r

  abbrev limited : Option ℤ → List R → List R
  limited none xs = xs
  limited (some (pos n)) xs = take n xs
  limited (some (negsuc n)) xs = xs

  later :
      (p : R → Bool) (r : R) (rows : List R) (o : Option R)
      → p r ≡ false
      → Found p rows (found_or o)
      → Found p (r ∷ rows) (found_or o)
  later p r rows none miss h = rw miss h
  later p r rows (some x) miss h = (inr h.0, h.1)

  -- What find answers.
  find_lem : (p : R → Bool) (rows : List R) → Found p rows (found_or (find p rows))
  find_lem p [] = refl
  find_lem p (r ∷ rows) = elim (Bool-cases (p r)) [
    | inl hit ↦ rw hit (inl refl, hit)
    | inr miss ↦ rw miss (later p r rows (find p rows) miss (find_lem p rows))
  ]

  All-weaken : {P Q : R → Type 0} (xs : List R) → ((x : R) → P x → Q x) → All P xs → All Q xs
  All-weaken [] f h = tt
  All-weaken (x ∷ xs) f (p, h) = (f x p, All-weaken xs f h)

  All-take : (P : R → Type 0) (n : ℕ) (xs : List R) → All P xs → All P (take n xs)
  All-take P zero xs h = tt
  All-take P (suc n) [] h = tt
  All-take P (suc n) (x ∷ xs) (p, h) = (p, All-take P n xs h)

  All-filter :
      (c : R → Bool) (rows : List R) → All (λ x. Elem x rows × (c x ≡ true)) (filter c rows)
  All-filter c [] = tt
  All-filter c (r ∷ rows) =
      let deeper : All (λ x. Elem x (r ∷ rows) × (c x ≡ true)) (filter c rows) =
        All-weaken (filter c rows) (λ x h. (inr h.0, h.1)) (All-filter c rows) in
      elim (Bool-cases (c r)) [
        | inl hit ↦ rw hit ((inl refl, hit), deeper)
        | inr miss ↦ rw miss deeper
      ]

  limited-All :
      (P : R → Type 0) (limit : Option ℤ) (xs : List R) → All P xs → All P (limited limit xs)
  limited-All P none xs h = h
  limited-All P (some (pos n)) xs h = All-take P n xs h
  limited-All P (some (negsuc n)) xs h = h

  limited-AtMost : (limit : Option ℤ) (xs : List R) → AtMost limit (length (limited limit xs))
  limited-AtMost none xs = tt
  limited-AtMost (some (pos n)) xs = omega (arith, length-take n xs)
  limited-AtMost (some (negsuc n)) xs = tt

  limited_lem :
      (q : Query R) (rows : List R) → Listed q rows (ok (limited q.limit (filter q.condition rows)))
  limited_lem q rows =
      (limited-All _ q.limit _ (All-filter q.condition rows), limited-AtMost q.limit _)

module _ {W R : Type 0} (raw : W → List R) (set_raw : List R → W → W) (valid : List R → Bool)
    (touch : ℕ → R → R) where
  unfoldable pub rows_of : W → List R
  rows_of w = if valid (raw w) then raw w else []

  -- The new rows, if they are valid.
  write : {A : Type 0} → A → List R → W → Result DbError A × W
  write a l w =
      if valid l then (ok a, set_raw l w) else (err (failed (text "constraint violation")), w)

  write_cases :
      {A : Type 0} (P : Result DbError A × W → Type 0) (a : A) (l : List R) (w : W)
      → (valid l ≡ true → P (ok a, set_raw l w))
      → P (err (failed (text "constraint violation")), w)
      → P (write a l w)
  unfolding write
  write_cases P a l w good bad = elim (Bool-cases (valid l)) [
    | inl e ↦ rw e (good e)
    | inr e ↦ rw e bad
  ]

  unfoldable pub memory_table : Table W R
  unfolding rows_of write
  memory_table = record {
    rows = rows_of;
    count_rows = λ p w. (ok (count p (rows_of w)), w);
    first = λ p w. (found_or (find p (rows_of w)), w);
    find_rows = λ q w. (ok (limited q.limit (filter q.condition (rows_of w))), w);
    create = λ r w. write r (rows_of w ++ r ∷ []) w;
    update = λ p f w. write tt (map (change touch p f 0) (rows_of w)) w;
    delete = λ p w. write tt (filter (other_than p) (rows_of w)) w;
  }

  module _ (Stored : R → R → Type 0) (Outside : W → W → Type 0) (Stored_refl : (r : R) → Stored r r)
      (Outside_refl : (w : W) → Outside w w)
      (Outside-set : (l : List R) (w : W) → Outside w (set_raw l w))
      (raw-set : (l : List R) (w : W) → raw (set_raw l w) ≡ l) where
    rows-set : (l : List R) (w : W) → valid l ≡ true → rows_of (set_raw l w) ≡ l
    unfolding rows_of
    rows-set l w e = rw (raw-set, e)

    outside_write : {A : Type 0} (a : A) (l : List R) (w : W) → Outside w (write a l w).1
    outside_write a l w =
        write_cases (λ out. Outside w out.1) a l w (λ _. Outside-set l w) (Outside_refl w)

    pub memory_laws : TableLaws memory_table Stored touch Outside
    unfolding memory_table
    memory_laws = record {
      count_answer = λ p w. refl;
      count_kept = λ p w. refl;
      count_outside = λ p w. Outside_refl w;
      first_answer = λ p w. find_lem p (rows_of w);
      first_kept = λ p w. refl;
      first_outside = λ p w. Outside_refl w;
      find_answer = λ q w. limited_lem q (rows_of w);
      find_kept = λ q w. refl;
      find_outside = λ q w. Outside_refl w;
      create_effect = λ r w.
          write_cases (λ out. Created Stored r (rows_of w) (rows_of out.1) out.0) r _ w
            (λ e. (Stored_refl r, rows-set _ w e)) refl;
      create_outside = λ r w. outside_write r _ w;
      update_effect = λ p f w.
          write_cases (λ out. Updated touch p f (rows_of w) (rows_of out.1) out.0) tt _ w
            (λ e. (0, rows-set _ w e)) refl;
      update_outside = λ p f w. outside_write tt _ w;
      delete_effect = λ p w.
          write_cases (λ out. Deleted p (rows_of w) (rows_of out.1) out.0) tt _ w
            (λ e. rows-set _ w e) refl;
      delete_outside = λ p w. outside_write tt _ w;
    }

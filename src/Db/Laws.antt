-- ===== src/Db/Laws.antt =====
-- What a table of the database promises: an answer speaks of the rows at the time of the call, a
-- write does what its statement says or fails and writes nothing.
use anti_river_ten_demo.Prelude.{
  ℕ, ◌≤◌, ◌≡◌, Bool, true, not, Option, none, some, List, [], ◌∷◌, ◌++◌, map, filter, count, length,
  All, if◌then◌else◌,
}
pub use anti_river_ten_demo.Prelude.{Elem}
use anti_river_ten_demo.Prelude.Int.{ℤ, pos, negsuc}
use anti_river_ten_demo.Exec.{Result, ok, err}
use anti_river_ten_demo.Db.{DbError, record_not_found, failed, Table, Query}

abbrev pub AtMost : Option ℤ → ℕ → Type 0
AtMost none n = Unit
AtMost (some (pos limit)) n = n ≤ limit
AtMost (some (negsuc k)) n = Unit

module _ {R : Type 0} where
  -- What an answer says of the rows.
  abbrev pub Counted : (R → Bool) → List R → Result DbError ℕ → Type 0
  Counted p rows (ok n) = n ≡ count p rows
  Counted p rows (err e) = Unit

  abbrev pub Found : (R → Bool) → List R → Result DbError R → Type 0
  Found p rows (ok r) = Elem r rows × (p r ≡ true)
  Found p rows (err record_not_found) = count p rows ≡ 0
  Found p rows (err (failed e)) = Unit

  abbrev pub Listed : Query R → List R → Result DbError (List R) → Type 0
  Listed q rows (ok xs) =
      All (λ x. Elem x rows × (q.condition x ≡ true)) xs × AtMost q.limit (length xs)
  Listed q rows (err e) = Unit

  -- What a write has done: the rows before, the rows after, the result.
  abbrev pub Created : (R → R → Type 0) → R → List R → List R → Result DbError R → Type 0
  Created Stored r old new (ok r') = Stored r r' × (new ≡ old ++ r' ∷ [])
  Created Stored r old new (err e) = new ≡ old

  -- gorm sets the time stamp of a changed row: `touch`.
  abbrev pub change : (ℕ → R → R) → (R → Bool) → (R → R) → ℕ → R → R
  change touch p f t r = if p r then touch t (f r) else r

  abbrev pub Updated :
      (ℕ → R → R) → (R → Bool) → (R → R) → List R → List R → Result DbError (Unit {0}) → Type 0
  Updated touch p f old new (ok _) = (t : ℕ) × (new ≡ map (change touch p f t) old)
  Updated touch p f old new (err e) = new ≡ old

  abbrev pub other_than : (R → Bool) → R → Bool
  other_than p r = not (p r)

  abbrev pub Deleted : (R → Bool) → List R → List R → Result DbError (Unit {0}) → Type 0
  Deleted p old new (ok _) = new ≡ filter (other_than p) old
  Deleted p old new (err e) = new ≡ old

-- `Outside` says that nothing but this table has changed.
pub record TableLaws {W R : Type 0} (t : Table W R) (Stored : R → R → Type 0) (touch : ℕ → R → R)
    (Outside : W → W → Type 0) : Type 0 where
  pub count_answer : (p : R → Bool) (w : W) → Counted p (t.rows w) (t.count_rows p w).0
  pub count_kept : (p : R → Bool) (w : W) → t.rows (t.count_rows p w).1 ≡ t.rows w
  pub count_outside : (p : R → Bool) (w : W) → Outside w (t.count_rows p w).1
  pub first_answer : (p : R → Bool) (w : W) → Found p (t.rows w) (t.first p w).0
  pub first_kept : (p : R → Bool) (w : W) → t.rows (t.first p w).1 ≡ t.rows w
  pub first_outside : (p : R → Bool) (w : W) → Outside w (t.first p w).1
  pub find_answer : (q : Query R) (w : W) → Listed q (t.rows w) (t.find_rows q w).0
  pub find_kept : (q : Query R) (w : W) → t.rows (t.find_rows q w).1 ≡ t.rows w
  pub find_outside : (q : Query R) (w : W) → Outside w (t.find_rows q w).1
  pub create_effect :
      (r : R) (w : W) → Created Stored r (t.rows w) (t.rows (t.create r w).1) (t.create r w).0
  pub create_outside : (r : R) (w : W) → Outside w (t.create r w).1
  pub update_effect :
      (p : R → Bool) (f : R → R) (w : W)
      → Updated touch p f (t.rows w) (t.rows (t.update p f w).1) (t.update p f w).0
  pub update_outside : (p : R → Bool) (f : R → R) (w : W) → Outside w (t.update p f w).1
  pub delete_effect :
      (p : R → Bool) (w : W) → Deleted p (t.rows w) (t.rows (t.delete p w).1) (t.delete p w).0
  pub delete_outside : (p : R → Bool) (w : W) → Outside w (t.delete p w).1

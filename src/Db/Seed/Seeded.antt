-- ===== src/Db/Seed/Seeded.antt =====
-- internal/db/seed.go: what the table of the roles holds after the seeding.
use anti_river_ten_demo.Prelude.{
  ◌≡◌, refl, sym, ◌∙◌, ◌⊎◌, inl, inr, List, [], ◌∷◌, ◌++◌, map, append_assoc, append-nil, All, Elem,
}
use anti_river_ten_demo.Strings.{Bytes, text}
use anti_river_ten_demo.Exec.{Result, ok, err, pure, catch, fail_with, continue, ◌>>=◌}
use anti_river_ten_demo.Db.{DbError, Role}
use anti_river_ten_demo.Db.Seed.{
  RoleStore, default_roles, SeedError, seed_role, seed_roles, seed_default_roles,
}

abbrev code_of : Role → Bytes
code_of r = r.code

abbrev pub HasCode : Bytes → List Role → Type 0
HasCode code rows = Elem code (map code_of rows)

-- What an insert has done that leaves a known code alone: the row was there or is appended; after an
-- error nothing has changed.
abbrev pub Inserted : Role → List Role → List Role → Result DbError (Unit {0}) → Type 0
Inserted r old new (ok u) =
    (HasCode r.code old × (new ≡ old)) ⊎ ((s : Role) × (s.code ≡ r.code) × (new ≡ old ++ s ∷ []))
Inserted r old new (err e) = new ≡ old

pub record RoleLaws (b : RoleStore) : Type 0 where
  pub insert_effect :
      (r : Role) (w : b.World)
      → Inserted r (b.rows w) (b.rows (b.create_or_skip r w).1) (b.create_or_skip r w).0

append-HasCode :
    (code : Bytes) (rows more : List Role) → HasCode code rows → HasCode code (rows ++ more)
append-HasCode code [] more h = absurd h
append-HasCode code (r ∷ rows) more (inl e) = inl e
append-HasCode code (r ∷ rows) more (inr h) = inr (append-HasCode code rows more h)

last-HasCode : (rows : List Role) (s : Role) → HasCode s.code (rows ++ s ∷ [])
last-HasCode [] s = inl refl
last-HasCode (r ∷ rows) s = inr (last-HasCode rows s)

-- The rows that there were are still there, first and in their order.
abbrev pub Extends : List Role → List Role → Type 0
Extends old new = (added : List Role) × (new ≡ old ++ added)

-- The table before and after the seeding of some roles, and its result.
abbrev pub SeededBy : List Bytes → List Role → List Role → Result SeedError (Unit {0}) → Type 0
SeededBy codes old new (ok u) = Extends old new × All (λ code. HasCode code new) codes
SeededBy codes old new (err e) = Extends old new

-- The five codes of the system.
abbrev pub five_codes : List Bytes
five_codes = text "USER" ∷ text "ADMIN" ∷ text "ANALYZER" ∷ text "MONITOR" ∷ text "TEAM_LEADER" ∷ []

module _ (b : RoleStore) (laws : RoleLaws b) where
  open b use {World, rows, create_or_skip}

  abbrev Step : Type 0
  Step = Result DbError (Unit {0}) × World

  step-Extends :
      (r : Role) (old new : List Role) (o : Result DbError (Unit {0}))
      → Inserted r old new o
      → Extends old new
  step-Extends r old new (ok u) (inl (h, e)) = ([], e ∙ sym (append-nil old))
  step-Extends r old new (ok u) (inr (s, c, e)) = (s ∷ [], e)
  step-Extends r old new (err d) e = ([], e ∙ sym (append-nil old))

  step-HasCode : (r : Role) (old new : List Role) → Inserted r old new (ok tt) → HasCode r.code new
  step-HasCode r old new (inl (h, e)) = rw e h
  step-HasCode r old new (inr (s, c, e)) = rw (e, ← c) (last-HasCode old s)

  Extends-trans : (a c d : List Role) → Extends a c → Extends c d → Extends a d
  Extends-trans a c d (x, e) (y, f) = (x ++ y, rw (f, e) (append_assoc a x y))

  later-SeededBy :
      (r : Role) (codes : List Bytes) (old mid new : List Role) (o : Result SeedError (Unit {0}))
      → HasCode r.code mid
      → Extends old mid
      → SeededBy codes mid new o
      → SeededBy (r.code ∷ codes) old new o
  later-SeededBy r codes old mid new (ok u) h x ((added, e), each) =
      (Extends-trans old mid new x (added, e), (rw e (append-HasCode r.code mid added h), each))
  later-SeededBy r codes old mid new (err d) h x y = Extends-trans old mid new x y

  after_step :
      (r : Role) (roles : List Role) (w : World) (o : Step)
      → ((w' : World)
          → SeededBy
              (map code_of roles)
              (rows w')
              (rows (seed_roles b roles w').1)
              (seed_roles b roles w').0)
      → Inserted r (rows w) (rows o.1) o.0
      → (let end = continue (fail_with (seed_role r.code) o.0) (λ u. seed_roles b roles) o.1 in
          SeededBy (map code_of (r ∷ roles)) (rows w) (rows end.1) end.0)
  after_step r roles w (err d, w') rest h = step-Extends r (rows w) (rows w') (err d) h
  after_step r roles w (ok u, w') rest h =
      later-SeededBy r (map code_of roles) (rows w) (rows w') (rows (seed_roles b roles w').1)
        (seed_roles b roles w').0 (step-HasCode r (rows w) (rows w') h)
        (step-Extends r (rows w) (rows w') (ok u) h) (rest w')

  seed_roles-SeededBy :
      (roles : List Role) (w : World)
      → SeededBy
          (map code_of roles)
          (rows w)
          (rows (seed_roles b roles w).1)
          (seed_roles b roles w).0
  unfolding seed_roles pure ◌>>=◌ catch
  seed_roles-SeededBy [] w = (([], sym (append-nil (rows w))), tt)
  seed_roles-SeededBy (r ∷ roles) w =
      after_step r roles w (create_or_skip r w) (seed_roles-SeededBy roles) (laws.insert_effect r w)

  -- If an insert leaves known codes alone, the seeding keeps every role that there was, as it was,
  -- and adds roles behind them; if it returns no error, the codes USER, ADMIN, ANALYZER,
  -- MONITOR and TEAM_LEADER are in the table.
  pub seed_default_roles-SeededBy :
      (w : World)
      → SeededBy five_codes (rows w) (rows (seed_default_roles b w).1) (seed_default_roles b w).0
  unfolding seed_default_roles default_roles
  seed_default_roles-SeededBy w = seed_roles-SeededBy default_roles w

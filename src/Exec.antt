-- ===== src/Exec.antt =====
-- Methods that change the world and may return an error. What was written before an error stays
-- written, so the state comes back beside the error too.
pub mod Keeps
use anti_river_ten_demo.Prelude.{Bool, true, false, not}

pub data Result {ℓ} (E A : Type ℓ) : Type ℓ where
  ok : A → Result E A
  err : E → Result E A

abbrev pub Exec : Type 0 → Type 0 → Type 0 → Type 0
Exec W E A = W → Result E A × W

module _ {D E A : Type 0} where
  abbrev pub fail_with : (D → E) → Result D A → Result E A
  fail_with f (ok a) = ok a
  fail_with f (err d) = err (f d)

module _ {E A B : Type 0} where
  abbrev pub and_then : Result E A → (A → Result E B) → Result E B
  and_then (ok a) f = f a
  and_then (err e) f = err e

module _ {W E A : Type 0} where
  unfoldable pub pure : A → Exec W E A
  pure a w = (ok a, w)

  unfoldable pub raise : E → Exec W E A
  raise e w = (err e, w)

  -- A call that reads and writes nothing of the world.
  unfoldable pub lift : Result E A → Exec W E A
  lift r w = (r, w)

  -- A call that cannot fail.
  unfoldable pub total : (W → A × W) → Exec W E A
  total m w = let (a, w') = m w in (ok a, w')

module _ {W D E A : Type 0} where
  -- `if err != nil { return f(err) }`
  unfoldable pub catch : (D → E) → Exec W D A → Exec W E A
  catch f m w = let (r, w') = m w in (fail_with f r, w')

module _ {W E A B : Type 0} where
  abbrev pub continue : Result E A → (A → Exec W E B) → Exec W E B
  continue (ok a) f w = f a w
  continue (err e) f w = (err e, w)

  infixl 5 ◌>>=◌
  unfoldable pub ◌>>=◌ : Exec W E A → (A → Exec W E B) → Exec W E B
  ◌>>=◌ m f w = let (r, w') = m w in continue r f w'

module _ {W E B : Type 0} where
  infixl 5 ◌>>◌
  abbrev pub ◌>>◌ : Exec W E (Unit {0}) → Exec W E B → Exec W E B
  m >> n = m >>= λ _. n

module _ {W E : Type 0} where
  -- `if !ok { return err }`
  unfoldable pub check : Bool → E → Exec W E (Unit {0})
  unfolding pure raise
  check true e = pure tt
  check false e = raise e

module _ {W D E A : Type 0} where
  -- `_ = f()`: the result is thrown away, the effect stays.
  unfoldable pub ignore : Exec W D A → Exec W E (Unit {0})
  ignore m w = let (_, w') = m w in (ok tt, w')

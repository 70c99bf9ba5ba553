-- ===== src/Exec/Keeps.antt =====
-- Rules for actions: what an action leaves as it is, one rule for each way to build one, and the
-- inversion of an action that has returned a value.
use anti_river_ten_demo.Prelude.{◌≡◌, refl, ap, ◌∙◌, Bool, true, false, if◌then◌else◌, arith}
use anti_river_ten_demo.Exec.{
  Result, ok, err, Exec, pure, raise, lift, total, catch, ◌>>=◌, continue, check, ignore, and_then,
}

-- `m` does not change what `f` reads of the world.
pub record Fixes {W E A X : Type 0} (f : W → X) (m : Exec W E A) : Type 0 where
  pub at : (w : W) → f (m w).1 ≡ f w

module _ {W E A X : Type 0} {f : W → X} where
  pub Fixes-pure : (a : A) → Fixes f (pure {E = E} a)
  unfolding pure
  Fixes-pure a = record { at = λ w. refl }

  pub Fixes-raise : (e : E) → Fixes f (raise {A = A} e)
  unfolding raise
  Fixes-raise e = record { at = λ w. refl }

  pub Fixes-lift : (r : Result E A) → Fixes f (lift r)
  unfolding lift
  Fixes-lift r = record { at = λ w. refl }

  pub Fixes-total : (m : W → A × W) → ((w : W) → f (m w).1 ≡ f w) → Fixes f (total {E = E} m)
  unfolding total
  Fixes-total m h = record { at = h }

  pub Fixes-if :
      (b : Bool) (m n : Exec W E A)
      → (b ≡ true → Fixes f m)
      → (b ≡ false → Fixes f n)
      → Fixes f (if b then m else n)
  Fixes-if true m n km kn = km refl
  Fixes-if false m n km kn = kn refl

module _ {W E X : Type 0} {f : W → X} where
  pub Fixes-check : (b : Bool) (e : E) → Fixes f (check {W = W} b e)
  unfolding check
  Fixes-check true e = record { at = λ w. refl }
  Fixes-check false e = record { at = λ w. refl }

module _ {W D E A X : Type 0} {f : W → X} where
  pub Fixes-catch : (g : D → E) (m : Exec W D A) → Fixes f m → Fixes f (catch g m)
  unfolding catch
  Fixes-catch g m k = record { at = λ w. k.at w }

  pub Fixes-ignore : (m : Exec W D A) → Fixes f m → Fixes f (ignore {E = E} m)
  unfolding ignore
  Fixes-ignore m k = record { at = λ w. k.at w }

module _ {W E A B X : Type 0} (f : W → X) where
  continue_at :
      (r : Result E A) (k : A → Exec W E B) (w : W)
      → ((a : A) → r ≡ ok a → f (k a w).1 ≡ f w)
      → f (continue r k w).1 ≡ f w
  continue_at (ok a) k w h = h a refl
  continue_at (err e) k w h = refl

  -- At one state: the rest may use the value that the first action has returned there.
  pub bind_at :
      (m : Exec W E A) (k : A → Exec W E B) (w : W)
      → f (m w).1 ≡ f w
      → ((a : A) → (m w).0 ≡ ok a → f (k a (m w).1).1 ≡ f (m w).1)
      → f ((m >>= k) w).1 ≡ f w
  unfolding ◌>>=◌
  bind_at m k w h step = continue_at (m w).0 k (m w).1 step ∙ h

  -- The same behind an action that leaves the world alone.
  pub silent_at :
      (m : Exec W E A) (k : A → Exec W E B) (w : W)
      → (m w).1 ≡ w
      → ((a : A) → f (k a w).1 ≡ f w)
      → f ((m >>= k) w).1 ≡ f w
  silent_at m k w s h = bind_at m k w (ap f s) (λ a _. rw s (h a))

module _ {W E A B X : Type 0} {f : W → X} where
  pub Fixes-bind :
      (m : Exec W E A) (k : A → Exec W E B)
      → Fixes f m
      → ((a : A) → Fixes f (k a))
      → Fixes f (m >>= k)
  Fixes-bind m k km kk = record { at = λ w. bind_at f m k w (km.at w) (λ a _. (kk a).at (m w).1) }

pub ruleset fixes_rules = (
  Fixes-pure, Fixes-raise, Fixes-lift, Fixes-total, Fixes-if, Fixes-check, Fixes-catch,
  Fixes-ignore, Fixes-bind,
)

module _ {W E A B : Type 0} where
  continue-ok :
      (r : Result E A) (k : A → Exec W E B) (w : W) {b : B} {w' : W}
      → continue r k w ≡ (ok b, w')
      → (a : A) × (r ≡ ok a) × (k a w ≡ (ok b, w'))
  continue-ok (ok a) k w h = (a, refl, h)
  continue-ok (err e) k w h = cc

  -- A block that returns has returned at its first action, and then at the rest.
  pub bind-ok :
      (m : Exec W E A) (k : A → Exec W E B) (w : W) {b : B} {w' : W}
      → (m >>= k) w ≡ (ok b, w')
      → (a : A) × ((m w).0 ≡ ok a) × (k a (m w).1 ≡ (ok b, w'))
  unfolding ◌>>=◌
  bind-ok m k w h = continue-ok (m w).0 k (m w).1 h

module _ {W D E A : Type 0} where
  pub catch-ok :
      (g : D → E) (m : Exec W D A) (w : W) {a : A} → (catch g m w).0 ≡ ok a → (m w).0 ≡ ok a
  unfolding catch
  catch-ok g m w h = ground arith

  pub catch-state : (g : D → E) (m : Exec W D A) (w : W) → (catch g m w).1 ≡ (m w).1
  unfolding catch
  catch-state g m w = refl

module _ {W E : Type 0} where
  pub check-ok : (b : Bool) (e : E) (w : W) → (check b e w).0 ≡ ok tt → b ≡ true
  unfolding check
  check-ok true e w h = refl
  check-ok false e w h = cc

  pub check-state : (b : Bool) (e : E) (w : W) → (check b e w).1 ≡ w
  unfolding check
  check-state true e w = refl
  check-state false e w = refl

module _ {E A B : Type 0} where
  pub and_then-ok :
      (r : Result E A) (f : A → Result E B) {b : B}
      → and_then r f ≡ ok b
      → (a : A) × (r ≡ ok a) × (f a ≡ ok b)
  and_then-ok (ok a) f h = (a, refl, h)
  and_then-ok (err e) f h = cc

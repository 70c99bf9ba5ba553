-- ===== src/Prelude/Sort.antt =====
-- Sorting by insertion: the result of Go's sort functions wherever no two elements are equal in the
-- order, or equal ones cannot be told apart.
use Prim.Native.Nat.{ℕ, zero, suc, ◌<◌}
use mathlib.Core.Path.{◌≡◌, refl}
use mathlib.Core.Logic.{◌⊎◌, inl, inr}
use mathlib.Core.Bool.{Bool, true, false}
use mathlib.Core.List.{List, [], ◌∷◌, ◌++◌}
use native.Mathlib.Omega.{arith}
use anti_river_ten_demo.Prelude.Tests.{ltb, ◌==◌, if◌then◌else◌, Bool-cases}
use anti_river_ten_demo.Prelude.Lists.{length, take, All, All-append, Elem, any}

module _ {ℓ} {A : Type ℓ} (before : A → A → Bool) where
  abbrev pub insert : A → List A → List A
  insert x [] = x ∷ []
  insert x (y ∷ ys) = let rest = insert x ys in if before y x then y ∷ rest else x ∷ y ∷ ys

  abbrev pub sort : List A → List A
  sort [] = []
  sort (x ∷ xs) = insert x (sort xs)

  length-insert : (x : A) (ys : List A) → length (insert x ys) ≡ suc (length ys)
  length-insert x [] = refl
  length-insert x (y ∷ ys) = elim (Bool-cases (before y x)) [
    | inl e ↦ rw e (omega (arith, length-insert x ys))
    | inr e ↦ rw e refl
  ]

  pub length-sort : (xs : List A) → length (sort xs) ≡ length xs
  length-sort [] = refl
  length-sort (x ∷ xs) = omega (arith, length-insert x (sort xs), length-sort xs)

  module _ {κ} (P : A → Type κ) where
    pub insert-each : (x : A) (ys : List A) → P x → All P ys → All P (insert x ys)
    insert-each x [] p h = (p, tt)
    insert-each x (y ∷ ys) p (q, h) = elim (Bool-cases (before y x)) [
      | inl e ↦ rw e (q, insert-each x ys p h)
      | inr e ↦ rw e (p, (q, h))
    ]

    pub sort-each : (xs : List A) → All P xs → All P (sort xs)
    sort-each [] h = tt
    sort-each (x ∷ xs) (p, h) = insert-each x (sort xs) p (sort-each xs h)

-- Numbers in strictly increasing order.
abbrev pub Increasing : List ℕ → Type 0
Increasing [] = Unit
Increasing (x ∷ xs) = All (λ y. x < y) xs × Increasing xs

abbrev pub NotIn : ℕ → List ℕ → Type 0
NotIn n xs = All (λ y. (y == n) ≡ false) xs

abbrev pub Distinct : List ℕ → Type 0
Distinct [] = Unit
Distinct (x ∷ xs) = NotIn x xs × Distinct xs

abbrev pub sort_ints : List ℕ → List ℕ
sort_ints = sort ltb

above-All : (x y : ℕ) (ys : List ℕ) → x < y → All (λ z. y < z) ys → All (λ z. x < z) ys
above-All x y [] h k = tt
above-All x y (z ∷ ys) h (l, k) = (omega arith, above-All x y ys h k)

insert-Increasing :
    (x : ℕ) (ys : List ℕ) → NotIn x ys → Increasing ys → Increasing (insert ltb x ys)
insert-Increasing x [] n h = (tt, tt)
insert-Increasing x (y ∷ ys) (m, n) (a, h) = elim (Bool-cases (ltb y x)) [
  | inl e ↦ rw e (insert-each ltb (λ z. y < z) x ys (ground arith) a, insert-Increasing x ys n h)
  | inr e ↦ let l : x < y = ground arith in rw e ((l, above-All x y ys l a), (a, h))
]

sort_ints-NotIn : (x : ℕ) (xs : List ℕ) → NotIn x xs → NotIn x (sort_ints xs)
sort_ints-NotIn x xs h = sort-each ltb (λ y. (y == x) ≡ false) xs h

pub sort_ints-Increasing : (xs : List ℕ) → Distinct xs → Increasing (sort_ints xs)
sort_ints-Increasing [] h = tt
sort_ints-Increasing (x ∷ xs) (n, h) =
    insert-Increasing x (sort_ints xs) (sort_ints-NotIn x xs n) (sort_ints-Increasing xs h)

insert_first : (x : ℕ) (ys : List ℕ) → All (λ y. x < y) ys → insert ltb x ys ≡ x ∷ ys
insert_first x [] h = refl
insert_first x (y ∷ ys) (l, h) = let e : ltb y x ≡ false = ground arith in rw e refl

-- A sorted list stays as it is.
pub sort_ints_sorted : (xs : List ℕ) → Increasing xs → sort_ints xs ≡ xs
sort_ints_sorted [] h = refl
sort_ints_sorted (x ∷ xs) (a, h) = rw (sort_ints_sorted xs h) (insert_first x xs a)

-- `if _, ok := seen[n]; ok { continue }`, with the numbers that were kept as the set.
abbrev pub add_once : ℕ → List ℕ → List ℕ
add_once n xs = if any (λ y. y == n) xs then xs else xs ++ n ∷ []

any-NotIn : (n : ℕ) (xs : List ℕ) → any (λ y. y == n) xs ≡ false → NotIn n xs
any-NotIn n [] h = tt
any-NotIn n (x ∷ xs) h = (ground arith, any-NotIn n xs (ground arith))

snoc-Distinct : (n : ℕ) (xs : List ℕ) → NotIn n xs → Distinct xs → Distinct (xs ++ n ∷ [])
snoc-Distinct n [] a h = (tt, tt)
snoc-Distinct n (x ∷ xs) (e, a) (b, h) =
    (snoc-NotIn x n xs (ground arith) b, snoc-Distinct n xs a h)
  where
    snoc-NotIn : (x n : ℕ) (xs : List ℕ) → (n == x) ≡ false → NotIn x xs → NotIn x (xs ++ n ∷ [])
    snoc-NotIn x n [] e b = (e, tt)
    snoc-NotIn x n (y ∷ xs) e (c, b) = (c, snoc-NotIn x n xs e b)

pub add_once-Distinct : (n : ℕ) (xs : List ℕ) → Distinct xs → Distinct (add_once n xs)
add_once-Distinct n xs h = elim (Bool-cases (any (λ y. y == n) xs)) [
  | inl e ↦ rw e h
  | inr e ↦ rw e (snoc-Distinct n xs (any-NotIn n xs e) h)
]

module _ {A : Type 0} (before : A → A → Bool) where
  insert-Elem : (x y : A) (ys : List A) → Elem y (x ∷ ys) → Elem y (insert before x ys)
  insert-Elem x y [] h = h
  insert-Elem x y (z ∷ ys) (inl p) = elim (Bool-cases (before z x)) [
    | inl e ↦ rw e (inr (insert-Elem x y ys (inl p)))
    | inr e ↦ rw e (inl p)
  ]
  insert-Elem x y (z ∷ ys) (inr (inl p)) = elim (Bool-cases (before z x)) [
    | inl e ↦ rw e (inl p)
    | inr e ↦ rw e (inr (inl p))
  ]
  insert-Elem x y (z ∷ ys) (inr (inr el)) = elim (Bool-cases (before z x)) [
    | inl e ↦ rw e (inr (insert-Elem x y ys (inr el)))
    | inr e ↦ rw e (inr (inr el))
  ]

  pub sort-Elem : (y : A) (xs : List A) → Elem y xs → Elem y (sort before xs)
  sort-Elem y [] h = h
  sort-Elem y (x ∷ xs) (inl p) = insert-Elem x y (sort before xs) (inl p)
  sort-Elem y (x ∷ xs) (inr el) = insert-Elem x y (sort before xs) (inr (sort-Elem y xs el))

pub Elem-each : {A : Type 0} (P : A → Type 0) (y : A) (xs : List A) → All P xs → Elem y xs → P y
Elem-each P y [] h el = absurd el
Elem-each P y (x ∷ xs) (p, h) (inl e) = rw e p
Elem-each P y (x ∷ xs) (p, h) (inr el) = Elem-each P y xs h el

pub add_once-Elem : (m n : ℕ) (xs : List ℕ) → Elem m xs → Elem m (add_once n xs)
add_once-Elem m n xs h = elim (Bool-cases (any (λ y. y == n) xs)) [
  | inl e ↦ rw e h
  | inr e ↦ rw e (append-Elem m xs (n ∷ []) h)
]
  where
    append-Elem : (m : ℕ) (xs ys : List ℕ) → Elem m xs → Elem m (xs ++ ys)
    append-Elem m [] ys h = absurd h
    append-Elem m (x ∷ xs) ys (inl p) = inl p
    append-Elem m (x ∷ xs) ys (inr el) = inr (append-Elem m xs ys el)

any-Elem : (n : ℕ) (xs : List ℕ) → any (λ y. y == n) xs ≡ true → Elem n xs
any-Elem n [] h = absurd (ground arith)
any-Elem n (x ∷ xs) h = elim (Bool-cases (x == n)) [
  | inl e ↦ inl (ground arith)
  | inr e ↦ inr (any-Elem n xs (rw e at h))
]

last-Elem : (n : ℕ) (xs : List ℕ) → Elem n (xs ++ n ∷ [])
last-Elem n [] = inl refl
last-Elem n (x ∷ xs) = inr (last-Elem n xs)

pub add_once_self : (n : ℕ) (xs : List ℕ) → Elem n (add_once n xs)
add_once_self n xs = elim (Bool-cases (any (λ y. y == n) xs)) [
  | inl e ↦ rw e (any-Elem n xs e)
  | inr e ↦ rw e (last-Elem n xs)
]

module _ {κ} (P : ℕ → Type κ) where
  pub take-each : (k : ℕ) (xs : List ℕ) → All P xs → All P (take k xs)
  take-each zero xs h = tt
  take-each (suc k) [] h = tt
  take-each (suc k) (x ∷ xs) (p, h) = (p, take-each k xs h)

  pub add_once-each : (n : ℕ) (xs : List ℕ) → P n → All P xs → All P (add_once n xs)
  add_once-each n xs p h = elim (Bool-cases (any (λ y. y == n) xs)) [
    | inl e ↦ rw e h
    | inr e ↦ rw e (All-append P xs (n ∷ []) h (p, tt))
  ]

pub take-Increasing : (k : ℕ) (xs : List ℕ) → Increasing xs → Increasing (take k xs)
take-Increasing zero xs h = tt
take-Increasing (suc k) [] h = tt
take-Increasing (suc k) (x ∷ xs) (a, h) = (take-each (λ y. x < y) k xs a, take-Increasing k xs h)

-- What a cut of a sorted list loses is larger than all that it keeps.
pub take-Elem :
    (k n : ℕ) (xs : List ℕ)
    → Increasing xs
    → Elem n xs
    → Elem n (take k xs) ⊎ (length (take k xs) ≡ k) × All (λ m. m < n) (take k xs)
take-Elem zero n xs h el = inr (refl, tt)
take-Elem (suc k) n [] h el = absurd el
take-Elem (suc k) n (x ∷ xs) h (inl p) = inl (inl p)
take-Elem (suc k) n (x ∷ xs) (a, h) (inr el) = elim (take-Elem k n xs h el) [
  | inl i ↦ inl (inr i)
  | inr (l, b) ↦ inr (omega (arith, l), (Elem-each (λ y. x < y) n xs a el, b))
]

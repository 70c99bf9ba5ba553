-- ===== src/Sqllog/Report/Csv/Order.antt =====
-- internal/sqllog/report.go: the export does not depend on the order in which a map gives its entries.
use mathlib.Core.List.{Permᴰ}
use anti_river_ten_demo.Prelude.{
  ◌≡◌, refl, sym, ap, ◌∙◌, inl, inr, Bool, true, false, List, [], ◌∷◌, map, Bool-cases, arith,
}
use anti_river_ten_demo.Prelude.Int.{ℤ}
use anti_river_ten_demo.Prelude.Sort.{insert, sort}
use anti_river_ten_demo.Strings.{Bytes, text, join}
use anti_river_ten_demo.Sqllog.Report.Csv.{str_before, key_of, count_text, sorted_keys, by_db_value}

-- An order in which any two elements are equal or one is before the other.
record Total {A : Type 0} (before : A → A → Bool) : Type 0 where
  asym : (x y : A) → before x y ≡ true → before y x ≡ false
  trans : (x y z : A) → before x y ≡ true → before y z ≡ true → before x z ≡ true
  connected : (x y : A) → before x y ≡ false → before y x ≡ false → x ≡ y

module _ {A : Type 0} (before : A → A → Bool) (total : Total before) where
  -- x ≤ y and y < z
  then_before : (x y z : A) → before y x ≡ false → before y z ≡ true → before x z ≡ true
  then_before x y z e f = elim (Bool-cases (before x y)) [
    | inl g ↦ total.trans x y z g f
    | inr g ↦ rw (total.connected x y g e) f
  ]

  insert_first_two :
      (x y : A) (l : List A) → before y x ≡ true → insert before x (y ∷ l) ≡ y ∷ insert before x l
  insert_first_two x y l e = rw e refl

  insert_in_front :
      (x y : A) (l : List A) → before y x ≡ false → insert before x (y ∷ l) ≡ x ∷ y ∷ l
  insert_in_front x y l e = rw e refl

  abbrev put : A → List A → List A
  put = insert before

  -- z goes first, before both.
  insert_below :
      (x y z : A) (l : List A)
      → before z x ≡ true
      → before z y ≡ true
      → put x (put y (z ∷ l)) ≡ z ∷ put x (put y l)
  insert_below x y z l a b =
      ap (put x) (insert_first_two y z l b) ∙ insert_first_two x z (put y l) a

  -- z stands between y and x.
  insert_between :
      (x y z : A) (l : List A)
      → before z x ≡ true
      → before z y ≡ false
      → put x (put y (z ∷ l)) ≡ put y (put x (z ∷ l))
  insert_between x y z l a b =
      ap (put x) (insert_in_front y z l b)
      ∙ insert_first_two x y (z ∷ l) (then_before y z x b a)
      ∙ ap (λ k. y ∷ k) (insert_first_two x z l a)
      ∙ sym (ap (put y) (insert_first_two x z l a) ∙ insert_in_front y z (put x l) b)

  -- Both go in front of z, y first.
  insert_above :
      (x y z : A) (l : List A)
      → before z x ≡ false
      → before z y ≡ false
      → before y x ≡ true
      → put x (put y (z ∷ l)) ≡ put y (put x (z ∷ l))
  insert_above x y z l a b c =
      ap (put x) (insert_in_front y z l b)
      ∙ insert_first_two x y (z ∷ l) c
      ∙ ap (λ k. y ∷ k) (insert_in_front x z l a)
      ∙ sym (ap (put y) (insert_in_front x z l a) ∙ insert_in_front y x (z ∷ l) (total.asym y x c))

  insert_same : (x y : A) (l : List A) → x ≡ y → put x (put y l) ≡ put y (put x l)
  insert_same x y l p = ap (λ u. put x (put u l)) (sym p) ∙ ap (λ u. put u (put x l)) p

  insert_comm : (x y : A) (l : List A) → put x (put y l) ≡ put y (put x l)
  insert_comm x y [] = elim (Bool-cases (before y x)) [
    | inl e ↦ rw (e, total.asym y x e) refl
    | inr e ↦ elim (Bool-cases (before x y)) [
      | inl f ↦ rw (e, f) refl
      | inr f ↦ insert_same x y [] (total.connected x y f e)
    ]
  ]
  insert_comm x y (z ∷ l) = elim (Bool-cases (before z x)) [
    | inl a ↦ elim (Bool-cases (before z y)) [
      | inl b ↦
          insert_below x y z l a b
          ∙ ap (λ k. z ∷ k) (insert_comm x y l)
          ∙ sym (insert_below y x z l b a)
      | inr b ↦ insert_between x y z l a b
    ]
    | inr a ↦ elim (Bool-cases (before z y)) [
      | inl b ↦ sym (insert_between y x z l b a)
      | inr b ↦ elim (Bool-cases (before y x)) [
        | inl c ↦ insert_above x y z l a b c
        | inr c ↦ elim (Bool-cases (before x y)) [
          | inl d ↦ sym (insert_above y x z l b a d)
          | inr d ↦ insert_same x y (z ∷ l) (total.connected x y d c)
        ]
      ]
    ]
  ]

  sort-Permᴰ :
      {B : Type 0} (f : B → A) {m n : List B}
      → Permᴰ m n
      → sort before (map f m) ≡ sort before (map f n)
  sort-Permᴰ f Permᴰ.nil = refl
  sort-Permᴰ f (Permᴰ.cons {b = b} {l₁ = l₁} e p) =
      ap (λ a. insert before (f a) (sort before (map f l₁))) e
      ∙ ap (insert before (f b)) (sort-Permᴰ f p)
  sort-Permᴰ f (Permᴰ.swap {a = a} {b = b} {a' = a'} {l = l} e d) =
      insert_comm (f a) (f b) (sort before (map f l))
      ∙ ap (λ u. put (f u) (put (f a) (sort before (map f l)))) d
      ∙ ap (λ u. put (f a') (put (f u) (sort before (map f l)))) e
  sort-Permᴰ f (Permᴰ.trans p q) = sort-Permᴰ f p ∙ sort-Permᴰ f q

str_before-Total : Total str_before
unfolding str_before
str_before-Total = record { asym = asym; trans = trans; connected = connected }
  where
    asym : (s t : Bytes) → str_before s t ≡ true → str_before t s ≡ false
    asym [] [] h = cc
    asym [] (d ∷ t) h = refl
    asym (c ∷ s) [] h = cc
    asym (c ∷ s) (d ∷ t) h = ground (arith, asym s t)

    trans : (s t u : Bytes) → str_before s t ≡ true → str_before t u ≡ true → str_before s u ≡ true
    trans [] [] u h k = cc
    trans [] (d ∷ t) [] h k = cc
    trans [] (d ∷ t) (e ∷ u) h k = refl
    trans (c ∷ s) [] u h k = cc
    trans (c ∷ s) (d ∷ t) [] h k = cc
    trans (c ∷ s) (d ∷ t) (e ∷ u) h k = ground (arith, trans s t u)

    connected : (s t : Bytes) → str_before s t ≡ false → str_before t s ≡ false → s ≡ t
    connected [] [] h k = refl
    connected [] (d ∷ t) h k = cc
    connected (c ∷ s) [] h k = cc
    connected (c ∷ s) (d ∷ t) h k = ground (arith, connected s t)

-- Whatever the order of its entries, a map of counts gives the same by_db value, and any map the same
-- sorted keys.
pub by_db_value-Permᴰ :
    (m n : List (Bytes × ℤ))
    → Permᴰ m n
    → (by_db_value m ≡ by_db_value n) × (sorted_keys m ≡ sorted_keys n)
unfolding by_db_value sorted_keys
by_db_value-Permᴰ m n p = (
  ap (λ l. join l (text "; ")) (sort-Permᴰ str_before str_before-Total count_text p),
  sort-Permᴰ str_before str_before-Total key_of p,
)

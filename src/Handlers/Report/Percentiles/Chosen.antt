-- ===== src/Handlers/Report/Percentiles/Chosen.antt =====
-- internal/http/handlers/sqllog_report.go: which percentiles are read from a query.
use anti_river_ten_demo.Prelude.{
  ℕ, ◌≤◌, ◌<◌, ◌≡◌, refl, sym, subst, ◌∙◌, ◌⊎◌, inl, inr, true, Option, none, some, Option-cases,
  List, [], ◌∷◌, map, take, length, length-take, All, Elem, Bool-cases, ltb, arith,
}
use anti_river_ten_demo.Prelude.Int.{ℤ, pos, negsuc}
use anti_river_ten_demo.Prelude.Sort.{
  sort_ints, add_once, Distinct, sort_ints-Increasing, sort-each, sort-Elem, length-sort, Elem-each,
  add_once-Distinct, add_once-each, add_once-Elem, add_once_self, take-each, take-Increasing,
  take-Elem,
}
use anti_river_ten_demo.Strings.{Bytes, is_empty, trim_space, split}
use anti_river_ten_demo.Strconv.{parse_int}
use anti_river_ten_demo.Exec.{Result, ok}
use anti_river_ten_demo.Exec.Keeps.{and_then-ok}
use anti_river_ten_demo.Handlers.Report.Percentiles.{
  PctError, in_range, integer_of, pct_part, keep_number, pct_values, pct_fractions,
  parse_percentiles,
}
use anti_river_ten_demo.Sqllog.Report.Filter.Prepared.{Percents}

-- A part of the text that is the number, but for spaces around it.
abbrev pub Reads : ℕ → Bytes → Type 0
Reads n part = parse_int (trim_space part) ≡ some (pos n)

-- What is chosen from the parts of a list: percentiles that stand in it, and among more than ten
-- the smallest.
pub record Chosen (parts : List Bytes) (ns : List ℕ) : Type 0 where
  pub percents : Percents ns
  pub listed : All (λ n. (part : Bytes) × Elem part parts × Reads n part) ns
  pub smallest :
      (n : ℕ) (part : Bytes)
      → Elem part parts
      → Reads n part
      → Elem n ns ⊎ (length ns ≡ 10) × All (λ m. m < n) ns

abbrev ok_of : {A : Type 0} → A → Result PctError A
ok_of a = ok a

ok-inj : {A : Type 0} {x y : A} → ok_of x ≡ ok_of y → x ≡ y
ok-inj h = cc

in_range-some :
    (v : ℤ) (o : Option ℕ) → in_range v ≡ ok o → (n : ℕ) × (o ≡ some n) × (v ≡ pos n) × (n ≤ 100)
unfolding in_range
in_range-some (pos n) o h = elim (Bool-cases (ltb 100 n)) [
  | inl e ↦ absurd (ground arith)
  | inr e ↦ (n, ground arith, refl, ground arith)
]
in_range-some (negsuc n) o h = absurd (ground arith)

integer_of-some :
    (p : Bytes) (v : Option ℤ) (o : Option ℕ)
    → integer_of p v ≡ ok o
    → (n : ℕ) × (o ≡ some n) × (v ≡ some (pos n)) × (n ≤ 100)
integer_of-some p none o h = cc
integer_of-some p (some v) o h = let (n, e, f, l) = in_range-some v o h in (n, e, rw f refl, l)

-- What an accepted part is.
abbrev PartOf : Bytes → Option ℕ → Type 0
PartOf part none = parse_int (trim_space part) ≡ none
PartOf part (some n) = Reads n part × (n ≤ 100)

empty-parse_int : (p : Bytes) → is_empty p ≡ true → parse_int p ≡ none
unfolding parse_int
empty-parse_int [] h = refl
empty-parse_int (c ∷ p) h = cc

pct_part-PartOf : (part : Bytes) (o : Option ℕ) → pct_part part ≡ ok o → PartOf part o
unfolding pct_part
pct_part-PartOf part o h = elim (Bool-cases (is_empty (trim_space part))) [
  | inl e ↦ rw (← ok-inj {A = Option ℕ} (rw e at h)) (empty-parse_int (trim_space part) e)
  | inr e ↦
      let (n, f, r, l) =
        integer_of-some (trim_space part) (parse_int (trim_space part)) o (rw e at h) in
      rw f (r, l)
]

-- What the loop has made of the parts, behind the numbers that were kept.
record Looped (Q : ℕ → Type 0) (parts : List Bytes) (ints out : List ℕ) : Type 0 where
  distinct : Distinct out
  each : All Q out
  kept : (n : ℕ) → Elem n ints → Elem n out
  found : All (λ part. (n : ℕ) → Reads n part → Elem n out) parts

no_number : (part : Bytes) (n : ℕ) → PartOf part none → Reads n part → ⊥
no_number part n p r = let e : none ≡ some (pos n) = sym p ∙ r in cc

same_number : (part : Bytes) (m n : ℕ) → Reads n part → Reads m part → m ≡ n
same_number part m n p r = let e : some (pos n) ≡ some (pos m) = sym p ∙ r in cc

pct_values-Looped :
    (Q : ℕ → Type 0) (parts : List Bytes) (ints out : List ℕ)
    → All (λ part. (n : ℕ) → PartOf part (some n) → Q n) parts
    → Distinct ints
    → All Q ints
    → pct_values parts ints ≡ ok out
    → Looped Q parts ints out
unfolding pct_values
pct_values-Looped Q [] ints out src d a h =
    let e : ints ≡ out = ok-inj h in
    record { distinct = rw (← e) d; each = rw (← e) a; kept = λ n el. rw (← e) el; found = tt }
pct_values-Looped Q (part ∷ parts) ints out (q, src) d a h =
    let (o, e, h1) = and_then-ok (pct_part part) (λ o. pct_values parts (keep_number o ints)) h in
    elim (Option-cases o) [
      | inl f ↦
          let p = subst (PartOf part) f (pct_part-PartOf part o e) in
          let l = pct_values-Looped Q parts ints out src d a (rw f at h1) in
          record {
            distinct = l.distinct;
            each = l.each;
            kept = l.kept;
            found = (λ n r. absurd (no_number part n p r), l.found);
          }
      | inr (m, f) ↦
          let p = subst (PartOf part) f (pct_part-PartOf part o e) in
          let l =
            pct_values-Looped Q parts (add_once m ints) out src (add_once-Distinct m ints d)
              (add_once-each Q m ints (q m p) a) (rw f at h1) in
          record {
            distinct = l.distinct;
            each = l.each;
            kept = λ n el. l.kept n (add_once-Elem n m ints el);
            found =
                (λ n r. rw (same_number part n m p.0 r) (l.kept m (add_once_self m ints)), l.found);
          }
    ]

-- The source of a number, by what is known of all the parts.
Source : List Bytes → ℕ → Type 0
Source parts n = (n ≤ 100) × (part : Bytes) × Elem part parts × Reads n part

sources :
    (all parts : List Bytes)
    → ((part : Bytes) → Elem part parts → Elem part all)
    → All (λ part. (n : ℕ) → PartOf part (some n) → Source all n) parts
unfolding Source
sources all [] into = tt
sources all (part ∷ parts) into =
    (λ n (r, l). (l, part, into part (inl refl), r), sources all parts (λ p el. into p (inr el)))

each-weaken : {P Q : ℕ → Type 0} (xs : List ℕ) → ((n : ℕ) → P n → Q n) → All P xs → All Q xs
each-weaken [] f h = tt
each-weaken (x ∷ xs) f (p, h) = (f x p, each-weaken xs f h)

fractions-Chosen :
    (parts : List Bytes) (out : List ℕ) (ps : List ℤ)
    → Looped (Source parts) parts [] out
    → pct_fractions out ≡ ok ps
    → (ns : List ℕ) × Chosen parts ns × (ps ≡ map pos ns)
unfolding pct_fractions Source
fractions-Chosen parts [] ps l h = cc
fractions-Chosen parts (n ∷ out) ps l h =
    let s = sort_ints (n ∷ out) in
    let up = sort_ints-Increasing (n ∷ out) l.distinct in
    let srcs = take-each (Source parts) 10 s (sort-each ltb (Source parts) (n ∷ out) l.each) in
    let size = length-take 10 s in
    let sorted = length-sort ltb (n ∷ out) in
    (
      take 10 s,
      record {
        percents = record {
          increasing = take-Increasing 10 s up;
          bounded = each-weaken (take 10 s) (λ n q. q.0) srcs;
          some_value = omega (arith, size, sorted);
          few = omega (arith, size);
        };
        listed = each-weaken (take 10 s) (λ n (b, part, el, r). (part, el, r)) srcs;
        smallest = λ m part el r. take-Elem 10 m s up (
            sort-Elem ltb m (n ∷ out) (
              Elem-each (λ part. (k : ℕ) → Reads k part → Elem k (n ∷ out)) part parts l.found el m
                r));
      },
      sym (ok-inj {A = List ℤ} h),
    )

-- If the percentiles of a query are accepted, they are between 0 and 100, one to ten of them, in
-- strictly increasing order; each is the number of some part of the list; and a part that is a
-- number is among them unless ten smaller ones are.
pub parse_percentiles-Chosen :
    (s : Bytes) (ps : List ℤ)
    → parse_percentiles s ≡ ok ps
    → (ns : List ℕ) × Chosen (split s b',') ns × (ps ≡ map pos ns)
unfolding parse_percentiles
parse_percentiles-Chosen s ps h = elim (Bool-cases (is_empty (trim_space s))) [
  | inl e ↦ let h1 = rw e at h in cc
  | inr e ↦
      let parts = split s b',' in
      let (out, e1, h1) = and_then-ok (pct_values parts []) pct_fractions (rw e at h) in
      fractions-Chosen parts out ps
        (pct_values-Looped (Source parts) parts [] out (sources parts parts (λ p el. el)) tt tt e1)
        h1
]

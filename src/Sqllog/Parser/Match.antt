-- ===== src/Sqllog/Parser/Match.antt =====
-- internal/sqllog/parser.go: where the search of lineRE matches in a line of the documented format.
use anti_river_ten_demo.Prelude.{
  ℕ, ◌+◌, ◌≡◌, ◌≢◌, refl, sym, ap, ◌∙◌, Bool, true, false, Option, none, some, [], ◌∷◌, ◌++◌, All,
  arith, inl, inr, Bool-cases, Option-cases, ◌==◌, count, count-append, if◌then◌else◌,
}
use anti_river_ten_demo.Strings.{Bytes, text}
use anti_river_ten_demo.Strconv.{is_digit, decimal}
use anti_river_ten_demo.Strconv.Laws.{IsDigit, decimal-digits, decimal-ne-nil}
use anti_river_ten_demo.Sqllog.Parser.{
  literal, span, non_empty, bind, digits, spaces_to_end, match_tail, match_query,
}

pub literal-append : (p s : Bytes) → literal p (p ++ s) ≡ some s
unfolding literal
literal-append [] s = refl
literal-append (c ∷ p) s = ground (arith, literal-append p s)

-- A part that passes the test, up to a byte that does not.
pub span-append :
    (p : ℕ → Bool) (part rest : Bytes) (c : ℕ)
    → All (λ x. p x ≡ true) part
    → p c ≡ false
    → span p (part ++ c ∷ rest) ≡ (part, c ∷ rest)
unfolding span
span-append p [] rest c h k = rw k
span-append p (x ∷ part) rest c (hx, h) k = rw (hx, span-append p part rest c h k)

span-All : (p : ℕ → Bool) (part : Bytes) → All (λ x. p x ≡ true) part → span p part ≡ (part, [])
unfolding span
span-All p [] h = refl
span-All p (x ∷ part) (hx, h) = rw (hx, span-All p part h)

digit_test : (s : Bytes) → All IsDigit s → All (λ x. is_digit x ≡ true) s
unfolding is_digit
digit_test [] h = tt
digit_test (c ∷ s) (d, h) = (ground arith, digit_test s h)

non_empty-decimal : (n : ℕ) (rest : Bytes) → non_empty (decimal n, rest) ≡ some (decimal n, rest)
non_empty-decimal n rest = go (decimal n) (decimal-ne-nil n)
  where
    go : (s : Bytes) → s ≢ [] → non_empty (s, rest) ≡ some (s, rest)
    go [] h = absurd (h refl)
    go (c ∷ s) h = refl

-- The digits of a number in front of another byte.
digits-decimal-append :
    (n c : ℕ) (s rest : Bytes)
    → s ≡ c ∷ rest
    → is_digit c ≡ false
    → digits (decimal n ++ s) ≡ some (decimal n, s)
unfolding digits
digits-decimal-append n c s rest e h =
    rw (e, span-append is_digit (decimal n) rest c (digit_test (decimal n) (decimal-digits n)) h)
      (non_empty-decimal n (c ∷ rest))

digits-decimal : (n : ℕ) → digits (decimal n) ≡ some (decimal n, [])
unfolding digits
digits-decimal n =
    rw (span-All is_digit (decimal n) (digit_test (decimal n) (decimal-digits n)))
      (non_empty-decimal n [])

-- ,exec_time_ms:T,exec_count:C
unfoldable pub tail_text : ℕ → ℕ → Bytes
tail_text t n = text ",exec_time_ms:" ++ (decimal t ++ (text ",exec_count:" ++ decimal n))

-- The time field in front of the count field.
digits_before_count :
    (t n : ℕ)
    → digits (decimal t ++ (text ",exec_count:" ++ decimal n))
      ≡ some (decimal t, text ",exec_count:" ++ decimal n)
unfolding text is_digit
digits_before_count t n =
    digits-decimal-append t b',' (text ",exec_count:" ++ decimal n) _ refl refl

spaces_to_end-nil : spaces_to_end [] ≡ true
unfolding spaces_to_end
spaces_to_end-nil = refl

module _ {A B : Type 0} where
  pub bind-some : (o : Option A) (f : A → Option B) {a : A} → o ≡ some a → bind o f ≡ f a
  bind-some o f h = rw h

match_tail-tail_text : (t n : ℕ) → match_tail (tail_text t n) ≡ some (decimal t, decimal n)
unfolding match_tail tail_text
match_tail-tail_text t n =
    bind-some _ _
      (literal-append (text ",exec_time_ms:") (decimal t ++ (text ",exec_count:" ++ decimal n)))
    ∙ bind-some _ _ (digits_before_count t n)
    ∙ bind-some _ _ (literal-append (text ",exec_count:") (decimal n))
    ∙ bind-some _ _ (digits-decimal n)
    ∙ ap (λ z. if z then some (decimal t, decimal n) else none) spaces_to_end-nil

abbrev comma : ℕ → Bool
comma c = c == b','

-- What matches the end of a line has two commas and begins with one.
literal-commas :
    (p s s' : Bytes) → literal p s ≡ some s' → count comma s ≡ count comma p + count comma s'
unfolding literal
literal-commas [] s s' h = ground arith
literal-commas (c ∷ p) [] s' h = cc
literal-commas (c ∷ p) (d ∷ s) s' h = ground (arith, literal-commas p s s')

span-commas : (s : Bytes) → count comma (span is_digit s).1 ≡ count comma s
unfolding span is_digit
span-commas [] = refl
span-commas (c ∷ s) = ground (arith, span-commas s)

digits-commas :
    (s : Bytes) (d : Bytes × Bytes) → digits s ≡ some d → count comma s ≡ count comma d.1
unfolding digits
digits-commas s d h = sym (span-commas s) ∙ go (span is_digit s) h
  where
    go : (x : Bytes × Bytes) → non_empty x ≡ some d → count comma x.1 ≡ count comma d.1
    go ([], rest) e = cc
    go (c ∷ part, rest) e = cc

spaces-commas : (s : Bytes) → spaces_to_end s ≡ true → count comma s ≡ 0
unfolding spaces_to_end
spaces-commas [] h = refl
spaces-commas (c ∷ s) h = ground (arith, spaces-commas s)

module _ {A B : Type 0} where
  bind-inv :
      (o : Option A) (f : A → Option B) {b : B}
      → bind o f ≡ some b
      → (a : A) × (o ≡ some a) × (f a ≡ some b)
  bind-inv none f h = cc
  bind-inv (some a) f h = (a, refl, h)

two_commas : count comma (text ",exec_time_ms:") + count comma (text ",exec_count:") ≡ 2
unfolding text
two_commas = refl

if-some : {A : Type 0} (t : Bool) (x : A) {y : A} → (if t then some x else none) ≡ some y → t ≡ true
if-some true x h = refl
if-some false x h = cc

match_tail-commas : (s : Bytes) (r : Bytes × Bytes) → match_tail s ≡ some r → count comma s ≡ 2
unfolding match_tail
match_tail-commas s r h =
    let (s1, e1, h1) = bind-inv _ _ h in
    let (d1, e2, h2) = bind-inv _ _ h1 in
    let (s2, e3, h3) = bind-inv _ _ h2 in
    let (d2, e4, h4) = bind-inv _ _ h3 in
    omega (
      arith,
      literal-commas (text ",exec_time_ms:") s s1 e1,
      digits-commas s1 d1 e2,
      literal-commas (text ",exec_count:") d1.1 s2 e3,
      digits-commas s2 d2 e4,
      spaces-commas d2.1 (if-some _ _ h4),
      two_commas,
    )

-- No match begins at a byte other than a comma.
match_tail-other : (c : ℕ) (s : Bytes) → (c == b',') ≡ false → match_tail (c ∷ s) ≡ none
unfolding match_tail literal text
match_tail-other c s h = let flip : (b',' == c) ≡ false = ground arith in rw flip refl

tail_text-commas : (t n : ℕ) → count comma (tail_text t n) ≡ 2
tail_text-commas t n = match_tail-commas (tail_text t n) _ (match_tail-tail_text t n)

-- Inside the query nothing matches, for a match there would have more than two commas.
match_tail-early : (c t n : ℕ) (q : Bytes) → match_tail ((c ∷ q) ++ tail_text t n) ≡ none
match_tail-early c t n q = elim (Bool-cases (c == b',')) [
  | inr other ↦ match_tail-other c (q ++ tail_text t n) other
  | inl same ↦ elim (Option-cases (match_tail ((c ∷ q) ++ tail_text t n))) [
    | inl e ↦ e
    | inr (r, e) ↦
        let two = match_tail-commas ((c ∷ q) ++ tail_text t n) r e in
        absurd (ground (arith, count-append comma q (tail_text t n), tail_text-commas t n))
  ]
]

match_query-match_tail :
    (s t n : Bytes) → match_tail s ≡ some (t, n) → match_query s ≡ some ([], t, n)
unfolding match_query
match_query-match_tail [] t n h = rw h
match_query-match_tail (c ∷ s) t n h = rw h

-- The query is found whole, whatever commas or fields it has in it.
pub match_query-tail_text :
    (t n : ℕ) (q : Bytes)
    → All (λ c. (c == 10) ≡ false) q
    → match_query (q ++ tail_text t n) ≡ some (q, decimal t, decimal n)
unfolding match_query
match_query-tail_text t n [] h =
    match_query-match_tail (tail_text t n) _ _ (match_tail-tail_text t n)
match_query-tail_text t n (c ∷ q) (hc, h) =
    rw (match_tail-early c t n q, hc, match_query-tail_text t n q h)

-- ===== src/Middleware/Cors.antt =====
-- internal/http/middleware.go: which origin withCORS lets in, and which headers the log masks.
use anti_river_ten_demo.Prelude.{
  ◌≡◌, ◌⊎◌, refl, sym, Bool, true, false, Option, none, some, List, [], ◌∷◌, any, arith, inl, inr,
  Bool-cases, if◌then◌else◌,
}
use anti_river_ten_demo.Strings.{Bytes, text, str_eq, is_empty, trim_space, join, to_lower}
use anti_river_ten_demo.Db.Laws.{Elem}
use anti_river_ten_demo.Middleware.{
  CorsRequest, cors_headers, allowed_match, allows_any, is_allowed_origin, Header, is_sensitive,
  sanitize_headers,
}

abbrev pub header_value : Bytes → List (Bytes × Bytes) → Option Bytes
header_value name [] = none
header_value name ((k, v) ∷ h) = if str_eq k name then some v else header_value name h

abbrev pub allow_origin : Bytes
allow_origin = text "Access-Control-Allow-Origin"

some-inj : {A : Type 0} {x y : A} → some x ≡ some y → x ≡ y
some-inj h = cc

none-some : {A : Type 0} {x : A} → none ≡ some x → ⊥
none-some h = cc

any-Elem :
    {A : Type 0} (p : A → Bool) (xs : List A) → any p xs ≡ true → (a : A) × Elem a xs × (p a ≡ true)
any-Elem p [] h = cc
any-Elem p (x ∷ xs) h = elim (Bool-cases (p x)) [
  | inl e ↦ (x, inl refl, e)
  | inr e ↦ let (a, el, k) = any-Elem p xs (ground (arith, e)) in (a, inr el, k)
]

-- An origin that is let in: the list begins with *, or an entry, without its outer spaces, is equal
-- to the origin for strings.EqualFold.
unfoldable pub Permitted : (Bytes → Bytes → Bool) → List Bytes → Bytes → Type 0
Permitted fold allowed origin =
    (allows_any allowed ≡ true)
    ⊎ ((a : Bytes) × Elem a allowed × (fold (trim_space a) origin ≡ true))

allowed_match-Permitted :
    (fold : Bytes → Bytes → Bool) (allowed : List Bytes) (origin : Bytes)
    → allowed_match fold allowed origin ≡ true
    → (is_empty origin ≡ false) × Permitted fold allowed origin
unfolding allowed_match is_allowed_origin Permitted
allowed_match-Permitted fold allowed origin h = (
  ground arith,
  elim (Bool-cases (allows_any allowed)) [
    | inl e ↦ inl e
    | inr e ↦ inr (any-Elem (λ a. fold (trim_space a) origin) allowed (ground (arith, e)))
  ],
)

-- When a reply allows an origin for credentialed requests, it is the origin of the request itself,
-- which is not empty, and the configured list begins with * or has an entry that strings.EqualFold,
-- whatever it finds equal, finds equal to it when the outer spaces of the entry are cut.
pub cors_headers-Permitted :
    (fold : Bytes → Bytes → Bool) (allowed : List Bytes) (r : CorsRequest) (o : Bytes)
    → header_value allow_origin (cors_headers fold allowed r) ≡ some o
    → (o ≡ r.origin) × (is_empty r.origin ≡ false) × Permitted fold allowed r.origin
unfolding cors_headers str_eq text
cors_headers-Permitted fold allowed r o h =
    elim (Bool-cases (allowed_match fold allowed r.origin)) [
      | inl e ↦
          let (filled, permitted) = allowed_match-Permitted fold allowed r.origin e in
          (sym (some-inj (rw e at h)), filled, permitted)
      | inr e ↦ absurd (none-some (rw e at h))
    ]

-- A pair of the log record for a header.
unfoldable pub Masked : Header → List (Bytes × Bytes) → Type 0
unfolding is_sensitive
Masked [] [] = Unit
Masked [] (o ∷ out) = ⊥
Masked (x ∷ h) [] = ⊥
Masked ((k, v) ∷ h) ((k', v') ∷ out) =
    (k' ≡ k)
    × (str_eq (to_lower k) (text "authorization") ≡ true → v' ≡ text "***")
    × (str_eq (to_lower k) (text "cookie") ≡ true → v' ≡ text "***")
    × (is_sensitive k ≡ false → v' ≡ join v (text ","))
    × Masked h out

-- The logged headers have the keys of the request in order, the values of Authorization and Cookie
-- are masked whatever the case of the key, and a header that is not sensitive has all its values.
pub sanitize_headers-Masked : (h : Header) → Masked h (sanitize_headers h)
unfolding sanitize_headers Masked is_sensitive
sanitize_headers-Masked [] = tt
sanitize_headers-Masked ((k, v) ∷ h) =
    (refl, λ e. ground arith, λ e. ground arith, λ e. ground arith, sanitize_headers-Masked h)

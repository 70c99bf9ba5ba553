-- ===== src/Handlers/Guards/Bearer.antt =====
-- internal/http/handlers/middleware.go: which header bearerToken takes a token from.
use anti_river_ten_demo.Prelude.{
  ◌≡◌, refl, ap, ℕ, Option, none, some, ◌==◌, [], ◌∷◌, ◌++◌, arith, if◌then◌else◌, false, map, inl,
  inr, Bool-cases,
}
use anti_river_ten_demo.Strings.{Bytes, text, str_eq, is_empty, equal_fold, trim_space, lower_byte}
use anti_river_ten_demo.Strings.Laws.{str_eq_iff}
use anti_river_ten_demo.Handlers.Guards.{bearer_token, split_space, onto}

-- The header is the scheme Bearer, in whatever case, a space, and the token between spaces.
abbrev pub Bears : Bytes → Bytes → Type 0
Bears header token =
    (scheme : Bytes) × (rest : Bytes) × (header ≡ scheme ++ b' ' ∷ rest)
    × (map lower_byte scheme ≡ text "bearer")
    × (token ≡ trim_space rest)

abbrev SplitAt : Bytes → Option (Bytes × Bytes) → Type 0
SplitAt h none = Unit
SplitAt h (some (scheme, rest)) = h ≡ scheme ++ b' ' ∷ rest

later_space :
    (c : ℕ) (s : Bytes) (o : Option (Bytes × Bytes))
    → SplitAt s o
    → SplitAt (c ∷ s) (elim o [ none ↦ none | some p ↦ some (onto c p) ])
later_space c s none h = tt
later_space c s (some (scheme, rest)) h = ap (λ l. c ∷ l) h

split_space-SplitAt : (h : Bytes) → SplitAt h (split_space h)
unfolding split_space
split_space-SplitAt [] = tt
split_space-SplitAt (c ∷ s) = elim (Bool-cases (c == b' ')) [
  | inl e ↦ let space : c ≡ b' ' = ground (arith, e) in rw e (ap (λ d. d ∷ s) space)
  | inr e ↦ rw e (later_space c s (split_space s) (split_space-SplitAt s))
]

token_of : Option (Bytes × Bytes) → Bytes
token_of o = elim o [
  | none ↦ []
  | some (scheme, rest) ↦ if equal_fold scheme (text "Bearer") then trim_space rest else []
]

token_of-Bears :
    (h : Bytes) (o : Option (Bytes × Bytes))
    → SplitAt h o
    → is_empty (token_of o) ≡ false
    → Bears h (token_of o)
unfolding token_of equal_fold lower_byte text
token_of-Bears h none at filled = cc
token_of-Bears h (some (scheme, rest)) at filled =
    let low = map lower_byte scheme in
    elim (Bool-cases (str_eq low (text "bearer"))) [
      | inl e ↦ rw e (scheme, rest, at, (str_eq_iff low (text "bearer")).0 e, refl)
      | inr e ↦ absurd (cc (rw e at filled))
    ]

pub bearer_token-Bears : (h : Bytes) → is_empty (bearer_token h) ≡ false → Bears h (bearer_token h)
unfolding bearer_token token_of
bearer_token-Bears h = token_of-Bears h (split_space h) (split_space-SplitAt h)

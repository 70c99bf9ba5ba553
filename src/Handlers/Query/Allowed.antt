-- ===== src/Handlers/Query/Allowed.antt =====
-- internal/http/handlers/sqllog_query.go: which names the expression dbNameRE allows.
use anti_river_ten_demo.Prelude.{
  arith, ℕ, ◌≤◌, ◌≡◌, refl, all, ◌⊎◌, true, false, [], ◌∷◌, All, length,
}
use anti_river_ten_demo.Strings.{Bytes}
use anti_river_ten_demo.Strconv.{is_digit}
use anti_river_ten_demo.Handlers.Query.{is_name_byte, is_db_name}

-- The class of the expression: letters, digits, underscore, dot and dash.
abbrev pub NameByte : ℕ → Type 0
NameByte c =
    ((65 ≤ c) × (c ≤ 90))
    ⊎ (((97 ≤ c) × (c ≤ 122)) ⊎ (((48 ≤ c) × (c ≤ 57)) ⊎ ((c ≡ 95) ⊎ ((c ≡ 46) ⊎ (c ≡ 45)))))

-- The name of a database that the handlers accept.
abbrev pub DbName : Bytes → Type 0
DbName s = (1 ≤ length s) × (length s ≤ 128) × All NameByte s

byte-NameByte : (c : ℕ) → is_name_byte c ≡ true → NameByte c
unfolding is_name_byte is_digit
byte-NameByte c h = ground (arith, h)

NameByte-byte : (c : ℕ) → NameByte c → is_name_byte c ≡ true
unfolding is_name_byte is_digit
NameByte-byte c h = ground (arith, h)

bytes-NameByte : (s : Bytes) → all is_name_byte s ≡ true → All NameByte s
bytes-NameByte [] h = tt
bytes-NameByte (c ∷ s) h =
    (byte-NameByte c (ground (arith, h)), bytes-NameByte s (ground (arith, h)))

NameByte-bytes : (s : Bytes) → All NameByte s → all is_name_byte s ≡ true
NameByte-bytes [] h = refl
NameByte-bytes (c ∷ s) (b, h) = rw (NameByte-byte c b, NameByte-bytes s h) refl

pub name-DbName : (s : Bytes) → is_db_name s ≡ true → DbName s
unfolding is_db_name
name-DbName [] h = cc
name-DbName (c ∷ s) h =
    (ground arith, ground (arith, h), bytes-NameByte (c ∷ s) (ground (arith, h)))

pub DbName-name : (s : Bytes) → DbName s → is_db_name s ≡ true
unfolding is_db_name
DbName-name [] (filled, short, h) = absurd (omega (arith, filled))
DbName-name (c ∷ s) (filled, short, h) =
    let bytes = NameByte-bytes (c ∷ s) h in ground (arith, short, bytes)

pub not-DbName : (s : Bytes) → is_db_name s ≡ false → ¬ DbName s
not-DbName s h name = let e = DbName-name s name in cc (h, e)

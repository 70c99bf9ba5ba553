-- ===== src/Handlers/Ai/Local.antt =====
-- internal/http/handlers/ai_analysis.go: the analysis of a query without a client. The two regular
-- expressions are written as the searches that they stand for; their letters fold within ASCII.
use anti_river_ten_demo.Prelude.{
  ℕ, Bool, true, false, ◌&&◌, ◌||◌, Option, none, some, List, [], ◌∷◌, ◌++◌, leb, ◌==◌,
  if◌then◌else◌,
}
use mathlib.Core.List.{reverse}
use anti_river_ten_demo.Strings.{Bytes, text, is_empty, lower_byte, join}
use anti_river_ten_demo.Strconv.{is_digit}

-- \s and \w
abbrev pub is_blank : ℕ → Bool
is_blank c = c == 9 || c == 10 || c == 12 || c == 13 || c == b' '

unfoldable pub is_word_byte : ℕ → Bool
is_word_byte c = is_digit c || leb b'A' c && leb c b'Z' || leb b'a' c && leb c b'z' || c == b'_'

-- A keyword in any case at the front of a text: what is behind it.
unfoldable pub keyword : Bytes → Bytes → Option Bytes
keyword [] s = some s
keyword (k ∷ ks) [] = none
keyword (k ∷ ks) (c ∷ s) = let rest = keyword ks s in if k == lower_byte c then rest else none

unfoldable pub skip_blanks : Bytes → Bytes
skip_blanks [] = []
skip_blanks (c ∷ s) = let rest = skip_blanks s in if is_blank c then rest else c ∷ s

-- \s+ in front of something that no blank begins.
unfoldable pub behind_blanks : Bytes → Option Bytes
behind_blanks [] = none
behind_blanks (c ∷ s) = if is_blank c then some (skip_blanks s) else none

module _ {A B : Type 0} where
  abbrev bind : Option A → (A → Option B) → Option B
  bind none f = none
  bind (some a) f = f a

module _ {A : Type 0} where
  abbrev is_some : Option A → Bool
  is_some none = false
  is_some (some a) = true

  abbrev or_try : Option A → Option A → Option A
  or_try (some a) o = some a
  or_try none o = o

-- \s+FIRST, and \s+FIRST\s+BY
abbrev ends_with_word : Bytes → Bytes → Bool
ends_with_word word s = is_some (bind (behind_blanks s) (keyword word))

abbrev ends_with_by : Bytes → Bytes → Bool
ends_with_by word s =
    is_some
      (bind (bind (bind (behind_blanks s) (keyword word)) behind_blanks) (keyword (text "by")))

-- (?:\s+ORDER\s+BY|\s+GROUP\s+BY|\s+HAVING|\s+LIMIT|$)
unfoldable pub clause_ends : Bytes → Bool
clause_ends s =
    is_empty s
    || ends_with_by (text "order") s
    || ends_with_by (text "group") s
    || ends_with_word (text "having") s
    || ends_with_word (text "limit") s

abbrev before_rest : ℕ → Option Bytes → Option Bytes
before_rest c none = none
before_rest c (some s) = some (c ∷ s)

-- (.+?) and the end of the clause: the shortest text without a line feed.
unfoldable pub clause_of : Bytes → Option Bytes
clause_of [] = none
clause_of (c ∷ s) =
    let rest = clause_of s in
    if c == 10 then none else if clause_ends s then some (c ∷ []) else before_rest c rest

-- \s+ as long as it can be, and shorter if what follows does not match then.
unfoldable pub clause_behind_blanks : Bytes → Option Bytes
clause_behind_blanks [] = none
clause_behind_blanks (c ∷ s) =
    let more = clause_behind_blanks s in if is_blank c then or_try more (clause_of s) else none

-- whereRegex.FindStringSubmatch: the group of the first match.
unfoldable pub where_clause : Bytes → Option Bytes
where_clause [] = none
where_clause (c ∷ s) =
    let later = where_clause s in
    or_try (bind (keyword (text "where") (c ∷ s)) clause_behind_blanks) later

-- [=<>!]
abbrev pub is_comparison : ℕ → Bool
is_comparison c = c == b'=' || c == b'<' || c == b'>' || c == b'!'

-- fieldRegex.FindAllStringSubmatch: `word` is the word that was read last, backwards, and `spaced`
-- tells whether blanks have followed it.
unfoldable pub fields_from : Bytes → Bool → Bytes → List Bytes
fields_from word spaced [] = []
fields_from word spaced (c ∷ s) =
    let longer = fields_from (c ∷ word) false s in
    let other = fields_from (c ∷ []) false s in
    let blank = fields_from word true s in
    let none_left = fields_from [] false s in
    if is_word_byte c
    then (if spaced then other else longer)
    else if is_blank c
    then blank
    else if is_comparison c && (if is_empty word then false else true)
    then reverse word ∷ none_left
    else none_left

abbrev pub manual_review : Bytes
manual_review = text "Recommendation: manual review required"

unfoldable pub index_advice : List Bytes → Bytes
index_advice [] = manual_review
index_advice (f ∷ []) = text "Add index on " ++ f
index_advice (f ∷ g ∷ fields) = text "Add indexes on " ++ join (f ∷ g ∷ fields) (text ", ")

abbrev advice_for : Option Bytes → Bytes
advice_for none = manual_review
advice_for (some clause) = index_advice (fields_from [] false clause)

unfoldable pub analyze_query_locally : Bytes → Bytes
analyze_query_locally sql_query = advice_for (where_clause sql_query)

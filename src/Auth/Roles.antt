-- ===== src/Auth/Roles.antt =====
-- The role of a user under UpdateUserStatus: deactivating and activating, and IsUserActive.
use mathlib.Core.List.{reverse, reverse_aux, reverse-reverse, reverse-append}
use anti_river_ten_demo.Prelude.{
  ℕ, ◌+◌, ◌<◌, ◌≡◌, ◌≢◌, refl, sym, ◌∙◌, ap, Bool, true, false, [], ◌∷◌, ◌++◌, arith, some, lt→ltb,
  length, length-append, drop, take, take-append-drop, Bool-cases, inl, inr,
}
use anti_river_ten_demo.Strings.{Bytes, text, has_prefix, cut_suffix}
use anti_river_ten_demo.Strings.Laws.{has_suffix-append, drop-length-append}
use anti_river_ten_demo.Db.{User}
use anti_river_ten_demo.Auth.AdminRows.{is_protected}
use anti_river_ten_demo.Auth.Admin.{
  admin_role, inactive_suffix, is_inactive_role, status_role, is_user_active, mark_role,
}

length-reverse_aux : (s r : Bytes) → length (reverse_aux s r) ≡ length s + length r
length-reverse_aux [] r = omega arith
length-reverse_aux (c ∷ s) r = omega (arith, length-reverse_aux s (c ∷ r))

length-reverse : (s : Bytes) → length (reverse s) ≡ length s
length-reverse s = omega (arith, length-reverse_aux s [])

cut_suffix-append : (s p : Bytes) → cut_suffix (s ++ p) p ≡ s
unfolding cut_suffix
cut_suffix-append s p =
    rw (reverse-append s p, ← length-reverse p, drop-length-append (reverse p) (reverse s))
      (reverse-reverse s)

-- What is left of a text is its beginning.
cut_suffix-prefix : (s p : Bytes) → (z : Bytes) × (s ≡ cut_suffix s p ++ z)
unfolding cut_suffix
cut_suffix-prefix s p = (reverse (take (length p) (reverse s)), sym whole)
  where
    r : Bytes
    r = reverse s

    whole : reverse (drop (length p) r) ++ reverse (take (length p) r) ≡ s
    whole =
        sym (reverse-append (take (length p) r) (drop (length p) r))
        ∙ ap reverse (take-append-drop (length p) r)
        ∙ reverse-reverse s

has_prefix_of_append : (s z p : Bytes) → has_prefix s p ≡ true → has_prefix (s ++ z) p ≡ true
unfolding has_prefix
has_prefix_of_append [] z [] h = refl
has_prefix_of_append (a ∷ s) z [] h = refl
has_prefix_of_append [] z (c ∷ p) h = cc
has_prefix_of_append (a ∷ s) z (c ∷ p) h = ground (arith, has_prefix_of_append s z p)

cut-unprotected :
    (role p : Bytes) → is_protected role ≡ false → is_protected (cut_suffix role p) ≡ false
cut-unprotected role p h =
    let (z, e) = cut_suffix-prefix role p in
    elim (Bool-cases (is_protected (cut_suffix role p))) [
      | inr unprotected ↦ unprotected
      | inl e' ↦ cc (has_prefix_of_append (cut_suffix role p) z admin_role e')
    ]

-- A text that does not begin with ADMIN does not begin with it once _INACTIVE is behind it.
append-unprotected :
    (role : Bytes) → is_protected role ≡ false → is_protected (role ++ inactive_suffix) ≡ false
unfolding has_prefix text
append-unprotected [] h = refl
append-unprotected (a ∷ []) h = ground arith
append-unprotected (a ∷ b ∷ []) h = ground arith
append-unprotected (a ∷ b ∷ c ∷ []) h = ground arith
append-unprotected (a ∷ b ∷ c ∷ d ∷ []) h = ground arith
append-unprotected (a ∷ b ∷ c ∷ d ∷ e ∷ role) h = h

pub status_role-unprotected :
    (active : Bool) (role : Bytes)
    → is_protected role ≡ false
    → is_protected (status_role active role) ≡ false
unfolding status_role
status_role-unprotected true role h = ground (arith, cut-unprotected role inactive_suffix h)
status_role-unprotected false role h = ground (arith, append-unprotected role h)

length-inactive_suffix : length inactive_suffix ≡ 9
unfolding text
length-inactive_suffix = refl

inactive-append : (c : ℕ) (role : Bytes) → is_inactive_role ((c ∷ role) ++ inactive_suffix) ≡ true
unfolding is_inactive_role
inactive-append c role = rw (
  has_suffix-append (c ∷ role) inactive_suffix,
  lt→ltb 9 (length ((c ∷ role) ++ inactive_suffix)) long,
)
  where
    long : 9 < length ((c ∷ role) ++ inactive_suffix)
    long = omega (arith, length-append (c ∷ role) inactive_suffix, length-inactive_suffix)

-- Deactivating a user whose role is not empty and not yet inactive makes IsUserActive false, and
-- activating the user again restores the role.
pub status_role_round_trip :
    (role updated_by : Bytes) (u : User)
    → role ≢ []
    → is_inactive_role role ≡ false
    → (is_user_active (some (mark_role (status_role false role) updated_by u)) ≡ false)
      × (status_role true (status_role false role) ≡ role)
unfolding status_role is_user_active mark_role
status_role_round_trip [] updated_by u h k = absurd (h refl)
status_role_round_trip (c ∷ role) updated_by u h k = rw k (
  ground (arith, inactive-append c role),
  rw (inactive-append c role) (cut_suffix-append (c ∷ role) inactive_suffix),
)

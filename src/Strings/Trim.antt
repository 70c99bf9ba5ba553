-- ===== src/Strings/Trim.antt =====
-- strings.TrimSpace leaves a text alone that neither begins nor ends with a space.
use mathlib.Core.List.{reverse, reverse-reverse, reverse-append}
use anti_river_ten_demo.Prelude.{
  ℕ, ◌≡◌, ◌≢◌, refl, sym, [], ◌∷◌, ◌++◌, All, arith, append_assoc, ◌∙◌, ap,
}
use anti_river_ten_demo.Strings.{
  Bytes, is_ascii_space, space_width, space_width_back, drop_spaces, trim_space,
}
use anti_river_ten_demo.Strconv.Laws.{IsDigit}

drop_spaces-zero :
    (width : Bytes → ℕ) (c : ℕ) (s : Bytes)
    → width (c ∷ s) ≡ 0
    → drop_spaces width 0 (c ∷ s) ≡ c ∷ s
unfolding drop_spaces
drop_spaces-zero width c s h = rw h

pub trim_space-ends :
    (c d : ℕ) (s z : Bytes)
    → space_width (c ∷ s) ≡ 0
    → reverse (c ∷ s) ≡ d ∷ z
    → space_width_back (d ∷ z) ≡ 0
    → trim_space (c ∷ s) ≡ c ∷ s
unfolding trim_space
trim_space-ends c d s z h e k =
    ap (λ x. reverse (drop_spaces space_width_back 0 (reverse x)))
      (drop_spaces-zero space_width c s h)
    ∙ ap (λ x. reverse (drop_spaces space_width_back 0 x)) e
    ∙ ap reverse (drop_spaces-zero space_width_back d z k)
    ∙ ap reverse (sym e)
    ∙ reverse-reverse (c ∷ s)

pub space_width_back-digit : (d : ℕ) (s : Bytes) → IsDigit d → space_width_back (d ∷ s) ≡ 0
unfolding space_width_back is_ascii_space
space_width_back-digit d [] (lo, hi) = ground arith
space_width_back-digit d (b ∷ []) (lo, hi) = ground arith
space_width_back-digit d (b ∷ a ∷ s) (lo, hi) = ground arith

-- A text with a number at its end has a digit at its end.
pub reverse-IsDigit :
    (z s : Bytes)
    → s ≢ []
    → All IsDigit s
    → (d : ℕ) × (m : Bytes) × (reverse (z ++ s) ≡ d ∷ m) × IsDigit d
reverse-IsDigit z [] h k = absurd (h refl)
reverse-IsDigit z (c ∷ []) h (kc, k) = (c, reverse z, reverse-append z (c ∷ []), kc)
reverse-IsDigit z (c ∷ e ∷ s) h (kc, k) =
    let (d, m, eq, kd) = reverse-IsDigit (z ++ c ∷ []) (e ∷ s) (cc) k in
    (d, m, ap reverse (sym (append_assoc z (c ∷ []) (e ∷ s))) ∙ eq, kd)

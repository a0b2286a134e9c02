-- ===== src/Text/Laws.antt =====
-- Equality of texts.
use ch_tech_landing_page_bac.Base.{true, [], ◌∷◌, ◌≡◌, refl, arith}
use ch_tech_landing_page_bac.Text.{Str, str_eq}

pub str_eq_refl : (a : Str) → str_eq a a ≡ true
str_eq_refl [] = refl
str_eq_refl (c ∷ s) = ground (arith, str_eq_refl s)

pub str_eq→eq : (a b : Str) → str_eq a b ≡ true → a ≡ b
str_eq→eq [] [] h = refl
str_eq→eq [] (_ ∷ _) h = absurd (cc)
str_eq→eq (_ ∷ _) [] h = absurd (cc)
str_eq→eq (a ∷ s) (b ∷ t) h = ground (arith, str_eq→eq s t)

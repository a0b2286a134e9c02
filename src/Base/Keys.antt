-- ===== src/Base/Keys.antt =====
-- Tables as lists of rows: a unique column, and the one row that a key selects.
use mathlib.Core.Path.{◌≡◌, refl}
use mathlib.Core.Bool.{Bool, true, false}
use mathlib.Core.List.{List, [], ◌∷◌}
use native.Mathlib.Omega.{arith}
use ch_tech_landing_page_bac.Base.Tests.{if◌then◌else◌, Bool-cases}
use ch_tech_landing_page_bac.Base.Lists.{filter, find, to_list, All}
use mathlib.Core.Logic.{inl, inr}

module _ {A : Type 0} where
  -- No two rows have the same value in a column; `same` compares the column of two rows.
  abbrev pub Distinct : (A → A → Bool) → List A → Type 0
  Distinct same [] = Unit
  Distinct same (x ∷ xs) = All (λ y. same x y ≡ false) xs × Distinct same xs

  -- `UPDATE`: the rows that pass become `f` of them.
  abbrev pub update_where : (A → Bool) → (A → A) → List A → List A
  update_where p f [] = []
  update_where p f (x ∷ xs) = (if p x then f x else x) ∷ update_where p f xs

  -- `DELETE`: the rows that pass go.
  abbrev pub delete_where : (A → Bool) → List A → List A
  delete_where p [] = []
  delete_where p (x ∷ xs) = if p x then delete_where p xs else x ∷ delete_where p xs

  filter_empty :
      (same : A → A → Bool) (p : A → Bool) (x : A) (xs : List A)
      → ((y : A) → p x ≡ true → p y ≡ true → same x y ≡ true)
      → p x ≡ true
      → All (λ y. same x y ≡ false) xs
      → filter p xs ≡ []
  filter_empty same p x [] fits px h = refl
  filter_empty same p x (y ∷ xs) fits px (d, h) = elim (Bool-cases (p y)) [
    | inl py ↦ absurd (let bad : false ≡ true = ground (arith, fits y px py) in cc)
    | inr py ↦ rw py (filter_empty same p x xs fits px h)
  ]

  -- A test that two rows pass only if they agree in a unique column selects one row at most.
  pub filter-find :
      (same : A → A → Bool) (p : A → Bool) (xs : List A)
      → ((x y : A) → p x ≡ true → p y ≡ true → same x y ≡ true)
      → Distinct same xs
      → filter p xs ≡ to_list (find p xs)
  filter-find same p [] fits h = refl
  filter-find same p (x ∷ xs) fits (d, h) = elim (Bool-cases (p x)) [
    | inl px ↦ rw (px, filter_empty same p x xs (fits x) px d)
    | inr px ↦ rw px (filter-find same p xs fits h)
  ]

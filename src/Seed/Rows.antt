-- ===== src/Seed/Rows.antt =====
-- What each step of the seed leaves in the session.
use ch_tech_landing_page_bac.Base.{
  Bool, true, Option, none, some, List, [], ◌∷◌, ◌≡◌, ◌∙◌, sym, ap, refl, Bool-cases, inl, inr,
  find, filter, to_list,
}
use ch_tech_landing_page_bac.Errors.{Result, ok, err}
use ch_tech_landing_page_bac.Models.{CompanyModel}
use ch_tech_landing_page_bac.App.Outside.{Env, SqlLaws}
use ch_tech_landing_page_bac.Content.Company.{first_company}
use ch_tech_landing_page_bac.Content.Company.Singleton.{first_company-none}

abbrev first : {A : Type 0} → List A → Option A
first [] = none
first (x ∷ xs) = some x

find-filter : {A : Type 0} (p : A → Bool) (xs : List A) → find p xs ≡ first (filter p xs)
find-filter p [] = refl
find-filter p (x ∷ xs) = elim (Bool-cases (p x)) [
  | inl y ↦ rw y refl
  | inr n ↦ rw n (find-filter p xs)
]

-- A row that passes the test.
abbrev pub Has : {A : Type 0} → (A → Bool) → List A → Type 0
Has {A} p xs = (x : A) × (find p xs ≡ some x)

pub Has-cons : {A : Type 0} (p : A → Bool) (x : A) (xs : List A) → Has p xs → Has p (x ∷ xs)
Has-cons p x xs (y, h) = elim (Bool-cases (p x)) [
  | inl good ↦ (x, rw good refl)
  | inr bad ↦ (y, rw bad h)
]

pub Has-new : {A : Type 0} (p : A → Bool) (x : A) (xs : List A) → p x ≡ true → Has p (x ∷ xs)
Has-new p x xs h = (x, rw h refl)

abbrev option_of : {A : Type 0} → Result (Option A) → Option A
option_of (ok o) = o
option_of (err e) = none

module _ (env : Env) (laws : SqlLaws env) where
  -- What `scalar_one_or_none` returned is all that there is.
  pub selected :
      {Row : Type 0} (p : Row → Bool) (rows : List Row) (o : Option Row)
      → env.select_one p rows ≡ ok o
      → filter p rows ≡ to_list o
  selected {Row} p rows o e = by_rows (filter p rows) refl
    where
      by_rows : (found : List Row) → filter p rows ≡ found → found ≡ to_list o
      by_rows [] f = ap (λ r. to_list (option_of r)) (sym (laws.one_found p rows none f) ∙ e)
      by_rows (x ∷ []) f =
          ap (λ r. to_list (option_of r)) (sym (laws.one_found p rows (some x) f) ∙ e)
      by_rows (x ∷ y ∷ more) f = absurd (let bad = laws.many_found p rows x y more f in cc)

  pub Has-selected :
      {Row : Type 0} (p : Row → Bool) (rows : List Row) (m : Row)
      → env.select_one p rows ≡ ok (some m)
      → Has p rows
  Has-selected p rows m e = (m, find-filter p rows ∙ ap (λ l. first l) (selected p rows (some m) e))

  pub first_company-new :
      (m : CompanyModel) (rows : List CompanyModel)
      → (c : CompanyModel) × (first_company env (m ∷ rows) ≡ some c)
  first_company-new m rows = by_first (first_company env (m ∷ rows)) refl
    where
      by_first :
          (o : Option CompanyModel)
          → first_company env (m ∷ rows) ≡ o
          → (c : CompanyModel) × (o ≡ some c)
      by_first none f = absurd (let bad = first_company-none env laws (m ∷ rows) f in cc)
      by_first (some c) f = (c, refl)

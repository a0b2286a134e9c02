-- ===== src/App/Pages.antt =====
-- What a query with conditions, an order and a page returns.
use ch_tech_landing_page_bac.Base.{
  ℕ, ◌≤◌, Bool, true, Option, none, some, List, [], ◌∷◌, ◌≡◌, ◌⊎◌, refl, ◌∙◌, filter, all, All,
  All-take, All-drop, All-filter-holds, all→All, All→all, all-perm, length, length-take-le, drop,
}
use ch_tech_landing_page_bac.Errors.{Result, ok, traverse, bind_ok}
use ch_tech_landing_page_bac.App.Outside.{Env, SqlLaws, slice}

slice-All :
    {A : Type 0} (p : A → Bool) (n : ℕ) (m : Option ℕ) (xs : List A)
    → All (λ x. p x ≡ true) xs
    → All (λ x. p x ≡ true) (slice n m xs)
slice-All p n none xs h = All-drop (λ x. p x ≡ true) n xs h
slice-All p n (some m) xs h =
    All-take (λ x. p x ≡ true) m (drop n xs) (All-drop (λ x. p x ≡ true) n xs h)

module _ (env : Env) (laws : SqlLaws env) where
  module _ {Row : Type 0} (le : Row → Row → Bool)
      (total : (a b : Row) → (le a b ≡ true) ⊎ (le b a ≡ true)) where
    -- The rows of a page meet the conditions.
    pub page-All :
        (p : Row → Bool) (n : ℕ) (m : Option ℕ) (rows : List Row)
        → All (λ r. p r ≡ true) (env.page le n m (filter p rows))
    page-All p n m rows =
        let (sorted, same, ordered, e) = laws.page_slice le n m (filter p rows) total in
        let kept : all p (filter p rows) ≡ true =
          All→all p (filter p rows) (All-filter-holds (λ r. p r ≡ true) p rows (λ x h. h)) in
        rw e (slice-All p n m sorted (all→All p sorted (all-perm p same ∙ kept)))

    -- A page is no longer than its limit.
    pub page-length : (n m : ℕ) (rows : List Row) → length (env.page le n (some m) rows) ≤ m
    page-length n m rows =
        let (sorted, same, ordered, e) = laws.page_slice le n (some m) rows total in
        rw e (length-take-le m (drop n sorted))

-- What holds of each row that was read holds of each entity that it became.
module _ {A B : Type 0} (f : A → Result B) (P : A → Type 0) (Q : B → Type 0) where
  pub traverse-All :
      (xs : List A) (ys : List B)
      → ((x : A) (y : B) → P x → f x ≡ ok y → Q y)
      → All P xs
      → traverse f xs ≡ ok ys
      → All Q ys × (length ys ≡ length xs)
  traverse-All [] [] g h e = (tt, refl)
  traverse-All [] (y ∷ ys) g h e = absurd (cc)
  traverse-All (x ∷ xs) [] g (p, h) e =
      let (y, read, rest) = bind_ok (f x) _ [] e in
      let (zs, more, last) = bind_ok (traverse f xs) _ [] rest in absurd (cc)
  traverse-All (x ∷ xs) (z ∷ zs) g (p, h) e =
      let (y, read, rest) = bind_ok (f x) _ (z ∷ zs) e in
      let (ys, more, last) = bind_ok (traverse f xs) _ (z ∷ zs) rest in
      let head : y ≡ z = cc in
      let tail : ys ≡ zs = cc in
      let (q, same) = traverse-All xs ys g h more in
      rw (← head, ← tail, same) ((g x y p read, q), refl)

-- ===== src/Auth/Purges.antt =====
-- Which sessions a purge deletes.
use ch_tech_landing_page_bac.Base.{
  ℕ, Bool, true, false, not, List, [], ◌∷◌, map, ◌≡◌, refl, sym, ap, ◌∙◌, arith, ◌==◌, eqb_refl,
  filter, any, all, all-perm, All, All-map, Bool-cases, inl, inr,
}
use ch_tech_landing_page_bac.Base.Keys.{Distinct, delete_where}
use ch_tech_landing_page_bac.Domain.Time.{Time}
use ch_tech_landing_page_bac.Models.{Uuid, RefreshTokenModel}
use ch_tech_landing_page_bac.Models.Constraints.{IsConsistent}
use ch_tech_landing_page_bac.App.{World, run_app}
use ch_tech_landing_page_bac.App.Outside.{Env, SqlLaws}
use ch_tech_landing_page_bac.Errors.{ok}
use mathlib.Core.List.{Perm}
use ch_tech_landing_page_bac.Auth.Tokens.{is_stale, delete_ids, purge_older_than}

-- `any` of a list, told by `all` of it.
any-all : {A : Type 0} (p : A → Bool) (xs : List A) → any p xs ≡ not (all (λ x. not (p x)) xs)
any-all p [] = refl
any-all p (x ∷ xs) = ground (arith, any-all p xs)

any-map :
    (p : Uuid → Bool) (xs : List RefreshTokenModel)
    → any p (map (λ (m : RefreshTokenModel). m.id) xs) ≡ any (λ m. p m.id) xs
any-map p [] = refl
any-map p (x ∷ xs) = rw (any-map p xs)

module _ (stale : RefreshTokenModel → Bool) where
  -- The identifiers of the stale rows tell the stale rows.
  other_ids :
      (x : RefreshTokenModel) (xs : List RefreshTokenModel)
      → All (λ (y : RefreshTokenModel). (x.id == y.id) ≡ false) xs
      → any (λ (r : RefreshTokenModel). x.id == r.id) (filter stale xs) ≡ false
  other_ids x [] h = refl
  other_ids x (y ∷ xs) (d, h) = elim (Bool-cases (stale y)) [
    | inl e ↦ rw (e, d) (other_ids x xs h)
    | inr e ↦ rw e (other_ids x xs h)
  ]

  told_more :
      (x y : RefreshTokenModel) (xs : List RefreshTokenModel)
      → (x.id == y.id) ≡ false
      → any (λ (r : RefreshTokenModel). y.id == r.id) (filter stale xs) ≡ stale y
      → any (λ (r : RefreshTokenModel). y.id == r.id) (filter stale (x ∷ xs)) ≡ stale y
  told_more x y xs d h = elim (Bool-cases (stale x)) [
    | inl e ↦ (let d' : (y.id == x.id) ≡ false = ground arith in rw (e, d') h)
    | inr e ↦ rw e h
  ]

  told_rest :
      (x : RefreshTokenModel) (xs ys : List RefreshTokenModel)
      → All (λ (y : RefreshTokenModel). (x.id == y.id) ≡ false) ys
      → All
          (λ (y : RefreshTokenModel).
            any (λ (r : RefreshTokenModel). y.id == r.id) (filter stale xs) ≡ stale y)
          ys
      → All
          (λ (y : RefreshTokenModel).
            any (λ (r : RefreshTokenModel). y.id == r.id) (filter stale (x ∷ xs)) ≡ stale y)
          ys
  told_rest x xs [] d h = tt
  told_rest x xs (y ∷ ys) (d, ds) (h, hs) = (told_more x y xs d h, told_rest x xs ys ds hs)

  ids_tell :
      (rows : List RefreshTokenModel)
      → Distinct (λ (a b : RefreshTokenModel). a.id == b.id) rows
      → All
          (λ (m : RefreshTokenModel).
            any (λ (r : RefreshTokenModel). m.id == r.id) (filter stale rows) ≡ stale m)
          rows
  ids_tell [] d = tt
  ids_tell (x ∷ xs) (d, ds) = (here, told_rest x xs xs d (ids_tell xs ds))
    where
      here : any (λ (r : RefreshTokenModel). x.id == r.id) (filter stale (x ∷ xs)) ≡ stale x
      here = elim (Bool-cases (stale x)) [
        | inl e ↦ (let same : (x.id == x.id) ≡ true = eqb_refl x.id in rw (e, same) refl)
        | inr e ↦ rw e (other_ids x xs d)
      ]

-- A deletion by a test that agrees with `stale` leaves the rows that are not stale.
delete_agree :
    (p stale : RefreshTokenModel → Bool) (rows : List RefreshTokenModel)
    → All (λ m. p m ≡ stale m) rows
    → delete_where p rows ≡ filter (λ m. not (stale m)) rows
delete_agree p stale [] h = refl
delete_agree p stale (m ∷ rows) (e, h) = elim (Bool-cases (stale m)) [
  | inl s ↦ rw (e, s) (delete_agree p stale rows h)
  | inr s ↦ rw (e, s, delete_agree p stale rows h)
]

delete_nothing : (rows : List RefreshTokenModel) → delete_where (λ _. false) rows ≡ rows
delete_nothing [] = refl
delete_nothing (m ∷ rows) = rw (delete_nothing rows)

any-perm : {A : Type 0} (p : A → Bool) {xs ys : List A} → Perm xs ys → any p xs ≡ any p ys
any-perm p {xs} {ys} q = any-all p xs ∙ ap not (all-perm (λ x. not (p x)) q) ∙ sym (any-all p ys)

module _ (env : Env) (laws : SqlLaws env) where
  delete_ids-keeps :
      (stale : RefreshTokenModel → Bool) (ks : List Uuid) (w : World) (n : ℕ)
      → All (λ (m : RefreshTokenModel). any (λ j. m.id == j) ks ≡ stale m) w.db.refresh_tokens
      → (delete_ids env ks w.db w).0 ≡ ok n
      → (delete_ids env ks w.db w).1.db.refresh_tokens
        ≡ filter (λ m. not (stale m)) w.db.refresh_tokens
  unfolding delete_ids run_app
  delete_ids-keeps stale [] w n agree done =
      sym (delete_nothing w.db.refresh_tokens)
      ∙ delete_agree (λ _. false) stale w.db.refresh_tokens agree
  delete_ids-keeps stale (k ∷ ks) w n agree done =
      let p : RefreshTokenModel → Bool = λ m. any (λ j. m.id == j) (k ∷ ks) in
      elim (Bool-cases
        (env.accepts (record w.db { refresh_tokens = delete_where p w.db.refresh_tokens }))) [
          | inl e ↦ rw e (delete_agree p stale w.db.refresh_tokens agree)
          | inr e ↦ absurd (let bad = rw e at done in cc)
        ]

  -- A purge that returns has deleted exactly the sessions that expired or were revoked before the
  -- cutoff: all other sessions stay, in their order. The database is consistent.
  pub purge_older_than-keeps :
      (cutoff : Time) (w : World) (n : ℕ)
      → IsConsistent env.same_text env.lower_text w.db
      → (purge_older_than env cutoff w).0 ≡ ok n
      → (purge_older_than env cutoff w).1.db.refresh_tokens
        ≡ filter (λ m. not (is_stale cutoff m)) w.db.refresh_tokens
  unfolding purge_older_than run_app
  purge_older_than-keeps cutoff w n c done =
      let rows = w.db.refresh_tokens in
      let chosen : List RefreshTokenModel = env.select (is_stale cutoff) rows in
      delete_ids-keeps (is_stale cutoff) (map (λ (m : RefreshTokenModel). m.id) chosen) w n
        (All-map rows
          (λ m told.
            any-map (λ j. m.id == j) chosen
            ∙ any-perm (λ (r : RefreshTokenModel). m.id == r.id)
                (laws.select_perm (is_stale cutoff) rows)
            ∙ told)
          (ids_tell (is_stale cutoff) rows c.token_ids))
        done

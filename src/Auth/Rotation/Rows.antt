-- ===== src/Auth/Rotation/Rows.antt =====
-- The row with a token hash, and its revocation.
use ch_tech_landing_page_bac.Base.{
  Bool, true, false, some, List, [], ◌∷◌, ◌≡◌, sym, ◌∙◌, arith, ◌==◌, find, All, All-map, All-find,
  Bool-cases, inl, inr, eqb_refl,
}
use ch_tech_landing_page_bac.Base.Keys.{Distinct, update_where}
use ch_tech_landing_page_bac.Text.{Str}
use ch_tech_landing_page_bac.Domain.Time.{Time}
use ch_tech_landing_page_bac.Models.{Uuid, RefreshTokenModel}
use ch_tech_landing_page_bac.App.Outside.{Env, SqlLaws}
use ch_tech_landing_page_bac.Auth.Tokens.{hash_is, token_id_is, set_revoked}
use ch_tech_landing_page_bac.Auth.Rotation.{IsSpent}

module _ (env : Env) (laws : SqlLaws env) (h : Str) where
  abbrev pub same_hash : RefreshTokenModel → RefreshTokenModel → Bool
  same_hash a b = env.same_text a.token_hash b.token_hash

  pub hash_agree :
      (x y : RefreshTokenModel)
      → hash_is env h x ≡ true
      → hash_is env h y ≡ true
      → same_hash x y ≡ true
  hash_agree x y p q = laws.same_trans _ _ _ p (laws.same_sym _ _ q)

  other_hash :
      (x y : RefreshTokenModel)
      → same_hash x y ≡ false
      → hash_is env h x ≡ true
      → hash_is env h y ≡ false
  other_hash x y d p = elim (Bool-cases (hash_is env h y)) [
    | inl q ↦ absurd (let e : true ≡ false = sym (hash_agree x y p q) ∙ d in cc)
    | inr q ↦ q
  ]

  hash_before :
      (x y : RefreshTokenModel)
      → same_hash x y ≡ false
      → hash_is env h y ≡ true
      → hash_is env h x ≡ false
  hash_before x y d q = elim (Bool-cases (hash_is env h x)) [
    | inl p ↦ absurd (let e : true ≡ false = sym (hash_agree x y p q) ∙ d in cc)
    | inr p ↦ p
  ]

  IsSpent-others :
      (k : Uuid) (at : Time) (rows : List RefreshTokenModel)
      → All (λ y. hash_is env h y ≡ false) rows
      → IsSpent env h (update_where (token_id_is k) (set_revoked (some at)) rows)
  IsSpent-others k at [] a = tt
  IsSpent-others k at (y ∷ rows) (d, a) = (ground arith, IsSpent-others k at rows a)

  pub update_where-IsSpent :
      (p : RefreshTokenModel → Bool) (at : Time) (rows : List RefreshTokenModel)
      (m : RefreshTokenModel)
      → Distinct same_hash rows
      → find p rows ≡ some m
      → hash_is env h m ≡ true
      → IsSpent env h (update_where (token_id_is m.id) (set_revoked (some at)) rows)
  update_where-IsSpent p at [] m d f q = absurd (cc)
  update_where-IsSpent p at (x ∷ rows) m (d, ds) f q = elim (Bool-cases (p x)) [
    | inl px ↦
        let same : x ≡ m = ground arith in
        let here : (x.id == m.id) ≡ true = rw same (eqb_refl m.id) in
        (
          rw here (ground arith),
          IsSpent-others m.id at rows (All-map rows (λ y e. other_hash x y e (rw same q)) d),
        )
    | inr px ↦
        let later : find p rows ≡ some m = ground arith in
        let apart : same_hash x m ≡ false = All-find _ p rows m d later in
        let other : hash_is env h x ≡ false = hash_before x m apart q in
        (ground arith, update_where-IsSpent p at rows m ds later q)
  ]

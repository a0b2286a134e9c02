-- ===== src/Auth/Rotation.antt =====
-- Rotation of refresh tokens: when a token hash is spent.
mod Repository
mod Rows
mod Calls
pub mod Replay
pub mod Logouts
use ch_tech_landing_page_bac.Base.{
  ℕ, Bool, true, false, ◌&&◌, ◌||◌, Option, none, some, List, [], ◌∷◌, ◌≡◌, ◌≤◌, refl, arith, ltb,
  ◌==◌, if◌then◌else◌, is_none, filter, find, to_list, any, All, All-map,
}
use ch_tech_landing_page_bac.Base.Keys.{update_where, delete_where}
use ch_tech_landing_page_bac.Errors.{Result, ok, err, unauthorized}
use ch_tech_landing_page_bac.Text.{Str}
use ch_tech_landing_page_bac.Domain.Time.{Time, Delta}
use ch_tech_landing_page_bac.Models.{Uuid, RefreshTokenModel, Db}
use ch_tech_landing_page_bac.App.{World, run_app}
use ch_tech_landing_page_bac.App.Outside.{Env, SqlLaws}
use ch_tech_landing_page_bac.Auth.Tokens.{
  hash_is, usable, token_id_is, set_revoked, revoke_if_active,
}

module _ (env : Env) (h : Str) where
  -- A row that a refresh with this hash could still use, at some time.
  abbrev pub live : RefreshTokenModel → Bool
  live m = hash_is env h m && is_none m.revoked_at

  -- Every row with the hash has been revoked.
  abbrev pub IsSpent : List RefreshTokenModel → Type 0
  IsSpent rows = All (λ m. live m ≡ false) rows

  pub IsSpent-usable :
      (at : Time) (rows : List RefreshTokenModel)
      → IsSpent rows
      → filter (usable env h at) rows ≡ []
  IsSpent-usable at [] s = refl
  IsSpent-usable at (m ∷ rows) (d, s) = ground (arith, IsSpent-usable at rows s)

  pub IsSpent-update :
      (k : Uuid) (at : Time) (rows : List RefreshTokenModel)
      → IsSpent rows
      → IsSpent (update_where (token_id_is k) (set_revoked (some at)) rows)
  IsSpent-update k at [] s = tt
  IsSpent-update k at (m ∷ rows) (d, s) = (ground arith, IsSpent-update k at rows s)

  pub IsSpent-delete :
      (p : RefreshTokenModel → Bool) (rows : List RefreshTokenModel)
      → IsSpent rows
      → IsSpent (delete_where p rows)
  IsSpent-delete p [] s = tt
  IsSpent-delete p (m ∷ rows) (d, s) = choose (p m) (IsSpent-delete p rows s)
    where
      choose :
          (b : Bool)
          → IsSpent (delete_where p rows)
          → IsSpent (if b then delete_where p rows else m ∷ delete_where p rows)
      choose true r = r
      choose false r = (d, r)

  -- No row to lock: nothing is revoked and nothing changes.
  pub revoke-IsSpent :
      (laws : SqlLaws env) (at : Time) (w : World)
      → IsSpent w.db.refresh_tokens
      → revoke_if_active env h at w ≡ (ok none, w)
  unfolding revoke_if_active run_app
  revoke-IsSpent laws at w s =
      rw (laws.one_found (usable env h at) w.db.refresh_tokens none (IsSpent-usable at _ s))

-- ===== src/Auth/Tokens.antt =====
-- app/domain/refresh_token.py and app/infrastructure/repositories/refresh_token_repository.py.
use ch_tech_landing_page_bac.Base.{
  ℕ, Bool, false, ◌&&◌, ◌||◌, Option, none, some, List, [], ◌∷◌, map, ltb, ◌==◌, if◌then◌else◌,
  length, any, is_none,
}
use ch_tech_landing_page_bac.Base.Keys.{update_where, delete_where}
use ch_tech_landing_page_bac.Errors.{no_result_found}
use ch_tech_landing_page_bac.Text.{Str}
use ch_tech_landing_page_bac.Domain.Time.{Time}
use ch_tech_landing_page_bac.Models.{Uuid, RefreshTokenModel, Db}
use ch_tech_landing_page_bac.App.{App, ◌>>=◌, ◌>>◌, pure, lift, get_db, or_raise, uuid4, commit}
use ch_tech_landing_page_bac.App.Outside.{Env}
use mathlib.Core.Option as Option

pub record RefreshToken : Type 0 where
  pub id : Uuid
  pub user_id : Uuid
  pub token_hash : Str
  pub issued_at : Time
  pub expires_at : Time
  pub revoked_at : Option Time
  pub user_agent : Option Str
  pub ip_address : Option Str

-- `RefreshToken.is_active`
unfoldable pub is_active : RefreshToken → Time → Bool
is_active t at = is_none t.revoked_at && ltb at t.expires_at

-- `RefreshToken.revoke`
unfoldable pub revoke : RefreshToken → Time → RefreshToken
revoke t at = if is_none t.revoked_at then record t { revoked_at = some at } else t

-- `_to_entity`
unfoldable pub to_entity : RefreshTokenModel → RefreshToken
to_entity model = record {
  id = model.id;
  user_id = model.user_id;
  token_hash = model.token_hash;
  issued_at = model.issued_at;
  expires_at = model.expires_at;
  revoked_at = model.revoked_at;
  user_agent = model.user_agent;
  ip_address = model.ip_address;
}

abbrev pub token_id_is : Uuid → RefreshTokenModel → Bool
token_id_is k m = m.id == k

-- `token.revoked_at < cutoff`, false on NULL
abbrev revoked_before : Option Time → Time → Bool
revoked_before none cutoff = false
revoked_before (some t) cutoff = ltb t cutoff

-- The `where_clause` of `purge_older_than`.
abbrev pub is_stale : Time → RefreshTokenModel → Bool
is_stale cutoff m = ltb m.expires_at cutoff || revoked_before m.revoked_at cutoff

abbrev pub set_revoked : Option Time → RefreshTokenModel → RefreshTokenModel
set_revoked at m = record m { revoked_at = at }

-- The tables with `revoked_at` of one token set.
abbrev pub with_revoked : Uuid → Option Time → Db → Db
with_revoked k at db = record db {
  refresh_tokens = update_where (token_id_is k) (set_revoked at) db.refresh_tokens;
}

module _ (env : Env) where
  abbrev pub hash_is : Str → RefreshTokenModel → Bool
  hash_is h m = env.same_text m.token_hash h

  -- The conditions of the locking `SELECT` in `revoke_if_active`.
  abbrev pub usable : Str → Time → RefreshTokenModel → Bool
  usable h at m = hash_is h m && (is_none m.revoked_at && ltb at m.expires_at)

  -- `create`
  unfoldable pub create_token :
      Uuid → Str → Time → Time → Option Str → Option Str → App RefreshToken
  unfolding to_entity
  create_token user_id token_hash issued_at expires_at user_agent ip_address = do
    k ← uuid4 env
    db ← get_db
    let model : RefreshTokenModel = record {
      id = k;
      user_id = user_id;
      token_hash = token_hash;
      issued_at = issued_at;
      expires_at = expires_at;
      revoked_at = none;
      user_agent = user_agent;
      ip_address = ip_address;
    }
    commit env (record db { refresh_tokens = model ∷ db.refresh_tokens })
    pure (to_entity model)

  -- `get_by_token_hash`
  unfoldable pub get_by_token_hash : Str → App (Option RefreshToken)
  unfolding to_entity
  get_by_token_hash h = do
    db ← get_db
    found ← lift (env.select_one (hash_is h) db.refresh_tokens)
    pure (Option.map to_entity found)

  -- `save`: `scalar_one` raises when the row is gone.
  unfoldable pub save : RefreshToken → App (Unit {0})
  save token = do
    db ← get_db
    found ← lift (env.select_one (token_id_is token.id) db.refresh_tokens)
    model ← or_raise found no_result_found
    commit env (with_revoked model.id token.revoked_at db)

  unfoldable pub revoke_found : Option RefreshTokenModel → Time → Db → App (Option RefreshToken)
  unfolding to_entity
  revoke_found none at db = pure none
  revoke_found (some model) at db = do
    commit env (with_revoked model.id (some at) db)
    pure (some (to_entity (set_revoked (some at) model)))

  -- `revoke_if_active`: the row is locked from the `SELECT` to the commit, so this is one step.
  unfoldable pub revoke_if_active : Str → Time → App (Option RefreshToken)
  unfolding revoke_found
  revoke_if_active h at = do
    db ← get_db
    found ← lift (env.select_one (usable h at) db.refresh_tokens)
    revoke_found found at db

  unfoldable pub delete_ids : List Uuid → Db → App ℕ
  delete_ids [] db = pure 0
  delete_ids (k ∷ ks) db = do
    commit env (record db {
      refresh_tokens = delete_where (λ m. any (λ j. m.id == j) (k ∷ ks)) db.refresh_tokens;
    })
    pure (length (k ∷ ks))

  -- `purge_older_than`
  unfoldable pub purge_older_than : Time → App ℕ
  unfolding delete_ids
  purge_older_than cutoff = do
    db ← get_db
    let ids = map (λ (m : RefreshTokenModel). m.id) (env.select (is_stale cutoff) db.refresh_tokens)
    delete_ids ids db

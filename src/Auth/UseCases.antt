-- ===== src/Auth/UseCases.antt =====
-- app/application/use_cases/auth.py: the `execute` of each use case, over the repositories of
-- app/infrastructure/repositories.
use ch_tech_landing_page_bac.Base.{ℕ, not, Option, none, some, ◌==◌, if◌then◌else◌}
use ch_tech_landing_page_bac.Errors.{unauthorized}
use ch_tech_landing_page_bac.Text.{Str}
use ch_tech_landing_page_bac.Domain.Enums.{user_role_value}
use ch_tech_landing_page_bac.Domain.Time.{Delta, later, earlier}
use ch_tech_landing_page_bac.Domain.ValueObjects.{normalize_email}
use ch_tech_landing_page_bac.Models.{Uuid}
use ch_tech_landing_page_bac.App.{App, ◌>>=◌, ◌>>◌, pure, raise, raise_if, or_raise, lift, now}
use ch_tech_landing_page_bac.App.Outside.{Env}
use ch_tech_landing_page_bac.Auth.Tokens.{
  RefreshToken, revoke, create_token, get_by_token_hash, save, revoke_if_active, purge_older_than,
}
use ch_tech_landing_page_bac.Auth.Users.{User, get_by_id, get_by_email, record_login}
use ch_tech_landing_page_bac.Auth.Security.{
  verify_password, create_access_token, generate_refresh_token, hash_refresh_token,
}

pub record AuthTokens : Type 0 where
  pub access_token : Str
  pub refresh_token : Str

module _ (env : Env) where
  -- `_issue_refresh_token`
  unfoldable pub issue_refresh_token : Uuid → Delta → Option Str → Option Str → App Str
  issue_refresh_token user_id ttl user_agent ip_address = do
    raw_token ← generate_refresh_token env
    t ← now env
    expires_at ← lift (later t ttl)
    created ←
        create_token env user_id (hash_refresh_token env raw_token) t expires_at user_agent
          ip_address
    pure raw_token

  -- The end that `Login` and `RefreshAccessToken` share.
  unfoldable pub issue_tokens : User → Delta → Option Str → Option Str → App AuthTokens
  issue_tokens user ttl user_agent ip_address = do
    raw ← issue_refresh_token user.id ttl user_agent ip_address
    access ← create_access_token env (env.uuid_text user.id) (user_role_value user.role)
    pure (record { access_token = access; refresh_token = raw })

  -- `user is None or not user.is_active or not verify_password(…)`, from left to right.
  unfoldable pub authenticate : Option User → Str → App User
  authenticate none password = raise (unauthorized "Invalid email or password")
  authenticate (some user) password =
      if user.is_active
      then (do
        good ← lift (verify_password env password user.password_hash)
        raise_if (not good) (unauthorized "Invalid email or password")
        pure user)
      else raise (unauthorized "Invalid email or password")

  -- `Login.execute`
  unfoldable pub login : Delta → Str → Str → Option Str → Option Str → App AuthTokens
  login ttl email password user_agent ip_address = do
    found ← get_by_email env (normalize_email env.unicode email)
    user ← authenticate found password
    t ← now env
    record_login env user.id t
    issue_tokens user ttl user_agent ip_address

  -- `token is None or token.user_id != current_user_id`
  unfoldable pub owned_token : Option RefreshToken → Uuid → App RefreshToken
  owned_token none user_id = raise (unauthorized "Invalid refresh token")
  owned_token (some token) user_id =
      if token.user_id == user_id then pure token else raise (unauthorized "Invalid refresh token")

  -- `Logout.execute`
  unfoldable pub logout : Str → Uuid → App (Unit {0})
  logout raw_refresh_token current_user_id = do
    found ← get_by_token_hash env (hash_refresh_token env raw_refresh_token)
    token ← owned_token found current_user_id
    t ← now env
    save env (revoke token t)

  -- `PurgeExpiredRefreshTokens.execute`
  unfoldable pub purge_expired : Delta → App ℕ
  purge_expired retention = do
    t ← now env
    cutoff ← lift (earlier t retention)
    purge_older_than env cutoff

  -- `user is None or not user.is_active`
  unfoldable pub active_user : Option User → App User
  active_user none = raise (unauthorized "Invalid or expired refresh token")
  active_user (some user) =
      if user.is_active then pure user else raise (unauthorized "Invalid or expired refresh token")

  -- The rest of `RefreshAccessToken.execute`, once the token is revoked or was not found.
  unfoldable pub refresh_found :
      Delta → Option RefreshToken → Option Str → Option Str → App AuthTokens
  refresh_found ttl found user_agent ip_address = do
    token ← or_raise found (unauthorized "Invalid or expired refresh token")
    owner ← get_by_id env token.user_id
    user ← active_user owner
    issue_tokens user ttl user_agent ip_address

  -- `RefreshAccessToken.execute`
  unfoldable pub refresh : Delta → Str → Option Str → Option Str → App AuthTokens
  unfolding refresh_found
  refresh ttl raw_refresh_token user_agent ip_address = do
    t ← now env
    found ← revoke_if_active env (hash_refresh_token env raw_refresh_token) t
    refresh_found ttl found user_agent ip_address

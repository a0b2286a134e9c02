-- ===== src/Auth/Rotation/Calls.antt =====
-- Spent token hashes through the calls of the use cases.
use ch_tech_landing_page_bac.Base.{not, Option, none, some, ◌≡◌, refl, arith, ◌==◌}
use ch_tech_landing_page_bac.Text.{Str}
use ch_tech_landing_page_bac.Domain.Time.{Time, Delta}
use ch_tech_landing_page_bac.Models.{Uuid}
use ch_tech_landing_page_bac.App.Keeps.{
  Yields, Anything, bind-Yields, then-Yields, pure-Yields, raise-Yields, lift-Yields,
  or_raise-Yields, raise_if-Yields, if-Yields,
}
use ch_tech_landing_page_bac.App.Outside.{Env}
use ch_tech_landing_page_bac.Auth.Tokens.{RefreshToken, revoke}
use ch_tech_landing_page_bac.Auth.Users.{User}
use ch_tech_landing_page_bac.Auth.Security.{
  create_access_token, generate_refresh_token, hash_refresh_token,
}
use ch_tech_landing_page_bac.Auth.UseCases.{
  issue_refresh_token, issue_tokens, authenticate, login, owned_token, logout, purge_expired,
  active_user, refresh_found, refresh,
}
use ch_tech_landing_page_bac.Auth.Rotation.Repository.{
  IsDead, now-Yields, token_urlsafe-Yields, create_token-Yields, get_by_token_hash-Yields,
  save-Yields, revoke_if_active-Yields, purge_older_than-Yields, get_by_id-Yields,
  get_by_email-Yields, record_login-Yields,
}

pub revoke-some : (t : RefreshToken) (at : Time) → (s : Time) × ((revoke t at).revoked_at ≡ some s)
unfolding revoke
revoke-some t at = choose t.revoked_at refl
  where
    choose : (r : Option Time) → t.revoked_at ≡ r → (s : Time) × ((revoke t at).revoked_at ≡ some s)
    choose none e = (at, ground arith)
    choose (some s) e = (s, ground arith)

module _ (env : Env) (h : Str) where
  create_access_token-Yields :
      (subject role : Str) → Yields (IsDead env h) (create_access_token env subject role) Anything
  unfolding create_access_token
  create_access_token-Yields subject role =
      bind-Yields (now-Yields env h) λ t _. bind-Yields (lift-Yields _) λ exp _. pure-Yields _ tt

  issue_refresh_token-Yields :
      (user_id : Uuid) (ttl : Delta) (ua ip : Option Str)
      → Yields (IsDead env h) (issue_refresh_token env user_id ttl ua ip) Anything
  unfolding issue_refresh_token generate_refresh_token hash_refresh_token
  issue_refresh_token-Yields user_id ttl ua ip =
      bind-Yields (token_urlsafe-Yields env h) λ raw other. bind-Yields (now-Yields env h) λ t _.
        bind-Yields (lift-Yields _) λ expires_at _.
          bind-Yields (create_token-Yields env h user_id _ t expires_at ua ip other)
            λ created _. pure-Yields _ tt

  issue_tokens-Yields :
      (user : User) (ttl : Delta) (ua ip : Option Str)
      → Yields (IsDead env h) (issue_tokens env user ttl ua ip) Anything
  unfolding issue_tokens
  issue_tokens-Yields user ttl ua ip =
      bind-Yields (issue_refresh_token-Yields user.id ttl ua ip)
        λ raw _. bind-Yields (create_access_token-Yields _ _) λ access _. pure-Yields _ tt

  authenticate-Yields :
      (found : Option User) (password : Str)
      → Yields (IsDead env h) (authenticate env found password) Anything
  unfolding authenticate
  authenticate-Yields none password = raise-Yields _
  authenticate-Yields (some user) password =
      if-Yields user.is_active
        (bind-Yields (lift-Yields _)
          λ good _. then-Yields (raise_if-Yields (not good) _) (pure-Yields _ tt))
        (raise-Yields _)

  pub login-Yields :
      (ttl : Delta) (email password : Str) (ua ip : Option Str)
      → Yields (IsDead env h) (login env ttl email password ua ip) Anything
  unfolding login
  login-Yields ttl email password ua ip = bind-Yields (get_by_email-Yields env h _) λ found _.
      bind-Yields (authenticate-Yields found password) λ user _.
        bind-Yields (now-Yields env h) λ t _.
          then-Yields (record_login-Yields env h user.id t) (issue_tokens-Yields user ttl ua ip)

  owned_token-Yields :
      (found : Option RefreshToken) (k : Uuid)
      → Yields (IsDead env h) (owned_token env found k) Anything
  unfolding owned_token
  owned_token-Yields none k = raise-Yields _
  owned_token-Yields (some token) k =
      if-Yields (token.user_id == k) (pure-Yields _ tt) (raise-Yields _)

  pub logout-Yields : (raw : Str) (k : Uuid) → Yields (IsDead env h) (logout env raw k) Anything
  unfolding logout
  logout-Yields raw k = bind-Yields (get_by_token_hash-Yields env h _) λ found _.
      bind-Yields (owned_token-Yields found k) λ token _.
        bind-Yields (now-Yields env h)
          λ t _. let (at, e) = revoke-some token t in save-Yields env h (revoke token t) at e

  pub purge_expired-Yields :
      (retention : Delta) → Yields (IsDead env h) (purge_expired env retention) Anything
  unfolding purge_expired
  purge_expired-Yields retention =
      bind-Yields (now-Yields env h)
        λ t _. bind-Yields (lift-Yields _) λ cutoff _. purge_older_than-Yields env h cutoff

  active_user-Yields :
      (found : Option User) → Yields (IsDead env h) (active_user env found) Anything
  unfolding active_user
  active_user-Yields none = raise-Yields _
  active_user-Yields (some user) = if-Yields user.is_active (pure-Yields _ tt) (raise-Yields _)

  pub refresh_found-Yields :
      (ttl : Delta) (found : Option RefreshToken) (ua ip : Option Str)
      → Yields (IsDead env h) (refresh_found env ttl found ua ip) Anything
  unfolding refresh_found
  refresh_found-Yields ttl found ua ip = bind-Yields (or_raise-Yields found _) λ token _.
      bind-Yields (get_by_id-Yields env h token.user_id) λ owner _.
        bind-Yields (active_user-Yields owner) λ user _. issue_tokens-Yields user ttl ua ip

  pub refresh-Yields :
      (ttl : Delta) (raw : Str) (ua ip : Option Str)
      → Yields (IsDead env h) (refresh env ttl raw ua ip) Anything
  unfolding refresh
  refresh-Yields ttl raw ua ip = bind-Yields (now-Yields env h) λ t _.
      bind-Yields (revoke_if_active-Yields env h _ t)
        λ found _. refresh_found-Yields ttl found ua ip

-- ===== src/Api/Auth.antt =====
-- app/api/v1/auth.py and app/schemas/auth.py: login, logout and refresh.
use ch_tech_landing_page_bac.Base.{Bool, not, ◌++◌}
use ch_tech_landing_page_bac.Errors.{request_validation_error}
use ch_tech_landing_page_bac.Text.{Str, text, lower}
use ch_tech_landing_page_bac.Domain.Time.{days}
use ch_tech_landing_page_bac.App.{App, ◌>>=◌, ◌>>◌, pure, lift, raise_if}
use ch_tech_landing_page_bac.App.Outside.{Env}
use ch_tech_landing_page_bac.Api.Http.{Caller, in_length}
use ch_tech_landing_page_bac.Auth.Security.{get_current_user_id}
use ch_tech_landing_page_bac.Auth.UseCases
use ch_tech_landing_page_bac.Auth.UseCases.{AuthTokens}
use ch_tech_landing_page_bac.RateLimit.{check_rate_limit, limit_ip}

-- A payload whose fields have their types, `EmailStr` for the email.
pub record LoginRequest : Type 0 where
  pub email : Str
  pub password : Str

pub record RefreshRequest : Type 0 where
  pub refresh_token : Str

pub record TokenResponse : Type 0 where
  pub access_token : Str
  pub refresh_token : Str
  pub token_type : Str

-- `_to_response`
unfoldable pub to_response : AuthTokens → TokenResponse
to_response tokens = record {
  access_token = tokens.access_token;
  refresh_token = tokens.refresh_token;
  token_type = text "Bearer";
}

-- The bounds of `LoginRequest`.
unfoldable pub valid : LoginRequest → Bool
valid payload = in_length 1 72 payload.password

module _ (env : Env) where
  -- `f"ratelimit:login:{payload.email.lower()}"`
  unfoldable pub login_key : Str → Str
  unfolding lower
  login_key email = text "ratelimit:login:" ++ lower env.unicode email

  -- `POST /login`: the body is checked before the handler counts the attempt.
  unfoldable pub login : Caller → LoginRequest → App TokenResponse
  login caller payload = do
    raise_if (not (valid payload)) request_validation_error
    check_rate_limit env (login_key payload.email) 5 900
    tokens ←
        UseCases.login env (days env.settings.refresh_token_expire_days) payload.email
          payload.password caller.user_agent caller.host
    pure (to_response tokens)

  -- `POST /logout`
  unfoldable pub logout : Caller → RefreshRequest → App (Unit {0})
  logout caller payload = do
    user ← get_current_user_id env caller.bearer
    current_user_id ← lift (env.uuid_parse user)
    UseCases.logout env payload.refresh_token current_user_id

  -- `_refresh_rate_limit`
  unfoldable pub refresh_rate_limit : Caller → App (Unit {0})
  refresh_rate_limit caller = limit_ip env 20 60 (text "refresh") caller.host

  -- `POST /refresh`
  unfoldable pub refresh : Caller → RefreshRequest → App TokenResponse
  refresh caller payload = do
    refresh_rate_limit caller
    tokens ←
        UseCases.refresh env (days env.settings.refresh_token_expire_days) payload.refresh_token
          caller.user_agent caller.host
    pure (to_response tokens)

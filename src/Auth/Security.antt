-- ===== src/Auth/Security.antt =====
-- app/core/security.py and app/api/deps.py. Hashing, signing and random texts are `Env`'s.
use ch_tech_landing_page_bac.Base.{suc, Bool, false, Option, none, some}
use ch_tech_landing_page_bac.Errors.{
  unauthorized, value_error, invalid_token_error, Result, ok, err,
}
use ch_tech_landing_page_bac.Text.{Str}
use ch_tech_landing_page_bac.Domain.Json.{Json, str}
use ch_tech_landing_page_bac.Domain.Time.{minutes, later}
use ch_tech_landing_page_bac.App.{App, ◌>>=◌, pure, raise, lift, now, token_urlsafe}
use ch_tech_landing_page_bac.App.Outside.{Env, Claims}

-- `except ValueError: return False`
abbrev pub false_on_value_error : Result Bool → Result Bool
false_on_value_error (err value_error) = ok false
false_on_value_error r = r

-- `except jwt.InvalidTokenError: raise UnauthorizedError(…)`
abbrev pub refuse_invalid_token {ℓ} : {A : Type ℓ} → Result A → Result A
refuse_invalid_token (err invalid_token_error) =
    err (unauthorized "Invalid or expired access token")
refuse_invalid_token r = r

abbrev in_result {ℓ} : {A : Type ℓ} → (Result A → Result A) → App A → App A
in_result f m w = (f (m w).0, (m w).1)

-- `payload.get("sub")`, which must be a text.
abbrev pub subject_of : Option Json → App Str
subject_of (some (str s)) = pure s
subject_of _ = raise (unauthorized "Invalid access token")

module _ (env : Env) where
  -- `hash_password`: `bcrypt` raises on a password of more than 72 bytes.
  unfoldable pub hash_password : Str → App Str
  hash_password password w = (env.hashpw w.secrets password, record w { secrets = suc w.secrets })

  unfoldable pub verify_password : Str → Str → Result Bool
  verify_password password password_hash = false_on_value_error (env.checkpw password password_hash)

  unfoldable pub create_access_token : Str → Str → App Str
  unfolding later
  create_access_token subject role = do
    t ← now env
    exp ← lift (later t (minutes env.settings.access_token_expire_minutes))
    let claims : Claims = record { sub = subject; role = role; iat = t; exp = exp }
    pure (env.jwt_encode claims env.settings.jwt_secret_key env.settings.jwt_algorithm)

  -- PyJWT reads the clock to check the expiry.
  unfoldable pub decode_access_token : Str → App (Option Json)
  decode_access_token token = do
    t ← now env
    lift (env.jwt_decode t token env.settings.jwt_secret_key env.settings.jwt_algorithm)

  unfoldable pub generate_refresh_token : App Str
  generate_refresh_token = token_urlsafe env

  unfoldable pub hash_refresh_token : Str → Str
  hash_refresh_token raw_token = env.sha256_hex raw_token

  -- `get_current_user_id`: the credentials are the bearer token, if the request has one.
  unfoldable pub get_current_user_id : Option Str → App Str
  unfolding decode_access_token
  get_current_user_id none = raise (unauthorized "Missing bearer token")
  get_current_user_id (some token) = do
    payload ← in_result refuse_invalid_token (decode_access_token token)
    subject_of payload

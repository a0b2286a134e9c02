-- ===== src/Api/Access/Guards.antt =====
-- The guards of the handlers, for a caller without access.
use ch_tech_landing_page_bac.Base.{
  ℕ, Bool, true, false, ◌||◌, ◌==◌, ltb, Bool-cases, Option, none, some, ◌≡◌, ◌∙◌, refl, inl, inr,
}
use ch_tech_landing_page_bac.Errors.{Result, ok, err, invalid_token_error, app_error}
use ch_tech_landing_page_bac.Text.{Str}
use ch_tech_landing_page_bac.Domain.Time.{Time}
use ch_tech_landing_page_bac.App.{App, World, next, ◌>>=◌, ◌>>◌, run_app}
use ch_tech_landing_page_bac.App.Outside.{Env}
use ch_tech_landing_page_bac.Auth.Security.{get_current_user_id, decode_access_token}
use ch_tech_landing_page_bac.Api.Http.{Caller, admin_read, admin_write, admin_write_limit}
use ch_tech_landing_page_bac.Api.Responses.{handle, app_error_handler}
use ch_tech_landing_page_bac.RateLimit.{
  redis_incr, redis_expire, redis_ttl, start_window, refuse, check_rate_limit, limit_ip,
}

-- The caller sends no bearer token, or one that PyJWT refuses at any time.
abbrev pub HasNoAccess : Env → Caller → Type 0
HasNoAccess env caller =
    (t : Time) (token : Str)
    → caller.bearer ≡ some token
    → env.jwt_decode t token env.settings.jwt_secret_key env.settings.jwt_algorithm
      ≡ err invalid_token_error

-- Whether a call was refused: it raised, and the handlers answer 401 or 429.
abbrev pub refused {ℓ} : {A : Type ℓ} → Result A → Bool
refused (ok a) = false
refused (err e) = (handle e).status_code == 401 || (handle e).status_code == 429

-- The outcome of a call that is refused in the world `w`.
abbrev pub Refusal : {A : Type 0} → World → Result A × World → Type 0
Refusal w (r, w') = (w'.db ≡ w.db) × (refused r ≡ true)

pub record IsRefused {A : Type 0} (m : App A) : Type 0 where
  pub at : (w : World) → Refusal w (m w)

next-Refusal :
    {A B : Type 0} (w : World) (r : Result A × World) (f : A → App B)
    → Refusal w r
    → Refusal w (next r f)
next-Refusal w (ok a, w') f (same, bad) = absurd (cc)
next-Refusal w (err x, w') f h = h

pub bind-IsRefused : {A B : Type 0} (m : App A) (f : A → App B) → IsRefused m → IsRefused (m >>= f)
unfolding ◌>>=◌
bind-IsRefused m f h = record { at = λ w. next-Refusal w (m w) f (h.at w) }

-- After a rate limit that passes, a call that is refused; and if it does not pass, a refusal too.
limited :
    {B : Type 0} (env : Env) (w : World) (over : Bool) (key : Str) (w' : World) (n : App B)
    → w'.db ≡ w.db
    → IsRefused n
    → Refusal w (next (refuse env over key w') (λ _. n))
unfolding refuse redis_ttl run_app handle app_error app_error_handler
limited env w true key w' n same h = (same, refl)
limited env w false key w' n same h = let (kept, bad) = h.at w' in (kept ∙ same, bad)

module _ (env : Env) where
  check_rate_limit-IsRefused :
      {B : Type 0} (key : Str) (limit window : ℕ) (n : App B)
      → IsRefused n
      → IsRefused (check_rate_limit env key limit window >> n)
  unfolding check_rate_limit redis_incr start_window redis_expire run_app
  check_rate_limit-IsRefused key limit window n h = record {
    at = λ w.
        let count : ℕ = (env.incr (env.clock_at w.clock) key w.redis).0 in
        elim (Bool-cases (count == 1)) [
          | inl e ↦ rw e (limited env w (ltb limit count) key _ n refl h)
          | inr e ↦ rw e (limited env w (ltb limit count) key _ n refl h)
        ];
  }

  module _ (caller : Caller) (outside : HasNoAccess env caller) where
    user_id-Refusal :
        (bearer : Option Str) (w : World)
        → caller.bearer ≡ bearer
        → Refusal w (get_current_user_id env bearer w)
    unfolding get_current_user_id decode_access_token handle app_error app_error_handler run_app
    user_id-Refusal none w e = (refl, refl)
    user_id-Refusal (some token) w e = rw (outside (env.clock_at w.clock) token e) (refl, refl)

    pub get_current_user_id-IsRefused : IsRefused (get_current_user_id env caller.bearer)
    get_current_user_id-IsRefused = record { at = λ w. user_id-Refusal caller.bearer w refl }

    pub admin_read-IsRefused : {A : Type 0} (m : Str → App A) → IsRefused (admin_read env caller m)
    unfolding admin_read
    admin_read-IsRefused m = bind-IsRefused _ _ get_current_user_id-IsRefused

    pub admin_write-IsRefused :
        {A : Type 0} (valid : Bool) (m : Str → App A) → IsRefused (admin_write env caller valid m)
    unfolding admin_write admin_write_limit limit_ip
    admin_write-IsRefused valid m =
        check_rate_limit-IsRefused _ _ _ _ (bind-IsRefused _ _ get_current_user_id-IsRefused)

pub ruleset refusal_rules = (admin_read-IsRefused, admin_write-IsRefused, bind-IsRefused)

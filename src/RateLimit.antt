-- ===== src/RateLimit.antt =====
-- app/core/rate_limit.py: a counter for each key in Redis, over a fixed window.
pub mod Window
use ch_tech_landing_page_bac.Base.{
  ℕ, zero, suc, Bool, true, false, ◌==◌, ltb, ◌++◌, Option, none, some,
}
use ch_tech_landing_page_bac.Base.Int.{ℤ, pos, negsuc}
use ch_tech_landing_page_bac.Errors.{ok, rate_limit_exceeded}
use ch_tech_landing_page_bac.Text.{Str, text}
use ch_tech_landing_page_bac.App.{App, ◌>>=◌, ◌>>◌, pure, raise}
use ch_tech_landing_page_bac.App.Outside.{Env}

-- `max(ttl, 1)`
abbrev pub at_least_one : ℤ → ℕ
at_least_one (pos zero) = 1
at_least_one (pos (suc n)) = suc n
at_least_one (negsuc n) = 1

module _ (env : Env) where
  -- `client.incr(key)`
  unfoldable pub redis_incr : Str → App ℕ
  redis_incr key w =
      let r = env.incr (env.clock_at w.clock) key w.redis in
      (ok r.0, record w { clock = suc w.clock; redis = r.1 })

  -- `client.expire(key, window_seconds)`
  unfoldable pub redis_expire : Str → ℕ → App (Unit {0})
  redis_expire key window w = (
    ok tt,
    record w { clock = suc w.clock; redis = env.expire (env.clock_at w.clock) key window w.redis },
  )

  -- `client.ttl(key)`
  unfoldable pub redis_ttl : Str → App ℤ
  redis_ttl key w =
      (ok (env.ttl (env.clock_at w.clock) key w.redis), record w { clock = suc w.clock })

  -- `if count == 1`
  unfoldable pub start_window : Bool → Str → ℕ → App (Unit {0})
  unfolding redis_expire
  start_window true key window = redis_expire key window
  start_window false key window = pure tt

  -- `if count > limit`
  unfoldable pub refuse : Bool → Str → App (Unit {0})
  unfolding redis_ttl
  refuse true key = do ttl ← redis_ttl key; raise (rate_limit_exceeded (at_least_one ttl))
  refuse false key = pure tt

  -- `check_rate_limit`
  unfoldable pub check_rate_limit : Str → ℕ → ℕ → App (Unit {0})
  unfolding redis_incr start_window refuse
  check_rate_limit key limit window = do
    count ← redis_incr key
    start_window (count == 1) key window
    refuse (ltb limit count) key

  abbrev pub host_of : Option Str → Str
  host_of none = text "unknown"
  host_of (some host) = host

  -- The dependency that `ip_rate_limiter` makes: the key holds the scope and the client's address.
  unfoldable pub limit_ip : ℕ → ℕ → Str → Option Str → App (Unit {0})
  limit_ip limit window scope client =
      check_rate_limit (text "ratelimit:" ++ scope ++ text ":" ++ host_of client) limit window

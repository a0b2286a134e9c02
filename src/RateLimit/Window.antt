-- ===== src/RateLimit/Window.antt =====
-- How many requests one window lets through.
use ch_tech_landing_page_bac.Base.{
  ℕ, zero, suc, ◌+◌, ◌*◌, ◌≤◌, Bool, true, false, not, Option, none, some, ◌≡◌, ◌∙◌, refl, ltb,
  ◌==◌, arith,
}
use ch_tech_landing_page_bac.Errors.{Result, ok, err}
use ch_tech_landing_page_bac.Text.{Str}
use ch_tech_landing_page_bac.Text.Laws.{str_eq_refl}
use ch_tech_landing_page_bac.Domain.Time.{Time}
use ch_tech_landing_page_bac.App.{World, run_app}
use ch_tech_landing_page_bac.App.Outside.{Env, RedisLaws, live_count, live_deadline, put, seconds}
use ch_tech_landing_page_bac.RateLimit.{
  check_rate_limit, redis_incr, redis_expire, start_window, refuse,
}

-- Whether a request was let through.
abbrev pub passed : {A : Type 0} → Result A → Bool
passed (ok a) = true
passed (err e) = false

module _ (env : Env) (key : Str) (limit window : ℕ) where
  -- The world after some requests with the key.
  unfoldable pub requests : ℕ → World → World
  requests zero w = w
  requests (suc n) w = (check_rate_limit env key limit window (requests n w)).1

  -- The end of a request: the key keeps its count, and the request passes unless it is refused.
  refuse_lem :
      (over good : Bool) (v : Option (ℕ × Option Time)) (w : World)
      → w.redis key ≡ v
      → not over ≡ good
      → ((refuse env over key w).1.redis key ≡ v)
        × (((refuse env over key w).1.clock ≤ suc w.clock)
            × (passed (refuse env over key w).0 ≡ good))
  unfolding refuse run_app
  refuse_lem true good v w e h = (e, (omega arith, h))
  refuse_lem false good v w e h = (e, (omega arith, h))

  module _ (laws : RedisLaws env) where
    -- A request while the key counts.
    later_request :
        (n : ℕ) (deadline : Time) (w : World)
        → w.redis key ≡ some (suc n, some deadline)
        → ltb (env.clock_at w.clock) deadline ≡ true
        → ((check_rate_limit env key limit window w).1.redis key
            ≡ some (suc (suc n), some deadline))
          × (((check_rate_limit env key limit window w).1.clock ≤ suc (suc w.clock))
              × (passed (check_rate_limit env key limit window w).0 ≡ ltb (suc n) limit))
    unfolding check_rate_limit redis_incr start_window run_app
    later_request n deadline w counted early =
        let more : (suc (suc n) == 1) ≡ false = ground arith in
        rw (laws.incr_put (env.clock_at w.clock) key w.redis, counted, early, more)
          (refuse_lem (ltb limit (suc (suc n))) (ltb (suc n) limit)
            (some (suc (suc n), some deadline)) _ (rw (str_eq_refl key)) (ground arith))

    -- The first request of a window starts it.
    first_request :
        (w : World)
        → live_count (env.clock_at w.clock) (w.redis key) ≡ 0
        → live_deadline (env.clock_at w.clock) (w.redis key) ≡ none
        → ((check_rate_limit env key limit window w).1.redis key
            ≡ some (1, some (env.clock_at (suc w.clock) + seconds window)))
          × (((check_rate_limit env key limit window w).1.clock ≤ suc (suc (suc w.clock)))
              × (passed (check_rate_limit env key limit window w).0 ≡ ltb 0 limit))
    unfolding check_rate_limit redis_incr start_window redis_expire run_app
    first_request w gone unset =
        let keys = put key (some (1, none)) w.redis in
        rw
          (
            laws.incr_put (env.clock_at w.clock) key w.redis,
            gone,
            unset,
            laws.expire_put (env.clock_at (suc w.clock)) key window 0 keys (rw (str_eq_refl key)),
          )
          (refuse_lem (ltb limit 1) (ltb 0 limit) _ _ (rw (str_eq_refl key)) (ground arith))

    module _ (w : World) (gone : live_count (env.clock_at w.clock) (w.redis key) ≡ 0) where
      module _ (unset : live_deadline (env.clock_at w.clock) (w.redis key) ≡ none) where
        -- The end of the window that the first request starts.
        abbrev pub deadline : Time
        deadline = env.clock_at (suc w.clock) + seconds window

        requests-count :
            (n : ℕ)
            → ((c : ℕ) → c ≤ w.clock + 3 * n → ltb (env.clock_at c) deadline ≡ true)
            → ((requests (suc n) w).redis key ≡ some (suc n, some deadline))
              × ((requests (suc n) w).clock ≤ w.clock + 3 * suc n)
        unfolding requests
        requests-count zero early =
            let (counted, (clock, good)) = first_request w gone unset in
            (counted, omega (arith, clock))
        requests-count (suc n) early =
            let (counted, clock) = requests-count n (λ c le. early c (omega (arith, le))) in
            let (more, (later, good)) =
              later_request n deadline (requests (suc n) w) counted
                (early _ (omega (arith, clock))) in
            (more, omega (arith, later, clock))

        -- In a window, the requests with a key pass exactly as long as there were fewer than the
        -- limit before, and are refused from then on: the request after `n` others passes if and
        -- only if `n < limit`. The key is gone at the first of them, and the readings of the clock up
        -- to the last one come before the end of the window.
        pub requests-passed :
            (n : ℕ)
            → ((c : ℕ) → c ≤ w.clock + 3 * n → ltb (env.clock_at c) deadline ≡ true)
            → passed (check_rate_limit env key limit window (requests n w)).0 ≡ ltb n limit
        unfolding requests
        requests-passed zero early = (first_request w gone unset).1.1
        requests-passed (suc n) early =
            let (counted, clock) = requests-count n (λ c le. early c (omega (arith, le))) in
            (later_request n deadline (requests (suc n) w) counted
              (early _ (omega (arith, clock)))).1.1

        -- The count, where each request reads the clock in the window.
        requests-counted :
            (n : ℕ)
            → ((i : ℕ) → i ≤ n → ltb (env.clock_at (requests i w).clock) deadline ≡ true)
            → (requests (suc n) w).redis key ≡ some (suc n, some deadline)
        unfolding requests
        requests-counted zero early = (first_request w gone unset).0
        requests-counted (suc n) early =
            (later_request n deadline (requests (suc n) w)
              (requests-counted n (λ i le. early i (omega (arith, le))))
              (early (suc n) (omega arith))).0

        -- A client that was let through or refused before is let through again: after any number of
        -- requests that each come in one window, the first request that comes at the end of the
        -- window or later passes, if the limit lets any request pass. The key is gone at the first
        -- request.
        pub requests-recover :
            (n : ℕ)
            → ((i : ℕ) → i ≤ n → ltb (env.clock_at (requests i w).clock) deadline ≡ true)
            → ltb (env.clock_at (requests (suc n) w).clock) deadline ≡ false
            → ltb 0 limit ≡ true
            → passed (check_rate_limit env key limit window (requests (suc n) w)).0 ≡ true
        requests-recover n early late some_pass =
            let counted = requests-counted n early in
            (first_request (requests (suc n) w) (rw (counted, late) refl)
              (rw (counted, late) refl)).1.1
            ∙ some_pass

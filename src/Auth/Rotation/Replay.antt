-- ===== src/Auth/Rotation/Replay.antt =====
-- Refreshing twice with one token, whatever is called in between.
use ch_tech_landing_page_bac.Base.{
  ℕ, suc, true, false, Option, none, some, List, [], ◌∷◌, ◌≡◌, ◌≤◌, refl, ap, arith, find,
  find-holds, Bool-cases, inl, inr,
}
use ch_tech_landing_page_bac.Base.Keys.{filter-find}
use ch_tech_landing_page_bac.Errors.{Error, Result, ok, err, unauthorized}
use ch_tech_landing_page_bac.Text.{Str}
use ch_tech_landing_page_bac.Domain.Time.{Time, Delta}
use ch_tech_landing_page_bac.Models.{Uuid, RefreshTokenModel}
use ch_tech_landing_page_bac.Models.Constraints.{IsConsistent}
use ch_tech_landing_page_bac.App.{World, next, run_app}
use ch_tech_landing_page_bac.App.Outside.{Env, SqlLaws}
use ch_tech_landing_page_bac.Auth.Tokens.{
  RefreshToken, usable, with_revoked, revoke_if_active, revoke_found,
}
use ch_tech_landing_page_bac.Auth.Security.{hash_refresh_token}
use ch_tech_landing_page_bac.Auth.UseCases.{
  AuthTokens, login, logout, purge_expired, refresh, refresh_found,
}
use ch_tech_landing_page_bac.Auth.Rotation.{IsSpent, revoke-IsSpent}
use ch_tech_landing_page_bac.Auth.Rotation.Repository.{IsDead}
use ch_tech_landing_page_bac.Auth.Rotation.Calls.{
  login-Yields, logout-Yields, purge_expired-Yields, refresh-Yields, refresh_found-Yields,
}
use ch_tech_landing_page_bac.Auth.Rotation.Rows.{same_hash, hash_agree, update_where-IsSpent}

-- One request or job that touches sessions, with its arguments.
pub data Call : Type 0 where
  call_login : Delta → Str → Str → Option Str → Option Str → Call
  call_logout : Str → Uuid → Call
  call_refresh : Delta → Str → Option Str → Option Str → Call
  call_purge : Delta → Call

module _ (env : Env) where
  -- The world after a call, whatever it returned or raised.
  unfoldable pub run_call : Call → World → World
  run_call (call_login ttl email password ua ip) w = (login env ttl email password ua ip w).1
  run_call (call_logout raw k) w = (logout env raw k w).1
  run_call (call_refresh ttl raw ua ip) w = (refresh env ttl raw ua ip w).1
  run_call (call_purge retention) w = (purge_expired env retention w).1

  -- The calls one after the other, in the order in which their transactions commit.
  unfoldable pub run_calls : List Call → World → World
  unfolding run_call
  run_calls [] w = w
  run_calls (c ∷ cs) w = run_calls cs (run_call c w)

  -- No refresh token that the generator will still return has this token's hash.
  abbrev pub IsUnissued : Str → World → Type 0
  IsUnissued raw w =
      (n : ℕ)
      → w.secrets ≤ n
      → env.same_text (env.sha256_hex (env.secret_at n)) (hash_refresh_token env raw) ≡ false

  run_call-IsDead : (h : Str) (c : Call) (w : World) → IsDead env h w → IsDead env h (run_call c w)
  unfolding run_call
  run_call-IsDead h (call_login ttl email password ua ip) w d =
      ((login-Yields env h ttl email password ua ip).run w d).0
  run_call-IsDead h (call_logout raw k) w d = ((logout-Yields env h raw k).run w d).0
  run_call-IsDead h (call_refresh ttl raw ua ip) w d =
      ((refresh-Yields env h ttl raw ua ip).run w d).0
  run_call-IsDead h (call_purge retention) w d = ((purge_expired-Yields env h retention).run w d).0

  pub run_calls-IsDead :
      (h : Str) (cs : List Call) (w : World) → IsDead env h w → IsDead env h (run_calls cs w)
  unfolding run_calls
  run_calls-IsDead h [] w d = d
  run_calls-IsDead h (c ∷ cs) w d = run_calls-IsDead h cs (run_call c w) (run_call-IsDead h c w d)

  -- The error that a refresh answers for a token that does not exist, expired or is revoked.
  abbrev pub refused : Error
  refused = unauthorized "Invalid or expired refresh token"

  refresh_none :
      (ttl : Delta) (ua ip : Option Str) (tokens : AuthTokens) (w : World)
      → (refresh_found env ttl none ua ip w).0 ≡ ok tokens
      → ⊥
  unfolding refresh_found run_app
  refresh_none ttl ua ip tokens w e = cc

  module _ (laws : SqlLaws env) where
    pub refresh-IsDead :
        (ttl : Delta) (raw : Str) (ua ip : Option Str) (w : World)
        → IsDead env (hash_refresh_token env raw) w
        → refresh env ttl raw ua ip w ≡ (err refused, record w { clock = suc w.clock })
    unfolding refresh run_app
    refresh-IsDead ttl raw ua ip w d =
        let h = hash_refresh_token env raw in
        rw (
          revoke-IsSpent env h laws (env.clock_at w.clock) (record w { clock = suc w.clock })
            d.spent)

    -- With unique hashes, the locking `SELECT` finds the row to revoke.
    pub revoke_if_active_lem :
        (h : Str) (at : Time) (w : World)
        → IsConsistent env.same_text env.lower_text w.db
        → revoke_if_active env h at w
          ≡ revoke_found env (find (usable env h at) w.db.refresh_tokens) at w.db w
    unfolding revoke_if_active run_app
    revoke_if_active_lem h at w c =
        let rows = w.db.refresh_tokens in
        rw (
          laws.one_found (usable env h at) rows (find (usable env h at) rows) (
            filter-find (same_hash env laws h) (usable env h at) rows
              (λ x y px py. hash_agree env laws h x y (ground arith) (ground arith))
              c.token_hashes))

    revoke_found-IsSpent :
        (h : Str) (at : Time) (w : World) (t : RefreshToken) (found : Option RefreshTokenModel)
        → IsConsistent env.same_text env.lower_text w.db
        → find (usable env h at) w.db.refresh_tokens ≡ found
        → (revoke_found env found at w.db w).0 ≡ ok (some t)
        → IsSpent env h (revoke_found env found at w.db w).1.db.refresh_tokens
          × ((revoke_found env found at w.db w).1.secrets ≡ w.secrets)
    unfolding revoke_found run_app
    revoke_found-IsSpent h at w t none c f e = absurd (cc)
    revoke_found-IsSpent h at w t (some m) c f e =
        let good : usable env h at m ≡ true =
          find-holds (usable env h at) w.db.refresh_tokens m f in
        let spent : IsSpent env h (with_revoked m.id (some at) w.db).refresh_tokens =
          update_where-IsSpent env laws h (usable env h at) at w.db.refresh_tokens m c.token_hashes
            f (ground arith) in
        elim (Bool-cases (env.accepts (with_revoked m.id (some at) w.db))) [
          | inl taken ↦ rw taken (spent, refl)
          | inr not_taken ↦ absurd (let bad = rw not_taken at e in cc)
        ]

    -- A revocation that found a token leaves its hash spent.
    revoke_if_active-IsDead :
        (raw : Str) (at : Time) (w : World) (t : RefreshToken)
        → IsConsistent env.same_text env.lower_text w.db
        → IsUnissued raw w
        → (revoke_if_active env (hash_refresh_token env raw) at w).0 ≡ ok (some t)
        → IsDead env
            (hash_refresh_token env raw)
            (revoke_if_active env (hash_refresh_token env raw) at w).1
    revoke_if_active-IsDead raw at w t c new e =
        let h = hash_refresh_token env raw in
        let step = revoke_if_active_lem h at w c in
        let (spent, same) = revoke_found-IsSpent h at w t _ c refl (rw step at e) in
        rw step (record { spent = spent; unissued = λ n le. new n (rw same at le) })

    refresh_rest-IsDead :
        (raw : Str) (at : Time) (w : World) (ttl : Delta) (ua ip : Option Str) (tokens : AuthTokens)
        (r : Result (Option RefreshToken) × World)
        → IsConsistent env.same_text env.lower_text w.db
        → IsUnissued raw w
        → revoke_if_active env (hash_refresh_token env raw) at w ≡ r
        → (next r (λ found. refresh_found env ttl found ua ip)).0 ≡ ok tokens
        → IsDead env
            (hash_refresh_token env raw)
            (next r (λ found. refresh_found env ttl found ua ip)).1
    refresh_rest-IsDead raw at w ttl ua ip tokens (ok (some t), w1) c new e done =
        let dead = revoke_if_active-IsDead raw at w t c new (ap (λ x. x.0) e) in
        let dead1 : IsDead env (hash_refresh_token env raw) w1 = rw e at dead in
        ((refresh_found-Yields env _ ttl (some t) ua ip).run w1 dead1).0
    refresh_rest-IsDead raw at w ttl ua ip tokens (ok none, w1) c new e done =
        absurd (refresh_none ttl ua ip tokens w1 done)
    refresh_rest-IsDead raw at w ttl ua ip tokens (err x, w1) c new e done = absurd (cc)

    -- After a refresh that succeeded the presented token is spent for good.
    refresh-ok-IsDead :
        (ttl : Delta) (raw : Str) (ua ip : Option Str) (w : World) (tokens : AuthTokens)
        → IsConsistent env.same_text env.lower_text w.db
        → IsUnissued raw w
        → (refresh env ttl raw ua ip w).0 ≡ ok tokens
        → IsDead env (hash_refresh_token env raw) (refresh env ttl raw ua ip w).1
    unfolding refresh run_app
    refresh-ok-IsDead ttl raw ua ip w tokens c new done =
        refresh_rest-IsDead raw (env.clock_at w.clock) (record w { clock = suc w.clock }) ttl ua ip
          tokens _ c new refl done

    -- A refresh token works once: after a refresh with it has succeeded, and after any sequence of
    -- logins, logouts, refreshes and purges that follows, a refresh with the same token is refused
    -- with 401 and changes nothing but the count of clock readings. The database is consistent at
    -- the start, and the generator does not return a token with the same hash again.
    pub refresh-replay :
        (ttl : Delta) (raw : Str) (ua ip : Option Str) (w : World) (tokens : AuthTokens)
        (calls : List Call) (ttl' : Delta) (ua' ip' : Option Str)
        → IsConsistent env.same_text env.lower_text w.db
        → IsUnissued raw w
        → (refresh env ttl raw ua ip w).0 ≡ ok tokens
        → (let w' = run_calls calls (refresh env ttl raw ua ip w).1 in
            refresh env ttl' raw ua' ip' w' ≡ (err refused, record w' { clock = suc w'.clock }))
    refresh-replay ttl raw ua ip w tokens calls ttl' ua' ip' c new done =
        refresh-IsDead ttl' raw ua' ip' _
          (run_calls-IsDead _ calls _ (refresh-ok-IsDead ttl raw ua ip w tokens c new done))

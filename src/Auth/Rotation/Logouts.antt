-- ===== src/Auth/Rotation/Logouts.antt =====
-- Refreshing after a logout.
use ch_tech_landing_page_bac.Base.{
  ap, suc, true, Option, none, some, List, ◌≡◌, refl, find, find-holds, Bool-cases, inl, inr,
  eqb→eq, ◌==◌, is_none,
}
use ch_tech_landing_page_bac.Errors.{Result, ok, err, no_result_found}
use ch_tech_landing_page_bac.Text.{Str}
use ch_tech_landing_page_bac.Domain.Time.{Time, Delta}
use ch_tech_landing_page_bac.Models.{Uuid, RefreshTokenModel}
use ch_tech_landing_page_bac.Models.Constraints.{IsConsistent}
use ch_tech_landing_page_bac.App.{App, World, run_app, ◌>>=◌, now, or_raise, commit}
use ch_tech_landing_page_bac.App.Outside.{Env, SqlLaws}
use ch_tech_landing_page_bac.App.Rows.{select_by_text, select_by_id}
use ch_tech_landing_page_bac.Auth.Tokens.{
  RefreshToken, revoke, to_entity, hash_is, token_id_is, with_revoked, save, get_by_token_hash,
}
use ch_tech_landing_page_bac.Auth.Security.{hash_refresh_token}
use ch_tech_landing_page_bac.Auth.UseCases.{owned_token, logout, refresh}
use ch_tech_landing_page_bac.Auth.Rotation.Rows.{update_where-IsSpent}
use ch_tech_landing_page_bac.Auth.Rotation.Repository.{IsDead}
use ch_tech_landing_page_bac.Auth.Rotation.Replay.{
  IsUnissued, Call, run_calls, run_calls-IsDead, refresh-IsDead, refused,
}
use mathlib.Core.Option as Option

-- A revoked token has a time, the earlier one if it was revoked before.
revoke-time :
    (t : RefreshToken) (at : Time) → (when : Time) × ((revoke t at).revoked_at ≡ some when)
unfolding revoke
revoke-time t at = time t.revoked_at refl
  where
    time :
        (o : Option Time)
        → t.revoked_at ≡ o
        → (when : Time) × ((revoke t at).revoked_at ≡ some when)
    time none e = (at, rw e)
    time (some s) e = (s, rw (ap is_none e) e)

revoke-id : (t : RefreshToken) (at : Time) → (revoke t at).id ≡ t.id
unfolding revoke
revoke-id t at = elim (Bool-cases (is_none t.revoked_at)) [ inl e ↦ rw e | inr e ↦ rw e ]

module _ (env : Env) (laws : SqlLaws env) where
  -- A save that succeeds writes the time of the revocation to the row of the token.
  save_ok :
      (token : RefreshToken) (w : World)
      → IsConsistent env.same_text env.lower_text w.db
      → (save env token w).0 ≡ ok tt
      → (save env token w).1 ≡ record w { db = with_revoked token.id token.revoked_at w.db }
  unfolding save run_app
  save_ok token w c e =
      let rows = w.db.refresh_tokens in
      let found =
        select_by_id env laws (λ (m : RefreshTokenModel). m.id) token.id (token_id_is token.id) rows
          (λ m h. h) c.token_ids in
      rw found (written (find (token_id_is token.id) rows) refl (rw found at e))
    where
      after : RefreshTokenModel → App (Unit {0})
      after model = commit env (with_revoked model.id token.revoked_at w.db)

      written :
          (o : Option RefreshTokenModel)
          → find (token_id_is token.id) w.db.refresh_tokens ≡ o
          → ((or_raise o no_result_found >>= after) w).0 ≡ ok tt
          → ((or_raise o no_result_found >>= after) w).1
            ≡ record w { db = with_revoked token.id token.revoked_at w.db }
      written none f done = absurd (cc)
      written (some m) f done =
          let same : m.id ≡ token.id =
            eqb→eq m.id token.id (find-holds (token_id_is token.id) w.db.refresh_tokens m f) in
          elim (Bool-cases (env.accepts (with_revoked m.id token.revoked_at w.db))) [
            | inl taken ↦ rw taken (rw same)
            | inr not_taken ↦ absurd (let bad = rw not_taken at done in cc)
          ]

  -- What logout does once the token was looked up.
  abbrev logout_from : Option RefreshTokenModel → Uuid → World → Result (Unit {0}) × World
  logout_from o user_id = owned_token env (Option.map to_entity o) user_id >>= λ token.
      now env >>= λ t. save env (revoke token t)

  logout_from-IsDead :
      (raw : Str) (user_id : Uuid) (w : World) (o : Option RefreshTokenModel)
      → IsConsistent env.same_text env.lower_text w.db
      → IsUnissued env raw w
      → find (hash_is env (hash_refresh_token env raw)) w.db.refresh_tokens ≡ o
      → (logout_from o user_id w).0 ≡ ok tt
      → IsDead env (hash_refresh_token env raw) (logout_from o user_id w).1
  unfolding owned_token run_app to_entity revoke
  logout_from-IsDead raw user_id w none c new f e = absurd (cc)
  logout_from-IsDead raw user_id w (some m) c new f e = elim (Bool-cases (m.user_id == user_id)) [
    | inr other ↦ absurd (let bad = rw other at e in cc)
    | inl own ↦
        let h = hash_refresh_token env raw in
        let w1 : World = record w { clock = suc w.clock } in
        let token : RefreshToken = revoke (to_entity m) (env.clock_at w.clock) in
        let (when, revoked) = revoke-time (to_entity m) (env.clock_at w.clock) in
        let good : hash_is env h m ≡ true = find-holds (hash_is env h) w.db.refresh_tokens m f in
        let done = save_ok token w1 c (rw own at e) in
        let spent =
          update_where-IsSpent env laws h (hash_is env h) when w.db.refresh_tokens m c.token_hashes
            f good in
        rw (own, done)
          (record {
            spent = rw (revoke-id (to_entity m) (env.clock_at w.clock), revoked) spent;
            unissued = new;
          })
  ]

  -- After a successful logout, and after any sequence of logins, logouts, refreshes and purges that
  -- follows, a refresh with the token is refused with 401 and changes nothing but the count of
  -- clock readings. The database is consistent at the logout, and the generator does not return a
  -- token with the same hash again.
  pub logout-replay :
      (raw : Str) (user_id : Uuid) (w : World) (calls : List Call) (ttl : Delta)
      (ua ip : Option Str)
      → IsConsistent env.same_text env.lower_text w.db
      → IsUnissued env raw w
      → (logout env raw user_id w).0 ≡ ok tt
      → (let w' = run_calls env calls (logout env raw user_id w).1 in
          refresh env ttl raw ua ip w' ≡ (err (refused env), record w' { clock = suc w'.clock }))
  unfolding logout get_by_token_hash run_app
  logout-replay raw user_id w calls ttl ua ip c new done =
      let h = hash_refresh_token env raw in
      let found =
        select_by_text env laws (λ (m : RefreshTokenModel). m.token_hash) h (hash_is env h)
          w.db.refresh_tokens (λ m q. q) c.token_hashes in
      let dead : IsDead env h (logout env raw user_id w).1 = rw found (
        logout_from-IsDead raw user_id w (find (hash_is env h) w.db.refresh_tokens) c new refl
          (rw found at done)) in
      refresh-IsDead env laws ttl raw ua ip _ (run_calls-IsDead env h calls _ dead)

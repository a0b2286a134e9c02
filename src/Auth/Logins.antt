-- ===== src/Auth/Logins.antt =====
-- What a login answers when the credentials are wrong.
use ch_tech_landing_page_bac.Base.{
  false, Option, none, some, ◌≡◌, ◌⊎◌, inl, inr, refl, find, Bool-cases,
}
use ch_tech_landing_page_bac.Errors.{ok, err, optional, unauthorized}
use ch_tech_landing_page_bac.Text.{Str}
use ch_tech_landing_page_bac.Domain.Time.{Delta}
use ch_tech_landing_page_bac.Domain.ValueObjects.{normalize_email}
use ch_tech_landing_page_bac.Models.{UserModel}
use ch_tech_landing_page_bac.Models.Constraints.{IsConsistent}
use ch_tech_landing_page_bac.App.{App, ◌>>=◌, World, run_app, next}
use ch_tech_landing_page_bac.App.Outside.{Env, SqlLaws}
use ch_tech_landing_page_bac.App.Rows.{select_by_text}
use ch_tech_landing_page_bac.Auth.Users.{User, to_entity, email_is, get_by_email}
use ch_tech_landing_page_bac.Auth.Security.{verify_password}
use ch_tech_landing_page_bac.Auth.UseCases.{AuthTokens, login, authenticate}

module _ (env : Env) where
  -- The account is unknown, disabled, or has another password.
  abbrev pub IsRefused : Option UserModel → Str → Type 0
  IsRefused none password = Unit
  IsRefused (some m) password =
      (user : User) × (to_entity env m ≡ ok user)
      × ((user.is_active ≡ false) ⊎ (verify_password env password user.password_hash ≡ ok false))

  module _ (laws : SqlLaws env) where
    -- A login with an address that no account has, for a disabled account, or with a wrong password
    -- gets one and the same answer, 401 with one message, and changes nothing: neither the tables
    -- nor what was read of the clock and the generators. The database is consistent.
    pub login-refused :
        (ttl : Delta) (email password : Str) (ua ip : Option Str) (w : World)
        → IsConsistent env.same_text env.lower_text w.db
        → IsRefused (find (email_is env (normalize_email env.unicode email)) w.db.users) password
        → login env ttl email password ua ip w ≡ (err (unauthorized "Invalid email or password"), w)
    unfolding login get_by_email authenticate run_app
    login-refused ttl email password ua ip w c bad =
        let e : Str = normalize_email env.unicode email in
        rw
          (select_by_text env laws (λ (m : UserModel). m.email) e (email_is env e) w.db.users
            (λ m h. h) c.user_emails)
          (refused _ (find (email_is env e) w.db.users) bad)
      where
        refused :
            (rest : User → App AuthTokens) (o : Option UserModel)
            → IsRefused o password
            → next
                (optional (to_entity env) o, w)
                (λ found. authenticate env found password >>= rest)
              ≡ (err (unauthorized "Invalid email or password"), w)
        refused rest none b = refl
        refused rest (some m) (user, e, inl off) = rw (e, off)
        refused rest (some m) (user, e, inr wrong) = elim (Bool-cases user.is_active) [
          | inl on ↦ rw (e, on, wrong)
          | inr off ↦ rw (e, off)
        ]

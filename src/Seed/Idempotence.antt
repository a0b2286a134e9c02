-- ===== src/Seed/Idempotence.antt =====
-- Running the seed twice.
use ch_tech_landing_page_bac.Base.{
  false, some, List, [], ◌∷◌, ◌≡◌, ◌∙◌, refl, ap, All, Bool-cases, inl, inr,
}
use ch_tech_landing_page_bac.Errors.{Result, ok, err}
use ch_tech_landing_page_bac.Text.{Str}
use ch_tech_landing_page_bac.Models.{Db, UserModel, TechnologyModel, CompanyModel, TeamMemberModel}
use ch_tech_landing_page_bac.Models.Constraints.{IsConsistent}
use ch_tech_landing_page_bac.App.{App, World, next, ◌>>=◌, get_db, run_app}
use ch_tech_landing_page_bac.App.Keeps.{Post, Yields}
use ch_tech_landing_page_bac.App.Outside.{Env, SqlLaws}
use ch_tech_landing_page_bac.App.Rows.{select_by_text}
use ch_tech_landing_page_bac.Auth.Users.{email_is}
use ch_tech_landing_page_bac.Content.Company.{first_company}
use ch_tech_landing_page_bac.Seed.{
  Session, technology_catalog, admin_email, name_is, is_founder, send_pending, add_admin_user,
  seed_admin_user, add_technology, seed_technologies, add_company, seed_company, add_founder,
  seed_team, commit_session, seed,
}
use ch_tech_landing_page_bac.Seed.Rows.{Has}
use ch_tech_landing_page_bac.Seed.Steps.{
  HasAdmin, HasNames, HasCompany, HasFounder, done, seed_admin_user-Yields,
  seed_technologies-Yields, seed_company-Yields, seed_team-Yields,
}

module _ (env : Env) (db : Db) where
  -- The rows of the seed are there, whatever an administrator has made of them since.
  pub record IsSeeded : Type 0 where
    pub user : UserModel
    pub user_found : env.select_one (email_is env (admin_email env)) db.users ≡ ok (some user)
    pub technologies_found :
        All
          (λ t.
            (m : TechnologyModel) × (env.select_one (name_is env t.0) db.technologies
              ≡ ok (some m)))
          technology_catalog
    pub company : CompanyModel
    pub company_found : first_company env db.companies ≡ some company
    pub member : TeamMemberModel
    pub member_found : env.select_one (is_founder env) db.team_members ≡ ok (some member)

  abbrev untouched : Session
  untouched = record { tables = db; pending = false; changed = false }

  seed_technologies-found :
      (catalog : List (Str × Str)) (w : World)
      → All
          (λ t.
            (m : TechnologyModel) × (env.select_one (name_is env t.0) db.technologies
              ≡ ok (some m)))
          catalog
      → seed_technologies env catalog untouched w ≡ (ok untouched, w)
  unfolding seed_technologies send_pending add_technology run_app
  seed_technologies-found [] w h = refl
  seed_technologies-found ((name, category) ∷ catalog) w ((m, found), h) =
      rw (found, seed_technologies-found catalog w h) refl

-- Where the rows are found, the seed returns and leaves the tables, the clock and the generators as
-- they were.
seed-IsSeeded : (env : Env) (w : World) → IsSeeded env w.db → seed env w ≡ (ok tt, w)
unfolding seed seed_admin_user send_pending add_admin_user seed_company add_company seed_team
    add_founder commit_session run_app
seed-IsSeeded env w h =
    rw
      (
        h.user_found,
        seed_technologies-found env w.db technology_catalog w h.technologies_found,
        h.company_found,
        h.member_found,
      )
      refl

-- A call that returned leaves tables with the property, if it began with the tables `start`.
record Reaches (start : Db) (F : Db → Type 0) (m : App (Unit {0})) : Type 0 where
  at : (w : World) → w.db ≡ start → (m w).0 ≡ ok tt → F (m w).1.db

module _ {start : Db} {F : Db → Type 0} where
  next-Reaches :
      {A : Type 0} {Q : A → Type 0} (r : Result A × World) (f : A → App (Unit {0}))
      → (r.1.db ≡ start) × Post Q r.0
      → ((a : A) → Q a → Reaches start F (f a))
      → (next r f).0 ≡ ok tt
      → F (next r f).1.db
  next-Reaches (ok a, w) f (i, q) k e = (k a q).at w i e
  next-Reaches (err x, w) f (i, q) k e = absurd (cc)

  bind-Reaches :
      {A : Type 0} {Q : A → Type 0} {m : App A} {f : A → App (Unit {0})}
      → Yields (λ w. w.db ≡ start) m Q
      → ((a : A) → Q a → Reaches start F (f a))
      → Reaches start F (m >>= f)
  unfolding ◌>>=◌
  bind-Reaches {m} {f} h k = record { at = λ w i e. next-Reaches (m w) f (h.run w i) k e }

module _ (env : Env) (laws : SqlLaws env) (start : Db)
    (consistent : IsConsistent env.same_text env.lower_text start) where
  -- Consistent tables that hold the rows.
  settled :
      (db : Db)
      → IsConsistent env.same_text env.lower_text db
      → HasAdmin env laws start db
      → HasNames env laws start (done env laws start technology_catalog []) db
      → HasCompany env laws start db
      → HasFounder env laws start db
      → IsSeeded env db
  settled db c (user, has_user) (e5, (e4, (e3, (e2, (e1, _))))) (company, has_company)
        (member, has_member) =
      record {
        user = user;
        user_found =
            select_by_text env laws (λ (u : UserModel). u.email) (admin_email env) _ db.users
              (λ u h. h) c.user_emails
            ∙ ap ok has_user;
        technologies_found =
            (by_name _ e1, (by_name _ e2, (by_name _ e3, (by_name _ e4, (by_name _ e5, tt)))));
        company = company;
        company_found = has_company;
        member = member;
        member_found = has_member;
      }
    where
      by_name :
          (name : Str)
          → Has (name_is env name) db.technologies
          → (m : TechnologyModel) × (env.select_one (name_is env name) db.technologies
              ≡ ok (some m))
      by_name name (m, has) = (
        m,
        select_by_text env laws (λ (t : TechnologyModel). t.name) name (name_is env name)
              db.technologies (λ t h. h) c.technology_names
            ∙ ap ok has,
      )

  commit_session-Reaches :
      (s : Session)
      → (s.changed ≡ false → s.tables ≡ start)
      → (IsConsistent env.same_text env.lower_text s.tables → IsSeeded env s.tables)
      → Reaches start (IsSeeded env) (commit_session env s)
  unfolding commit_session run_app
  commit_session-Reaches s kept rows = record {
    at = λ w i e. elim (Bool-cases s.changed) [
      | inl y ↦ elim (Bool-cases (env.accepts s.tables)) [
        | inl good ↦ rw (y, good) (rows (laws.accepts_sound s.tables good))
        | inr bad ↦ absurd (let e' = rw (y, bad) at e in cc)
      ]
      | inr n ↦ let same = kept n in rw (n, i, ← same) (rows (rw (← same) at consistent))
    ];
  }

  began-Yields : Yields (λ w. w.db ≡ start) get_db (λ db. db ≡ start)
  unfolding get_db
  began-Yields = record { run = λ w i. (i, i) }

  seed-Reaches : Reaches start (IsSeeded env) (seed env)
  unfolding seed
  seed-Reaches = bind-Reaches began-Yields λ db same.
      (bind-Reaches
        (seed_admin_user-Yields env laws start
          (record { tables = db; pending = false; changed = false }) (λ _. same))
        λ s (k, admin).
          (bind-Reaches (seed_technologies-Yields env laws start technology_catalog [] s k admin tt)
            λ s1 h1.
              (bind-Reaches
                (seed_company-Yields env laws start (done env laws start technology_catalog []) s1
                  h1)
                λ s2 (h2, c).
                  (bind-Reaches
                    (seed_team-Yields env laws start (done env laws start technology_catalog []) s2
                      h2 c)
                    λ s3 ((kept, (admin', names)), (company, founder)).
                      (commit_session-Reaches s3 kept (λ consistent'.
                        settled s3.tables consistent' admin' names company founder))))))

-- The seed is idempotent: once it has returned, running it again right away returns and changes
-- nothing at all, whatever the tables held before the first run, if they were consistent.
pub seed-seed :
    (env : Env)
    → SqlLaws env
    → (w : World) → IsConsistent env.same_text env.lower_text w.db
    → (seed env w).0 ≡ ok tt
    → seed env (seed env w).1 ≡ (ok tt, (seed env w).1)
seed-seed env laws w consistent done =
    seed-IsSeeded env (seed env w).1 ((seed-Reaches env laws w.db consistent).at w refl done)

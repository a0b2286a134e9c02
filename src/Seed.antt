-- ===== src/Seed.antt =====
-- app/db/seed.py and app/db/purge_refresh_tokens.py: the scripts that an administrator runs.
pub mod Rows
pub mod Steps
pub mod Idempotence
use ch_tech_landing_page_bac.Base.{
  ℕ, Bool, true, false, Option, none, some, List, [], ◌∷◌, if◌then◌else◌,
}
use ch_tech_landing_page_bac.Base.Int.{pos}
use ch_tech_landing_page_bac.Errors.{no_result_found}
use ch_tech_landing_page_bac.Text.{Str, text}
use ch_tech_landing_page_bac.Domain.Enums.{user_role_value, admin}
use ch_tech_landing_page_bac.Domain.Time.{days}
use ch_tech_landing_page_bac.Domain.ValueObjects.{normalize_email}
use ch_tech_landing_page_bac.Models.{Db, UserModel, TechnologyModel, CompanyModel, TeamMemberModel}
use ch_tech_landing_page_bac.App.{
  App, ◌>>=◌, ◌>>◌, pure, lift, get_db, or_raise, now, uuid4, commit, flush,
}
use ch_tech_landing_page_bac.App.Outside.{Env}
use ch_tech_landing_page_bac.Auth.Security.{hash_password}
use ch_tech_landing_page_bac.Auth.Users.{email_is}
use ch_tech_landing_page_bac.Auth.UseCases.{purge_expired}
use ch_tech_landing_page_bac.Content.Company.{first_company}

-- `TECHNOLOGY_CATALOG`
abbrev pub technology_catalog : List (Str × Str)
technology_catalog =
    (text "Python", text "Language")
    ∷ (text "FastAPI", text "Framework")
    ∷ (text "Next.js", text "Framework")
    ∷ (text "Docker", text "Infra")
    ∷ (text "MySQL", text "Database")
    ∷ []

-- The session: the tables with what was added, whether any of it was not sent yet, and whether
-- there is anything to commit.
pub record Session : Type 0 where
  pub tables : Db
  pub pending : Bool
  pub changed : Bool

-- `session.add(…)`, where the tables become `db`. The defaults of the columns are read here and not
-- when the row is sent, which is the same readings: nothing else reads them in between.
abbrev pub added : Db → Session
added db = record { tables = db; pending = true; changed = true }

abbrev pub sent : Session → Session
sent s = record s { pending = false }

module _ (env : Env) where
  -- What a query does first: it sends what was added (autoflush).
  unfoldable pub send_pending : Session → App (Unit {0})
  send_pending s = if s.pending then flush env s.tables else pure tt

  -- `settings.seed_admin_email.strip().lower()`
  abbrev pub admin_email : Str
  admin_email = normalize_email env.unicode env.settings.seed_admin_email

  unfoldable pub add_admin_user : Option UserModel → Session → App Session
  add_admin_user (some user) s = pure s
  add_admin_user none s = do
    password_hash ← hash_password env env.settings.seed_admin_password
    k ← uuid4 env
    created ← now env
    updated ← now env
    let user : UserModel = record {
      id = k;
      name = env.settings.seed_admin_name;
      email = admin_email;
      password_hash = password_hash;
      role = user_role_value admin;
      is_active = true;
      last_login = none;
      created_at = created;
      updated_at = updated;
    }
    let db = s.tables
    pure (added (record db { users = user ∷ db.users }))

  -- `seed_admin_user`
  unfoldable pub seed_admin_user : Session → App Session
  unfolding send_pending add_admin_user
  seed_admin_user s = do
    send_pending s
    existing ← lift (env.select_one (email_is env admin_email) s.tables.users)
    add_admin_user existing (sent s)

  abbrev pub name_is : Str → TechnologyModel → Bool
  name_is name m = env.same_text m.name name

  unfoldable pub add_technology : Option TechnologyModel → Str → Str → Session → App Session
  add_technology (some m) name category s = pure s
  add_technology none name category s = do
    k ← uuid4 env
    created ← now env
    updated ← now env
    let m : TechnologyModel = record {
      id = k;
      name = name;
      category = some category;
      icon = none;
      official_url = none;
      created_at = created;
      updated_at = updated;
    }
    let db = s.tables
    pure (added (record db { technologies = m ∷ db.technologies }))

  -- `seed_technologies`, over the rest of the catalogue.
  unfoldable pub seed_technologies : List (Str × Str) → Session → App Session
  unfolding send_pending add_technology
  seed_technologies [] s = pure s
  seed_technologies ((name, category) ∷ catalog) s = do
    send_pending s
    existing ← lift (env.select_one (name_is name) s.tables.technologies)
    s' ← add_technology existing name category (sent s)
    seed_technologies catalog s'

  unfoldable pub add_company : Option CompanyModel → Session → App Session
  add_company (some m) s = pure s
  add_company none s = do
    k ← uuid4 env
    created ← now env
    updated ← now env
    let m : CompanyModel = record {
      id = k;
      legal_name = text "CH-TECH";
      display_name = text "CH-TECH";
      tagline = some (
          text
            "Construimos software moderno, automatizaciones con IA y productos digitales escalables para empresas que quieren crecer.");
      mission = some (
          text
            "Diseñar, desarrollar e implementar soluciones tecnológicas que ayuden a empresas a automatizar procesos, mejorar su operación y acelerar su crecimiento mediante software e inteligencia artificial.");
      vision = some (
          text
            "Convertir a CH-TECH en una empresa capaz de combinar Desarrollo de Software, Inteligencia Artificial, Automatización, Productos SaaS, Consultoría Tecnológica e Investigación e Innovación bajo una misma marca.");
      email = none;
      phone = none;
      address = none;
      social_links = none;
      created_at = created;
      updated_at = updated;
    }
    let db = s.tables
    pure (added (record db { companies = m ∷ db.companies }))

  -- `seed_company`
  unfoldable pub seed_company : Session → App Session
  unfolding send_pending add_company first_company
  seed_company s = do send_pending s; add_company (first_company env s.tables.companies) (sent s)

  abbrev pub founder : Str
  founder = text "Yadzael Chalico"

  abbrev pub is_founder : TeamMemberModel → Bool
  is_founder m = env.same_text m.name founder

  unfoldable pub add_founder : Option TeamMemberModel → Session → App Session
  add_founder (some m) s = pure s
  add_founder none s = do
    found ← lift (env.select_one (email_is env admin_email) s.tables.users)
    admin_user ← or_raise found no_result_found
    k ← uuid4 env
    created ← now env
    updated ← now env
    let m : TeamMemberModel = record {
      id = k;
      user_id = some admin_user.id;
      name = founder;
      role = text "Founder & Lead Software Engineer";
      bio = some (
          text
            "Fundador de CH-TECH. Diseña y construye arquitecturas escalables, automatizaciones con IA y productos digitales con prácticas de ingeniería moderna, de principio a fin.");
      photo = none;
      linkedin_url = none;
      github_url = none;
      display_order = pos 0;
      active = true;
      created_at = created;
      updated_at = updated;
    }
    let db = s.tables
    pure (added (record db { team_members = m ∷ db.team_members }))

  -- `seed_team`
  unfoldable pub seed_team : Session → App Session
  unfolding send_pending add_founder
  seed_team s = do
    send_pending s
    existing ← lift (env.select_one is_founder s.tables.team_members)
    add_founder existing (sent s)

  -- `session.commit()`
  unfoldable pub commit_session : Session → App (Unit {0})
  commit_session s = if s.changed then commit env s.tables else pure tt

  -- `main` of the seed.
  unfoldable pub seed : App (Unit {0})
  unfolding seed_admin_user seed_technologies seed_company seed_team commit_session
  seed = do
    db ← get_db
    s ← seed_admin_user (record { tables = db; pending = false; changed = false })
    s' ← seed_technologies technology_catalog s
    s'' ← seed_company s'
    s''' ← seed_team s''
    commit_session s'''

  -- `main` of the purge.
  unfoldable pub purge_refresh_tokens : App ℕ
  purge_refresh_tokens = purge_expired env (days env.settings.refresh_token_retention_days)

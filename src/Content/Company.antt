-- ===== src/Content/Company.antt =====
-- The company profile: app/infrastructure/repositories/company_repository.py,
-- app/application/use_cases/company.py and `seed_company` of app/db/seed.py.
pub mod Singleton
use ch_tech_landing_page_bac.Base.{Bool, true, Option, none, some, List, [], ◌∷◌, ◌==◌}
use ch_tech_landing_page_bac.Base.Keys.{update_where}
use ch_tech_landing_page_bac.Errors
use ch_tech_landing_page_bac.Errors.{Result, ok, optional, resource_not_found}
use ch_tech_landing_page_bac.Text.{Str}
use ch_tech_landing_page_bac.Domain.Json.{Json}
use ch_tech_landing_page_bac.Domain.Entities.{Company}
use ch_tech_landing_page_bac.Domain.ValueObjects.{make_email}
use ch_tech_landing_page_bac.Models.{Uuid, CompanyModel}
use ch_tech_landing_page_bac.App.{App, ◌>>=◌, ◌>>◌, lift, get_db, or_raise, now, uuid4, commit}
use ch_tech_landing_page_bac.App.Outside.{Env}
use ch_tech_landing_page_bac.App.Rows.{if_text, updated_time}

-- `CompanyInput` (app/application/ports/company_repository.py).
pub record CompanyInput : Type 0 where
  pub legal_name : Str
  pub display_name : Str
  pub tagline : Option Str
  pub mission : Option Str
  pub vision : Option Str
  pub email : Option Str
  pub phone : Option Str
  pub address : Option Str
  pub social_links : Option Json

abbrev pub company_id_is : Uuid → CompanyModel → Bool
company_id_is k m = m.id == k

-- The assignments of `update`.
abbrev pub assigned : CompanyInput → CompanyModel → CompanyModel
assigned input model = record model {
  legal_name = input.legal_name;
  display_name = input.display_name;
  tagline = input.tagline;
  mission = input.mission;
  vision = input.vision;
  email = input.email;
  phone = input.phone;
  address = input.address;
  social_links = input.social_links;
}

module _ (env : Env) where
  -- `_to_entity`
  unfoldable pub to_company_entity : CompanyModel → Result Company
  to_company_entity model = Errors.◌>>=◌ (if_text (make_email env.unicode) model.email) λ email.
      ok (record {
        id = model.id;
        legal_name = model.legal_name;
        display_name = model.display_name;
        tagline = model.tagline;
        mission = model.mission;
        vision = model.vision;
        email = email;
        phone = model.phone;
        address = model.address;
        social_links = model.social_links;
        created_at = model.created_at;
        updated_at = model.updated_at;
      })

  -- `select(CompanyModel).limit(1)`: the row that the server finds first, if there is one.
  unfoldable pub first_company : List CompanyModel → Option CompanyModel
  first_company rows = elim (env.select (λ _. true) rows) [ [] ↦ none | m ∷ _ ↦ some m ]

  -- `get`
  unfoldable pub find_company : App (Option Company)
  unfolding to_company_entity first_company
  find_company = do db ← get_db; lift (optional to_company_entity (first_company db.companies))

  -- The rest of `update`: a new row if there is none.
  unfoldable pub put_company : Option CompanyModel → CompanyInput → App Company
  unfolding to_company_entity
  put_company none input = do
    k ← uuid4 env
    created ← now env
    updated ← now env
    db ← get_db
    let model : CompanyModel = assigned input (record {
      id = k;
      legal_name = [];
      display_name = [];
      tagline = none;
      mission = none;
      vision = none;
      email = none;
      phone = none;
      address = none;
      social_links = none;
      created_at = created;
      updated_at = updated;
    })
    commit env (record db { companies = model ∷ db.companies })
    lift (to_company_entity model)
  put_company (some model) input = do
    stamp ← updated_time env model (assigned input model) model.updated_at
    db ← get_db
    let changed : CompanyModel = record (assigned input model) { updated_at = stamp }
    commit env (record db {
      companies = update_where (company_id_is model.id) (λ _. changed) db.companies;
    })
    lift (to_company_entity changed)

  -- `update`
  unfoldable pub save_company : CompanyInput → App Company
  unfolding first_company put_company
  save_company input = do db ← get_db; put_company (first_company db.companies) input

  -- `GetCompany.execute`
  unfoldable pub get_company : App Company
  get_company = do
    found ← find_company
    or_raise found (resource_not_found "Company profile not found")

  -- `UpdateCompany.execute`
  unfoldable pub update_company : CompanyInput → App Company
  update_company input = save_company input

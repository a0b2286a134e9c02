-- ===== src/Api/Company.antt =====
-- app/api/v1/company.py and app/schemas/company.py: the payloads, the responses and the handlers.
use ch_tech_landing_page_bac.Base.{Bool, ◌&&◌, Option}
use ch_tech_landing_page_bac.Text.{Str}
use ch_tech_landing_page_bac.Domain.Json.{Json}
use ch_tech_landing_page_bac.Domain.Time.{Time}
use ch_tech_landing_page_bac.Models.{Uuid}
use ch_tech_landing_page_bac.App.{App, ◌>>=◌, pure}
use ch_tech_landing_page_bac.App.Outside.{Env}
use ch_tech_landing_page_bac.Api.Http.{
  Caller, Body, item, public_endpoint, admin_write, at_most, every, email_text,
}
use ch_tech_landing_page_bac.Domain.Entities.{Company}
use ch_tech_landing_page_bac.Content.Company
use ch_tech_landing_page_bac.Content.Company.{CompanyInput}

pub record CompanyItem : Type 0 where
  pub id : Uuid
  pub legal_name : Str
  pub display_name : Str
  pub tagline : Option Str
  pub mission : Option Str
  pub vision : Option Str
  pub email : Option Str
  pub phone : Option Str
  pub address : Option Str
  pub social_links : Option Json
  pub created_at : Time
  pub updated_at : Time

-- A payload whose fields have their types, `EmailStr` for the email, which Pydantic checks before
-- it runs the rest.
pub record CompanyWrite : Type 0 where
  pub legal_name : Str
  pub display_name : Str
  pub tagline : Option Str
  pub mission : Option Str
  pub vision : Option Str
  pub email : Option Str
  pub phone : Option Str
  pub address : Option Str
  pub social_links : Option Json

-- `_to_item`
unfoldable pub to_item : Company → CompanyItem
to_item company = record {
  id = company.id;
  legal_name = company.legal_name;
  display_name = company.display_name;
  tagline = company.tagline;
  mission = company.mission;
  vision = company.vision;
  email = email_text company.email;
  phone = company.phone;
  address = company.address;
  social_links = company.social_links;
  created_at = company.created_at;
  updated_at = company.updated_at;
}

-- `_to_input`
unfoldable pub to_input : CompanyWrite → CompanyInput
to_input payload = record {
  legal_name = payload.legal_name;
  display_name = payload.display_name;
  tagline = payload.tagline;
  mission = payload.mission;
  vision = payload.vision;
  email = payload.email;
  phone = payload.phone;
  address = payload.address;
  social_links = payload.social_links;
}

-- The routes of the public router.
pub data Public : Type 0 where
  call_get_company : Public

-- The routes of the admin router.
pub data Admin : Type 0 where
  call_update_company : CompanyWrite → Admin

module _ (env : Env) where
  -- The bounds and validators of `CompanyWrite`.
  unfoldable pub valid : CompanyWrite → Bool
  valid payload =
      at_most 255 payload.legal_name
      && (at_most 150 payload.display_name
          && (every (at_most 255) payload.tagline
              && (every (at_most 2000) payload.mission
                  && (every (at_most 2000) payload.vision
                      && (every (at_most 50) payload.phone
                          && (every (at_most 500) payload.address))))))

  -- `GET /company` of the public router.
  unfoldable pub get_company : Caller → App CompanyItem
  get_company caller =
      public_endpoint env caller (do found ← Company.get_company env; pure (to_item found))

  -- `PUT /company` of the admin router.
  unfoldable pub update_company : Caller → CompanyWrite → App CompanyItem
  update_company caller payload =
      admin_write env caller (valid payload)
        λ user. (do found ← Company.update_company env (to_input payload); pure (to_item found))

  unfoldable pub serve_public : Caller → Public → App (Body CompanyItem CompanyItem)
  serve_public caller call_get_company = get_company caller >>= λ r. pure (item r)

  unfoldable pub serve_admin : Caller → Admin → App (Body CompanyItem CompanyItem)
  serve_admin caller (call_update_company payload) =
      update_company caller payload >>= λ r. pure (item r)

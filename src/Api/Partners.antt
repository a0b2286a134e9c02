-- ===== src/Api/Partners.antt =====
-- app/api/v1/partners.py and app/schemas/partner.py: the payloads, the responses and the handlers.
use ch_tech_landing_page_bac.Base.{Bool, true, ◌&&◌, Option, List, map}
use ch_tech_landing_page_bac.Text.{Str}
use ch_tech_landing_page_bac.Domain.Time.{Time}
use ch_tech_landing_page_bac.Domain.ValueObjects.{make_image, make_url}
use ch_tech_landing_page_bac.Models.{Uuid}
use ch_tech_landing_page_bac.App.{App, ◌>>=◌, pure}
use ch_tech_landing_page_bac.App.Outside.{Env}
use ch_tech_landing_page_bac.Api.Http.{
  Caller, Body, items, item, no_content, public_endpoint, admin_write, at_most, every, is_ok,
  image_text, url_text,
}
use ch_tech_landing_page_bac.Domain.Entities.{Partner}
use ch_tech_landing_page_bac.Content.Partners
use ch_tech_landing_page_bac.Content.Partners.{PartnerInput}

pub record PartnerItem : Type 0 where
  pub id : Uuid
  pub name : Str
  pub logo : Option Str
  pub partnership_type : Option Str
  pub website_url : Option Str
  pub created_at : Time
  pub updated_at : Time

-- A payload whose fields have their types, which Pydantic checks before it runs the rest.
pub record PartnerWrite : Type 0 where
  pub name : Str
  pub logo : Option Str
  pub partnership_type : Option Str
  pub website_url : Option Str

-- `_to_item`
unfoldable pub to_item : Partner → PartnerItem
to_item partner = record {
  id = partner.id;
  name = partner.name;
  logo = image_text partner.logo;
  partnership_type = partner.partnership_type;
  website_url = url_text partner.website_url;
  created_at = partner.created_at;
  updated_at = partner.updated_at;
}

-- `_to_input`
unfoldable pub to_input : PartnerWrite → PartnerInput
to_input payload = record {
  name = payload.name;
  logo = payload.logo;
  partnership_type = payload.partnership_type;
  website_url = payload.website_url;
}

-- The routes of the public router.
pub data Public : Type 0 where
  call_list_partners : Public

-- The routes of the admin router.
pub data Admin : Type 0 where
  call_create_partner : PartnerWrite → Admin
  call_update_partner : Uuid → PartnerWrite → Admin
  call_delete_partner : Uuid → Admin

module _ (env : Env) where
  -- The bounds and validators of `PartnerWrite`.
  unfoldable pub valid : PartnerWrite → Bool
  valid payload =
      at_most 255 payload.name
      && (every (at_most 100) payload.partnership_type
          && (every (λ s. is_ok (make_image env.unicode s)) payload.logo
              && (every (λ s. is_ok (make_url env.unicode s)) payload.website_url)))

  -- `GET /` of the public router.
  unfoldable pub list_partners : Caller → App (List PartnerItem)
  list_partners caller =
      public_endpoint env caller (do found ← Partners.all_partners env; pure (map to_item found))

  -- `POST /` of the admin router.
  unfoldable pub create_partner : Caller → PartnerWrite → App PartnerItem
  create_partner caller payload =
      admin_write env caller (valid payload)
        λ user. (do found ← Partners.create_partner env (to_input payload); pure (to_item found))

  -- `PUT /{partner_id}` of the admin router.
  unfoldable pub update_partner : Caller → Uuid → PartnerWrite → App PartnerItem
  update_partner caller partner_id payload = admin_write env caller (valid payload) λ user. (do
    found ← Partners.update_partner env partner_id (to_input payload)
    pure (to_item found))

  -- `DELETE /{partner_id}` of the admin router.
  unfoldable pub delete_partner : Caller → Uuid → App (Unit {0})
  delete_partner caller partner_id =
      admin_write env caller true λ user. (Partners.delete_partner env partner_id)

  unfoldable pub serve_public : Caller → Public → App (Body PartnerItem PartnerItem)
  serve_public caller call_list_partners = list_partners caller >>= λ r. pure (items r)

  unfoldable pub serve_admin : Caller → Admin → App (Body PartnerItem PartnerItem)
  serve_admin caller (call_create_partner payload) =
      create_partner caller payload >>= λ r. pure (item r)
  serve_admin caller (call_update_partner partner_id payload) =
      update_partner caller partner_id payload >>= λ r. pure (item r)
  serve_admin caller (call_delete_partner partner_id) =
      delete_partner caller partner_id >>= λ r. pure no_content

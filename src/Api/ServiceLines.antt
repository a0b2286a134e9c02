-- ===== src/Api/ServiceLines.antt =====
-- app/api/v1/service_lines.py and app/schemas/service_line.py: the payloads, the responses and the handlers.
use ch_tech_landing_page_bac.Base.{Bool, true, ◌&&◌, Option, List, map}
use ch_tech_landing_page_bac.Base.Int.{ℤ}
use ch_tech_landing_page_bac.Text.{Str}
use ch_tech_landing_page_bac.Domain.Time.{Time}
use ch_tech_landing_page_bac.Domain.ValueObjects.{make_image}
use ch_tech_landing_page_bac.Models.{Uuid}
use ch_tech_landing_page_bac.App.{App, ◌>>=◌, pure}
use ch_tech_landing_page_bac.App.Outside.{Env}
use ch_tech_landing_page_bac.Api.Http.{
  Caller, Body, items, item, no_content, public_endpoint, admin_write, at_most, every, is_ok,
  image_text,
}
use ch_tech_landing_page_bac.Domain.Entities.{ServiceLine}
use ch_tech_landing_page_bac.Content.ServiceLines
use ch_tech_landing_page_bac.Content.ServiceLines.{ServiceLineInput}

pub record ServiceLineItem : Type 0 where
  pub id : Uuid
  pub slug : Str
  pub name : Str
  pub description : Option Str
  pub icon : Option Str
  pub display_order : ℤ
  pub created_at : Time
  pub updated_at : Time

-- A payload whose fields have their types, which Pydantic checks before it runs the rest.
pub record ServiceLineWrite : Type 0 where
  pub slug : Str
  pub name : Str
  pub description : Option Str
  pub icon : Option Str
  pub display_order : ℤ

-- `_to_item`
unfoldable pub to_item : ServiceLine → ServiceLineItem
to_item service_line = record {
  id = service_line.id;
  slug = service_line.slug.value;
  name = service_line.name;
  description = service_line.description;
  icon = image_text service_line.icon;
  display_order = service_line.display_order;
  created_at = service_line.created_at;
  updated_at = service_line.updated_at;
}

-- `_to_input`
unfoldable pub to_input : ServiceLineWrite → ServiceLineInput
to_input payload = record {
  slug = payload.slug;
  name = payload.name;
  description = payload.description;
  icon = payload.icon;
  display_order = payload.display_order;
}

-- The routes of the public router.
pub data Public : Type 0 where
  call_list_service_lines : Public
  call_get_service_line : Str → Public

-- The routes of the admin router.
pub data Admin : Type 0 where
  call_create_service_line : ServiceLineWrite → Admin
  call_update_service_line : Uuid → ServiceLineWrite → Admin
  call_delete_service_line : Uuid → Admin

module _ (env : Env) where
  -- The bounds and validators of `ServiceLineWrite`.
  unfoldable pub valid : ServiceLineWrite → Bool
  valid payload =
      at_most 150 payload.slug
      && (at_most 150 payload.name
          && (every (at_most 2000) payload.description
              && (every (λ s. is_ok (make_image env.unicode s)) payload.icon)))

  -- `GET /` of the public router.
  unfoldable pub list_service_lines : Caller → App (List ServiceLineItem)
  list_service_lines caller =
      public_endpoint env caller
        (do found ← ServiceLines.all_service_lines env; pure (map to_item found))

  -- `GET /{slug}` of the public router.
  unfoldable pub get_service_line : Caller → Str → App ServiceLineItem
  get_service_line caller slug =
      public_endpoint env caller
        (do found ← ServiceLines.get_service_line_by_slug env slug; pure (to_item found))

  -- `POST /` of the admin router.
  unfoldable pub create_service_line : Caller → ServiceLineWrite → App ServiceLineItem
  create_service_line caller payload = admin_write env caller (valid payload) λ user. (do
    found ← ServiceLines.create_service_line env (to_input payload)
    pure (to_item found))

  -- `PUT /{service_line_id}` of the admin router.
  unfoldable pub update_service_line : Caller → Uuid → ServiceLineWrite → App ServiceLineItem
  update_service_line caller service_line_id payload =
      admin_write env caller (valid payload) λ user. (do
        found ← ServiceLines.update_service_line env service_line_id (to_input payload)
        pure (to_item found))

  -- `DELETE /{service_line_id}` of the admin router.
  unfoldable pub delete_service_line : Caller → Uuid → App (Unit {0})
  delete_service_line caller service_line_id =
      admin_write env caller true λ user. (ServiceLines.delete_service_line env service_line_id)

  unfoldable pub serve_public : Caller → Public → App (Body ServiceLineItem ServiceLineItem)
  serve_public caller call_list_service_lines = list_service_lines caller >>= λ r. pure (items r)
  serve_public caller (call_get_service_line slug) =
      get_service_line caller slug >>= λ r. pure (item r)

  unfoldable pub serve_admin : Caller → Admin → App (Body ServiceLineItem ServiceLineItem)
  serve_admin caller (call_create_service_line payload) =
      create_service_line caller payload >>= λ r. pure (item r)
  serve_admin caller (call_update_service_line service_line_id payload) =
      update_service_line caller service_line_id payload >>= λ r. pure (item r)
  serve_admin caller (call_delete_service_line service_line_id) =
      delete_service_line caller service_line_id >>= λ r. pure no_content

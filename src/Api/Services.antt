-- ===== src/Api/Services.antt =====
-- app/api/v1/services.py and app/schemas/service.py: the payloads, the responses and the handlers.
use ch_tech_landing_page_bac.Base.{Bool, true, false, ◌&&◌, Option, List, map}
use ch_tech_landing_page_bac.Text.{Str}
use ch_tech_landing_page_bac.Domain.Time.{Time}
use ch_tech_landing_page_bac.Models.{Uuid}
use ch_tech_landing_page_bac.App.{App, ◌>>=◌, pure}
use ch_tech_landing_page_bac.App.Outside.{Env}
use ch_tech_landing_page_bac.Api.Http.{
  Caller, Body, items, item, no_content, public_endpoint, admin_read, admin_write, at_most, every,
}
use ch_tech_landing_page_bac.Domain.Entities.{Service}
use ch_tech_landing_page_bac.Content.Services
use ch_tech_landing_page_bac.Content.Services.{ServiceInput}

pub record ServiceItem : Type 0 where
  pub id : Uuid
  pub slug : Str
  pub title : Str
  pub description : Option Str
  pub featured : Bool
  pub active : Bool
  pub created_at : Time
  pub updated_at : Time

-- A payload whose fields have their types, which Pydantic checks before it runs the rest.
pub record ServiceWrite : Type 0 where
  pub slug : Str
  pub title : Str
  pub description : Option Str
  pub featured : Bool
  pub active : Bool

-- `_to_item`
unfoldable pub to_item : Service → ServiceItem
to_item service = record {
  id = service.id;
  slug = service.slug.value;
  title = service.title;
  description = service.description;
  featured = service.featured;
  active = service.active;
  created_at = service.created_at;
  updated_at = service.updated_at;
}

-- `_to_input`
unfoldable pub to_input : ServiceWrite → ServiceInput
to_input payload = record {
  slug = payload.slug;
  title = payload.title;
  description = payload.description;
  featured = payload.featured;
  active = payload.active;
}

-- The routes of the public router.
pub data Public : Type 0 where
  call_list_services : Public
  call_get_service : Str → Public

-- The routes of the admin router.
pub data Admin : Type 0 where
  call_list_admin_services : Admin
  call_get_admin_service : Uuid → Admin
  call_create_service : ServiceWrite → Admin
  call_update_service : Uuid → ServiceWrite → Admin
  call_delete_service : Uuid → Admin

module _ (env : Env) where
  -- The bounds and validators of `ServiceWrite`.
  unfoldable pub valid : ServiceWrite → Bool
  valid payload =
      at_most 150 payload.slug
      && (at_most 255 payload.title && (every (at_most 2000) payload.description))

  -- `GET /` of the public router.
  unfoldable pub list_services : Caller → App (List ServiceItem)
  list_services caller =
      public_endpoint env caller
        (do found ← Services.all_services env true; pure (map to_item found))

  -- `GET /{slug}` of the public router.
  unfoldable pub get_service : Caller → Str → App ServiceItem
  get_service caller slug =
      public_endpoint env caller
        (do found ← Services.get_service_by_slug env slug true; pure (to_item found))

  -- `GET /` of the admin router.
  unfoldable pub list_admin_services : Caller → App (List ServiceItem)
  list_admin_services caller =
      admin_read env caller
        λ user. (do found ← Services.all_services env false; pure (map to_item found))

  -- `GET /{service_id}` of the admin router.
  unfoldable pub get_admin_service : Caller → Uuid → App ServiceItem
  get_admin_service caller service_id =
      admin_read env caller
        λ user. (do found ← Services.get_service_by_id env service_id; pure (to_item found))

  -- `POST /` of the admin router.
  unfoldable pub create_service : Caller → ServiceWrite → App ServiceItem
  create_service caller payload =
      admin_write env caller (valid payload)
        λ user. (do found ← Services.create_service env (to_input payload); pure (to_item found))

  -- `PUT /{service_id}` of the admin router.
  unfoldable pub update_service : Caller → Uuid → ServiceWrite → App ServiceItem
  update_service caller service_id payload = admin_write env caller (valid payload) λ user. (do
    found ← Services.update_service env service_id (to_input payload)
    pure (to_item found))

  -- `DELETE /{service_id}` of the admin router.
  unfoldable pub delete_service : Caller → Uuid → App (Unit {0})
  delete_service caller service_id =
      admin_write env caller true λ user. (Services.delete_service env service_id)

  unfoldable pub serve_public : Caller → Public → App (Body ServiceItem ServiceItem)
  serve_public caller call_list_services = list_services caller >>= λ r. pure (items r)
  serve_public caller (call_get_service slug) = get_service caller slug >>= λ r. pure (item r)

  unfoldable pub serve_admin : Caller → Admin → App (Body ServiceItem ServiceItem)
  serve_admin caller call_list_admin_services = list_admin_services caller >>= λ r. pure (items r)
  serve_admin caller (call_get_admin_service service_id) =
      get_admin_service caller service_id >>= λ r. pure (item r)
  serve_admin caller (call_create_service payload) =
      create_service caller payload >>= λ r. pure (item r)
  serve_admin caller (call_update_service service_id payload) =
      update_service caller service_id payload >>= λ r. pure (item r)
  serve_admin caller (call_delete_service service_id) =
      delete_service caller service_id >>= λ r. pure no_content

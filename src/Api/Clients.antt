-- ===== src/Api/Clients.antt =====
-- app/api/v1/clients.py and app/schemas/client.py: the payloads, the responses and the handlers.
use ch_tech_landing_page_bac.Base.{Bool, true, ◌&&◌, Option, List, map}
use ch_tech_landing_page_bac.Text.{Str}
use ch_tech_landing_page_bac.Domain.Time.{Time}
use ch_tech_landing_page_bac.Domain.ValueObjects.{make_image, make_url}
use ch_tech_landing_page_bac.Models.{Uuid}
use ch_tech_landing_page_bac.App.{App, ◌>>=◌, pure}
use ch_tech_landing_page_bac.App.Outside.{Env}
use ch_tech_landing_page_bac.Api.Http.{
  Caller, Body, items, item, no_content, public_endpoint, admin_write, at_most, every, is_ok,
  image_text, url_text,
}
use ch_tech_landing_page_bac.Domain.Entities.{Client}
use ch_tech_landing_page_bac.Content.Clients
use ch_tech_landing_page_bac.Content.Clients.{ClientInput}

pub record ClientItem : Type 0 where
  pub id : Uuid
  pub name : Str
  pub logo : Option Str
  pub industry : Option Str
  pub website_url : Option Str
  pub created_at : Time
  pub updated_at : Time

-- A payload whose fields have their types, which Pydantic checks before it runs the rest.
pub record ClientWrite : Type 0 where
  pub name : Str
  pub logo : Option Str
  pub industry : Option Str
  pub website_url : Option Str

-- `_to_item`
unfoldable pub to_item : Client → ClientItem
to_item client = record {
  id = client.id;
  name = client.name;
  logo = image_text client.logo;
  industry = client.industry;
  website_url = url_text client.website_url;
  created_at = client.created_at;
  updated_at = client.updated_at;
}

-- `_to_input`
unfoldable pub to_input : ClientWrite → ClientInput
to_input payload = record {
  name = payload.name;
  logo = payload.logo;
  industry = payload.industry;
  website_url = payload.website_url;
}

-- The routes of the public router.
pub data Public : Type 0 where
  call_list_clients : Public

-- The routes of the admin router.
pub data Admin : Type 0 where
  call_create_client : ClientWrite → Admin
  call_update_client : Uuid → ClientWrite → Admin
  call_delete_client : Uuid → Admin

module _ (env : Env) where
  -- The bounds and validators of `ClientWrite`.
  unfoldable pub valid : ClientWrite → Bool
  valid payload =
      at_most 255 payload.name
      && (every (at_most 150) payload.industry
          && (every (λ s. is_ok (make_image env.unicode s)) payload.logo
              && (every (λ s. is_ok (make_url env.unicode s)) payload.website_url)))

  -- `GET /` of the public router.
  unfoldable pub list_clients : Caller → App (List ClientItem)
  list_clients caller =
      public_endpoint env caller (do found ← Clients.all_clients env; pure (map to_item found))

  -- `POST /` of the admin router.
  unfoldable pub create_client : Caller → ClientWrite → App ClientItem
  create_client caller payload =
      admin_write env caller (valid payload)
        λ user. (do found ← Clients.create_client env (to_input payload); pure (to_item found))

  -- `PUT /{client_id}` of the admin router.
  unfoldable pub update_client : Caller → Uuid → ClientWrite → App ClientItem
  update_client caller client_id payload = admin_write env caller (valid payload) λ user. (do
    found ← Clients.update_client env client_id (to_input payload)
    pure (to_item found))

  -- `DELETE /{client_id}` of the admin router.
  unfoldable pub delete_client : Caller → Uuid → App (Unit {0})
  delete_client caller client_id =
      admin_write env caller true λ user. (Clients.delete_client env client_id)

  unfoldable pub serve_public : Caller → Public → App (Body ClientItem ClientItem)
  serve_public caller call_list_clients = list_clients caller >>= λ r. pure (items r)

  unfoldable pub serve_admin : Caller → Admin → App (Body ClientItem ClientItem)
  serve_admin caller (call_create_client payload) =
      create_client caller payload >>= λ r. pure (item r)
  serve_admin caller (call_update_client client_id payload) =
      update_client caller client_id payload >>= λ r. pure (item r)
  serve_admin caller (call_delete_client client_id) =
      delete_client caller client_id >>= λ r. pure no_content

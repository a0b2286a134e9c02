-- ===== src/Api/Technologies.antt =====
-- app/api/v1/technologies.py and app/schemas/technology.py: the payloads, the responses and the handlers.
use ch_tech_landing_page_bac.Base.{Bool, true, ◌&&◌, Option, List, map}
use ch_tech_landing_page_bac.Text.{Str}
use ch_tech_landing_page_bac.Domain.Time.{Time}
use ch_tech_landing_page_bac.Domain.ValueObjects.{make_image, make_url}
use ch_tech_landing_page_bac.Models.{Uuid}
use ch_tech_landing_page_bac.App.{App, ◌>>=◌, pure}
use ch_tech_landing_page_bac.App.Outside.{Env}
use ch_tech_landing_page_bac.Api.Http.{
  Caller, Body, items, item, no_content, public_endpoint, admin_write, at_most, every, is_ok,
  image_text, url_text,
}
use ch_tech_landing_page_bac.Domain.Entities.{Technology}
use ch_tech_landing_page_bac.Content.Technologies
use ch_tech_landing_page_bac.Content.Technologies.{TechnologyInput}

pub record TechnologyItem : Type 0 where
  pub id : Uuid
  pub name : Str
  pub category : Option Str
  pub icon : Option Str
  pub official_url : Option Str
  pub created_at : Time
  pub updated_at : Time

-- A payload whose fields have their types, which Pydantic checks before it runs the rest.
pub record TechnologyWrite : Type 0 where
  pub name : Str
  pub category : Option Str
  pub icon : Option Str
  pub official_url : Option Str

-- `_to_item`
unfoldable pub to_item : Technology → TechnologyItem
to_item technology = record {
  id = technology.id;
  name = technology.name;
  category = technology.category;
  icon = image_text technology.icon;
  official_url = url_text technology.official_url;
  created_at = technology.created_at;
  updated_at = technology.updated_at;
}

-- `_to_input`
unfoldable pub to_input : TechnologyWrite → TechnologyInput
to_input payload = record {
  name = payload.name;
  category = payload.category;
  icon = payload.icon;
  official_url = payload.official_url;
}

-- The routes of the public router.
pub data Public : Type 0 where
  call_list_technologies : Option Str → Public
  call_get_technology : Uuid → Public

-- The routes of the admin router.
pub data Admin : Type 0 where
  call_create_technology : TechnologyWrite → Admin
  call_update_technology : Uuid → TechnologyWrite → Admin
  call_delete_technology : Uuid → Admin

module _ (env : Env) where
  -- The bounds and validators of `TechnologyWrite`.
  unfoldable pub valid : TechnologyWrite → Bool
  valid payload =
      at_most 100 payload.name
      && (every (at_most 100) payload.category
          && (every (λ s. is_ok (make_image env.unicode s)) payload.icon
              && (every (λ s. is_ok (make_url env.unicode s)) payload.official_url)))

  -- `GET /` of the public router.
  unfoldable pub list_technologies : Caller → Option Str → App (List TechnologyItem)
  list_technologies caller category = public_endpoint env caller (do
    found ← Technologies.all_technologies env (record { category = category })
    pure (map to_item found))

  -- `GET /{technology_id}` of the public router.
  unfoldable pub get_technology : Caller → Uuid → App TechnologyItem
  get_technology caller technology_id =
      public_endpoint env caller
        (do found ← Technologies.get_technology_by_id env technology_id; pure (to_item found))

  -- `POST /` of the admin router.
  unfoldable pub create_technology : Caller → TechnologyWrite → App TechnologyItem
  create_technology caller payload = admin_write env caller (valid payload) λ user. (do
    found ← Technologies.create_technology env (to_input payload)
    pure (to_item found))

  -- `PUT /{technology_id}` of the admin router.
  unfoldable pub update_technology : Caller → Uuid → TechnologyWrite → App TechnologyItem
  update_technology caller technology_id payload = admin_write env caller (valid payload) λ user.
      (do
        found ← Technologies.update_technology env technology_id (to_input payload)
        pure (to_item found))

  -- `DELETE /{technology_id}` of the admin router.
  unfoldable pub delete_technology : Caller → Uuid → App (Unit {0})
  delete_technology caller technology_id =
      admin_write env caller true λ user. (Technologies.delete_technology env technology_id)

  unfoldable pub serve_public : Caller → Public → App (Body TechnologyItem TechnologyItem)
  serve_public caller (call_list_technologies category) =
      list_technologies caller category >>= λ r. pure (items r)
  serve_public caller (call_get_technology technology_id) =
      get_technology caller technology_id >>= λ r. pure (item r)

  unfoldable pub serve_admin : Caller → Admin → App (Body TechnologyItem TechnologyItem)
  serve_admin caller (call_create_technology payload) =
      create_technology caller payload >>= λ r. pure (item r)
  serve_admin caller (call_update_technology technology_id payload) =
      update_technology caller technology_id payload >>= λ r. pure (item r)
  serve_admin caller (call_delete_technology technology_id) =
      delete_technology caller technology_id >>= λ r. pure no_content

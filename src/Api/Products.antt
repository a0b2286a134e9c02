-- ===== src/Api/Products.antt =====
-- app/api/v1/products.py and app/schemas/product.py: the payloads, the responses and the handlers.
use ch_tech_landing_page_bac.Base.{Bool, true, ◌&&◌, Option, List, map}
use ch_tech_landing_page_bac.Text.{Str}
use ch_tech_landing_page_bac.Domain.Time.{Time}
use ch_tech_landing_page_bac.Domain.Enums.{ProductStatus, product_status_value}
use ch_tech_landing_page_bac.Domain.ValueObjects.{make_image, make_url}
use ch_tech_landing_page_bac.Models.{Uuid}
use ch_tech_landing_page_bac.App.{App, ◌>>=◌, pure}
use ch_tech_landing_page_bac.App.Outside.{Env}
use ch_tech_landing_page_bac.Api.Http.{
  Caller, Body, items, item, no_content, public_endpoint, admin_write, at_most, every, is_ok,
  image_text, url_text,
}
use ch_tech_landing_page_bac.Domain.Entities.{Product}
use ch_tech_landing_page_bac.Content.Products
use ch_tech_landing_page_bac.Content.Products.{ProductInput}

pub record ProductItem : Type 0 where
  pub id : Uuid
  pub slug : Str
  pub name : Str
  pub short_description : Option Str
  pub full_description : Option Str
  pub status : Str
  pub url : Option Str
  pub logo : Option Str
  pub featured : Bool
  pub created_at : Time
  pub updated_at : Time

-- A payload whose fields have their types, which Pydantic checks before it runs the rest.
pub record ProductWrite : Type 0 where
  pub slug : Str
  pub name : Str
  pub short_description : Option Str
  pub full_description : Option Str
  pub status : ProductStatus
  pub url : Option Str
  pub logo : Option Str
  pub featured : Bool

-- `_to_item`
unfoldable pub to_item : Product → ProductItem
to_item product = record {
  id = product.id;
  slug = product.slug.value;
  name = product.name;
  short_description = product.short_description;
  full_description = product.full_description;
  status = product_status_value product.status;
  url = url_text product.url;
  logo = image_text product.logo;
  featured = product.featured;
  created_at = product.created_at;
  updated_at = product.updated_at;
}

-- `_to_input`
unfoldable pub to_input : ProductWrite → ProductInput
to_input payload = record {
  slug = payload.slug;
  name = payload.name;
  short_description = payload.short_description;
  full_description = payload.full_description;
  status = payload.status;
  url = payload.url;
  logo = payload.logo;
  featured = payload.featured;
}

-- The routes of the public router.
pub data Public : Type 0 where
  call_list_products : Public
  call_get_product : Str → Public

-- The routes of the admin router.
pub data Admin : Type 0 where
  call_create_product : ProductWrite → Admin
  call_update_product : Uuid → ProductWrite → Admin
  call_delete_product : Uuid → Admin

module _ (env : Env) where
  -- The bounds and validators of `ProductWrite`.
  unfoldable pub valid : ProductWrite → Bool
  valid payload =
      at_most 150 payload.slug
      && (at_most 255 payload.name
          && (every (at_most 500) payload.short_description
              && (every (at_most 20_000) payload.full_description
                  && (every (λ s. is_ok (make_url env.unicode s)) payload.url
                      && (every (λ s. is_ok (make_image env.unicode s)) payload.logo)))))

  -- `GET /` of the public router.
  unfoldable pub list_products : Caller → App (List ProductItem)
  list_products caller =
      public_endpoint env caller (do found ← Products.all_products env; pure (map to_item found))

  -- `GET /{slug}` of the public router.
  unfoldable pub get_product : Caller → Str → App ProductItem
  get_product caller slug =
      public_endpoint env caller
        (do found ← Products.get_product_by_slug env slug; pure (to_item found))

  -- `POST /` of the admin router.
  unfoldable pub create_product : Caller → ProductWrite → App ProductItem
  create_product caller payload =
      admin_write env caller (valid payload)
        λ user. (do found ← Products.create_product env (to_input payload); pure (to_item found))

  -- `PUT /{product_id}` of the admin router.
  unfoldable pub update_product : Caller → Uuid → ProductWrite → App ProductItem
  update_product caller product_id payload = admin_write env caller (valid payload) λ user. (do
    found ← Products.update_product env product_id (to_input payload)
    pure (to_item found))

  -- `DELETE /{product_id}` of the admin router.
  unfoldable pub delete_product : Caller → Uuid → App (Unit {0})
  delete_product caller product_id =
      admin_write env caller true λ user. (Products.delete_product env product_id)

  unfoldable pub serve_public : Caller → Public → App (Body ProductItem ProductItem)
  serve_public caller call_list_products = list_products caller >>= λ r. pure (items r)
  serve_public caller (call_get_product slug) = get_product caller slug >>= λ r. pure (item r)

  unfoldable pub serve_admin : Caller → Admin → App (Body ProductItem ProductItem)
  serve_admin caller (call_create_product payload) =
      create_product caller payload >>= λ r. pure (item r)
  serve_admin caller (call_update_product product_id payload) =
      update_product caller product_id payload >>= λ r. pure (item r)
  serve_admin caller (call_delete_product product_id) =
      delete_product caller product_id >>= λ r. pure no_content

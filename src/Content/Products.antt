-- ===== src/Content/Products.antt =====
-- Products: app/infrastructure/repositories/product_repository.py and
-- app/application/use_cases/products.py.
use ch_tech_landing_page_bac.Base.{Bool, true, false, Option, none, some, List, ◌∷◌, ◌==◌}
use ch_tech_landing_page_bac.Base.Keys.{update_where, delete_where}
use ch_tech_landing_page_bac.Errors
use ch_tech_landing_page_bac.Errors.{
  Result, ok, err, optional, traverse, resource_not_found, conflict,
}
use ch_tech_landing_page_bac.Text.{Str}
use ch_tech_landing_page_bac.Domain.Entities.{Product}
use ch_tech_landing_page_bac.Domain.ValueObjects.{make_slug, make_url, make_image}
use ch_tech_landing_page_bac.Models.{Uuid, ProductModel}
use ch_tech_landing_page_bac.App.{
  App, ◌>>=◌, ◌>>◌, pure, lift, get_db, or_raise, now, uuid4, commit, integrity_as,
}
use ch_tech_landing_page_bac.App.Outside.{Env}
use ch_tech_landing_page_bac.App.Rows.{if_text, updated_time, unless_raise}
use ch_tech_landing_page_bac.Domain.Enums.{ProductStatus, product_status, product_status_value}

pub record ProductInput : Type 0 where
  pub slug : Str
  pub name : Str
  pub short_description : Option Str
  pub full_description : Option Str
  pub status : ProductStatus
  pub url : Option Str
  pub logo : Option Str
  pub featured : Bool

abbrev pub product_id_is : Uuid → ProductModel → Bool
product_id_is k m = m.id == k

-- The assignments of `update`.
abbrev pub assigned : ProductInput → ProductModel → ProductModel
assigned input model = record model {
  slug = input.slug;
  name = input.name;
  short_description = input.short_description;
  full_description = input.full_description;
  status = product_status_value input.status;
  url = input.url;
  logo = input.logo;
  featured = input.featured;
}

module _ (env : Env) where
  -- `_to_entity`
  unfoldable pub to_product_entity : ProductModel → Result Product
  to_product_entity model = Errors.◌>>=◌ (make_slug model.slug) λ slug.
      Errors.◌>>=◌ (product_status model.status) λ status.
        Errors.◌>>=◌ (if_text (make_url env.unicode) model.url) λ url.
          Errors.◌>>=◌ (if_text (make_image env.unicode) model.logo) λ logo. ok (record {
            id = model.id;
            slug = slug;
            name = model.name;
            short_description = model.short_description;
            full_description = model.full_description;
            status = status;
            url = url;
            logo = logo;
            featured = model.featured;
            created_at = model.created_at;
            updated_at = model.updated_at;
          })

  -- `list`
  unfoldable pub list_products : App (List Product)
  unfolding to_product_entity
  list_products = do
    db ← get_db
    lift (
        traverse to_product_entity (env.page (λ a b. env.text_le a.name b.name) 0 none db.products))

  -- `get_by_slug`
  unfoldable pub find_product_by_slug : Str → App (Option Product)
  unfolding to_product_entity
  find_product_by_slug slug = do
    db ← get_db
    found ← lift (env.select_one (λ m. env.same_text m.slug slug) db.products)
    lift (optional to_product_entity found)

  -- `create`
  unfoldable pub insert_product : ProductInput → App Product
  unfolding to_product_entity
  insert_product input = do
    k ← uuid4 env
    created ← now env
    updated ← now env
    db ← get_db
    let model : ProductModel = record {
      id = k;
      slug = input.slug;
      name = input.name;
      short_description = input.short_description;
      full_description = input.full_description;
      status = product_status_value input.status;
      url = input.url;
      logo = input.logo;
      featured = input.featured;
      created_at = created;
      updated_at = updated;
    }
    let after = record db { products = model ∷ db.products }
    integrity_as (commit env after) (conflict "A product with this slug already exists")
    lift (to_product_entity model)

  unfoldable pub change_product : Option ProductModel → ProductInput → App (Option Product)
  unfolding to_product_entity
  change_product none input = pure none
  change_product (some model) input = do
    stamp ← updated_time env model (assigned input model) model.updated_at
    db ← get_db
    let changed : ProductModel = record (assigned input model) { updated_at = stamp }
    let after = record db {
      products = update_where (product_id_is model.id) (λ _. changed) db.products;
    }
    integrity_as (commit env after) (conflict "A product with this slug already exists")
    lift (optional to_product_entity (some changed))

  -- `update`
  unfoldable pub save_product : Uuid → ProductInput → App (Option Product)
  unfolding change_product
  save_product k input = do
    db ← get_db
    found ← lift (env.select_one (product_id_is k) db.products)
    change_product found input

  unfoldable pub drop_product : Option ProductModel → App Bool
  drop_product none = pure false
  drop_product (some model) = do
    db ← get_db
    let after = record db { products = delete_where (product_id_is model.id) db.products }
    commit env after
    pure true

  -- `delete`
  unfoldable pub remove_product : Uuid → App Bool
  unfolding drop_product
  remove_product k = do
    db ← get_db
    found ← lift (env.select_one (product_id_is k) db.products)
    drop_product found

  -- `GetProductBySlug.execute`
  unfoldable pub get_product_by_slug : Str → App Product
  get_product_by_slug slug = do
    found ← find_product_by_slug slug
    or_raise found (resource_not_found "Product not found")

  -- `ListProducts.execute`
  unfoldable pub all_products : App (List Product)
  all_products = list_products

  -- `CreateProduct.execute`
  unfoldable pub create_product : ProductInput → App Product
  create_product input = insert_product input

  -- `UpdateProduct.execute`
  unfoldable pub update_product : Uuid → ProductInput → App Product
  update_product k input = do
    found ← save_product k input
    or_raise found (resource_not_found "Product not found")

  -- `DeleteProduct.execute`
  unfoldable pub delete_product : Uuid → App (Unit {0})
  delete_product k = do
    deleted ← remove_product k
    unless_raise deleted (resource_not_found "Product not found")

-- ===== src/Content/Services.antt =====
-- Services: app/infrastructure/repositories/service_repository.py and
-- app/application/use_cases/services.py. `service_line_id` is never assigned.
use ch_tech_landing_page_bac.Base.{
  Bool, true, false, ◌&&◌, ◌||◌, not, Option, none, some, List, ◌∷◌, ◌==◌, filter,
}
use ch_tech_landing_page_bac.Base.Keys.{update_where, delete_where}
use ch_tech_landing_page_bac.Errors
use ch_tech_landing_page_bac.Errors.{
  Result, ok, err, optional, traverse, resource_not_found, conflict,
}
use ch_tech_landing_page_bac.Text.{Str}
use ch_tech_landing_page_bac.Domain.Entities.{Service}
use ch_tech_landing_page_bac.Domain.ValueObjects.{make_slug}
use ch_tech_landing_page_bac.Models.{Uuid, ServiceModel}
use ch_tech_landing_page_bac.App.{
  App, ◌>>=◌, ◌>>◌, pure, lift, get_db, or_raise, now, uuid4, commit, integrity_as,
}
use ch_tech_landing_page_bac.App.Outside.{Env}
use ch_tech_landing_page_bac.App.Rows.{updated_time, unless_raise}

pub record ServiceInput : Type 0 where
  pub slug : Str
  pub title : Str
  pub description : Option Str
  pub featured : Bool
  pub active : Bool

abbrev pub service_id_is : Uuid → ServiceModel → Bool
service_id_is k m = m.id == k

-- The assignments of `update`.
abbrev pub assigned : ServiceInput → ServiceModel → ServiceModel
assigned input model = record model {
  slug = input.slug;
  title = input.title;
  description = input.description;
  featured = input.featured;
  active = input.active;
}

module _ (env : Env) where
  -- `_to_entity`
  unfoldable pub to_service_entity : ServiceModel → Result Service
  to_service_entity model = Errors.◌>>=◌ (make_slug model.slug) λ slug. ok (record {
    id = model.id;
    service_line_id = model.service_line_id;
    title = model.title;
    slug = slug;
    description = model.description;
    featured = model.featured;
    active = model.active;
    created_at = model.created_at;
    updated_at = model.updated_at;
  })

  abbrev pub offered : Bool → ServiceModel → Bool
  offered active_only m = not active_only || m.active

  -- `list`
  unfoldable pub list_services : Bool → App (List Service)
  unfolding to_service_entity
  list_services active_only = do
    db ← get_db
    lift (
        traverse to_service_entity (
          env.page (λ a b. env.text_le a.title b.title) 0 none
            (filter (offered active_only) db.services)))

  -- `get_by_slug`
  unfoldable pub find_service_by_slug : Str → Bool → App (Option Service)
  unfolding to_service_entity
  find_service_by_slug slug active_only = do
    db ← get_db
    found ←
        lift (env.select_one (λ m. env.same_text m.slug slug && offered active_only m) db.services)
    lift (optional to_service_entity found)

  -- `get_by_id`
  unfoldable pub find_service : Uuid → App (Option Service)
  unfolding to_service_entity
  find_service k = do
    db ← get_db
    found ← lift (env.select_one (service_id_is k) db.services)
    lift (optional to_service_entity found)

  -- `create`
  unfoldable pub insert_service : ServiceInput → App Service
  unfolding to_service_entity
  insert_service input = do
    k ← uuid4 env
    created ← now env
    updated ← now env
    db ← get_db
    let model : ServiceModel = record {
      id = k;
      service_line_id = none;
      slug = input.slug;
      title = input.title;
      description = input.description;
      featured = input.featured;
      active = input.active;
      created_at = created;
      updated_at = updated;
    }
    let after = record db { services = model ∷ db.services }
    integrity_as (commit env after) (conflict "A service with this slug already exists")
    lift (to_service_entity model)

  unfoldable pub change_service : Option ServiceModel → ServiceInput → App (Option Service)
  unfolding to_service_entity
  change_service none input = pure none
  change_service (some model) input = do
    stamp ← updated_time env model (assigned input model) model.updated_at
    db ← get_db
    let changed : ServiceModel = record (assigned input model) { updated_at = stamp }
    let after = record db {
      services = update_where (service_id_is model.id) (λ _. changed) db.services;
    }
    integrity_as (commit env after) (conflict "A service with this slug already exists")
    lift (optional to_service_entity (some changed))

  -- `update`
  unfoldable pub save_service : Uuid → ServiceInput → App (Option Service)
  unfolding change_service
  save_service k input = do
    db ← get_db
    found ← lift (env.select_one (service_id_is k) db.services)
    change_service found input

  unfoldable pub drop_service : Option ServiceModel → App Bool
  drop_service none = pure false
  drop_service (some model) = do
    db ← get_db
    let after = record db { services = delete_where (service_id_is model.id) db.services }
    commit env after
    pure true

  -- `delete`
  unfoldable pub remove_service : Uuid → App Bool
  unfolding drop_service
  remove_service k = do
    db ← get_db
    found ← lift (env.select_one (service_id_is k) db.services)
    drop_service found

  -- `ListServices.execute`
  unfoldable pub all_services : Bool → App (List Service)
  all_services active_only = list_services active_only

  -- `GetServiceBySlug.execute`
  unfoldable pub get_service_by_slug : Str → Bool → App Service
  get_service_by_slug slug active_only = do
    found ← find_service_by_slug slug active_only
    or_raise found (resource_not_found "Service not found")

  -- `GetServiceById.execute`
  unfoldable pub get_service_by_id : Uuid → App Service
  get_service_by_id k = do
    found ← find_service k
    or_raise found (resource_not_found "Service not found")

  -- `CreateService.execute`
  unfoldable pub create_service : ServiceInput → App Service
  create_service input = insert_service input

  -- `UpdateService.execute`
  unfoldable pub update_service : Uuid → ServiceInput → App Service
  update_service k input = do
    found ← save_service k input
    or_raise found (resource_not_found "Service not found")

  -- `DeleteService.execute`
  unfoldable pub delete_service : Uuid → App (Unit {0})
  delete_service k = do
    deleted ← remove_service k
    unless_raise deleted (resource_not_found "Service not found")

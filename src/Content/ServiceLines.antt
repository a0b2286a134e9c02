-- ===== src/Content/ServiceLines.antt =====
-- Service lines: app/infrastructure/repositories/service_line_repository.py and
-- app/application/use_cases/service_lines.py.
use ch_tech_landing_page_bac.Base.{Bool, true, false, Option, none, some, List, ◌∷◌, ◌==◌}
use ch_tech_landing_page_bac.Base.Int.{ℤ, leb_ℤ}
use ch_tech_landing_page_bac.Base.Keys.{update_where, delete_where}
use ch_tech_landing_page_bac.Errors
use ch_tech_landing_page_bac.Errors.{
  Result, ok, err, optional, traverse, resource_not_found, conflict,
}
use ch_tech_landing_page_bac.Text.{Str}
use ch_tech_landing_page_bac.Domain.Entities.{ServiceLine}
use ch_tech_landing_page_bac.Domain.ValueObjects.{make_slug, make_image}
use ch_tech_landing_page_bac.Models.{Uuid, ServiceLineModel}
use ch_tech_landing_page_bac.App.{
  App, ◌>>=◌, ◌>>◌, pure, lift, get_db, or_raise, now, uuid4, commit, integrity_as,
}
use ch_tech_landing_page_bac.App.Outside.{Env}
use ch_tech_landing_page_bac.App.Rows.{if_text, updated_time, unless_raise}

pub record ServiceLineInput : Type 0 where
  pub slug : Str
  pub name : Str
  pub description : Option Str
  pub icon : Option Str
  pub display_order : ℤ

abbrev pub service_line_id_is : Uuid → ServiceLineModel → Bool
service_line_id_is k m = m.id == k

-- The assignments of `update`.
abbrev pub assigned : ServiceLineInput → ServiceLineModel → ServiceLineModel
assigned input model = record model {
  slug = input.slug;
  name = input.name;
  description = input.description;
  icon = input.icon;
  display_order = input.display_order;
}

module _ (env : Env) where
  -- `_to_entity`
  unfoldable pub to_service_line_entity : ServiceLineModel → Result ServiceLine
  to_service_line_entity model = Errors.◌>>=◌ (make_slug model.slug) λ slug.
      Errors.◌>>=◌ (if_text (make_image env.unicode) model.icon) λ icon. ok (record {
        id = model.id;
        slug = slug;
        name = model.name;
        description = model.description;
        icon = icon;
        display_order = model.display_order;
        created_at = model.created_at;
        updated_at = model.updated_at;
      })

  -- `list`
  unfoldable pub list_service_lines : App (List ServiceLine)
  unfolding to_service_line_entity
  list_service_lines = do
    db ← get_db
    lift (
        traverse to_service_line_entity
          (env.page (λ a b. leb_ℤ a.display_order b.display_order) 0 none db.service_lines))

  -- `get_by_slug`
  unfoldable pub find_service_line_by_slug : Str → App (Option ServiceLine)
  unfolding to_service_line_entity
  find_service_line_by_slug slug = do
    db ← get_db
    found ← lift (env.select_one (λ m. env.same_text m.slug slug) db.service_lines)
    lift (optional to_service_line_entity found)

  -- `create`
  unfoldable pub insert_service_line : ServiceLineInput → App ServiceLine
  unfolding to_service_line_entity
  insert_service_line input = do
    k ← uuid4 env
    created ← now env
    updated ← now env
    db ← get_db
    let model : ServiceLineModel = record {
      id = k;
      slug = input.slug;
      name = input.name;
      description = input.description;
      icon = input.icon;
      display_order = input.display_order;
      created_at = created;
      updated_at = updated;
    }
    let after = record db { service_lines = model ∷ db.service_lines }
    integrity_as (commit env after) (conflict "A service line with this slug already exists")
    lift (to_service_line_entity model)

  unfoldable pub change_service_line :
      Option ServiceLineModel → ServiceLineInput → App (Option ServiceLine)
  unfolding to_service_line_entity
  change_service_line none input = pure none
  change_service_line (some model) input = do
    stamp ← updated_time env model (assigned input model) model.updated_at
    db ← get_db
    let changed : ServiceLineModel = record (assigned input model) { updated_at = stamp }
    let after = record db {
      service_lines = update_where (service_line_id_is model.id) (λ _. changed) db.service_lines;
    }
    integrity_as (commit env after) (conflict "A service line with this slug already exists")
    lift (optional to_service_line_entity (some changed))

  -- `update`
  unfoldable pub save_service_line : Uuid → ServiceLineInput → App (Option ServiceLine)
  unfolding change_service_line
  save_service_line k input = do
    db ← get_db
    found ← lift (env.select_one (service_line_id_is k) db.service_lines)
    change_service_line found input

  unfoldable pub drop_service_line : Option ServiceLineModel → App Bool
  drop_service_line none = pure false
  drop_service_line (some model) = do
    db ← get_db
    let after = record db {
      service_lines = delete_where (service_line_id_is model.id) db.service_lines;
    }
    integrity_as (commit env after)
        (conflict "Service line is referenced by an existing service or contact request")
    pure true

  -- `delete`
  unfoldable pub remove_service_line : Uuid → App Bool
  unfolding drop_service_line
  remove_service_line k = do
    db ← get_db
    found ← lift (env.select_one (service_line_id_is k) db.service_lines)
    drop_service_line found

  -- `GetServiceLineBySlug.execute`
  unfoldable pub get_service_line_by_slug : Str → App ServiceLine
  get_service_line_by_slug slug = do
    found ← find_service_line_by_slug slug
    or_raise found (resource_not_found "Service line not found")

  -- `ListServiceLines.execute`
  unfoldable pub all_service_lines : App (List ServiceLine)
  all_service_lines = list_service_lines

  -- `CreateServiceLine.execute`
  unfoldable pub create_service_line : ServiceLineInput → App ServiceLine
  create_service_line input = insert_service_line input

  -- `UpdateServiceLine.execute`
  unfoldable pub update_service_line : Uuid → ServiceLineInput → App ServiceLine
  update_service_line k input = do
    found ← save_service_line k input
    or_raise found (resource_not_found "Service line not found")

  -- `DeleteServiceLine.execute`
  unfoldable pub delete_service_line : Uuid → App (Unit {0})
  delete_service_line k = do
    deleted ← remove_service_line k
    unless_raise deleted (resource_not_found "Service line not found")

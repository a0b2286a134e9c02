-- ===== src/Content/Technologies.antt =====
-- Technologies: app/infrastructure/repositories/technology_repository.py and
-- app/application/use_cases/technologies.py, and what the repositories of projects and articles
-- share to read and to link them.
use ch_tech_landing_page_bac.Base.{
  Bool, true, false, ◌&&◌, Option, none, some, List, [], ◌∷◌, ◌++◌, map, ◌==◌, any, filter,
}
use ch_tech_landing_page_bac.Base.Keys.{update_where, delete_where}
use ch_tech_landing_page_bac.Errors
use ch_tech_landing_page_bac.Errors.{Result, ok, optional, resource_not_found, traverse}
use ch_tech_landing_page_bac.Text.{Str}
use ch_tech_landing_page_bac.Domain.Entities.{Technology}
use ch_tech_landing_page_bac.Domain.ValueObjects.{make_image, make_url}
use ch_tech_landing_page_bac.Models.{Uuid, TechnologyModel, Association, Db}
use ch_tech_landing_page_bac.App.{
  App, ◌>>=◌, ◌>>◌, pure, lift, get_db, or_raise, now, uuid4, commit,
}
use ch_tech_landing_page_bac.App.Outside.{Env}
use ch_tech_landing_page_bac.App.Rows.{column_is, if_text, updated_time, unless_raise}

-- `TechnologyFilters` and `TechnologyInput` (app/application/ports/technology_repository.py).
pub record TechnologyFilters : Type 0 where
  pub category : Option Str

pub record TechnologyInput : Type 0 where
  pub name : Str
  pub category : Option Str
  pub icon : Option Str
  pub official_url : Option Str

abbrev pub tech_id_is : Uuid → TechnologyModel → Bool
tech_id_is k m = m.id == k

-- `TechnologyModel.id.in_(ids)`
abbrev pub id_among : List Uuid → TechnologyModel → Bool
id_among ids m = any (λ j. m.id == j) ids

-- A link of the owner `k` with the technology.
abbrev pub linked : List Association → Uuid → TechnologyModel → Bool
linked pairs k m = any (λ p. p.owner_id == k && p.technology_id == m.id) pairs

abbrev pub link : Uuid → TechnologyModel → Association
link k m = record { owner_id = k; technology_id = m.id }

abbrev pub owner_is : Uuid → Association → Bool
owner_is k p = p.owner_id == k

-- The association rows once the owner has just these technologies.
abbrev pub relink : Uuid → List TechnologyModel → List Association → List Association
relink k techs pairs = map (link k) techs ++ delete_where (owner_is k) pairs

module _ (env : Env) where
  -- `_to_technology_entity` of the projects and articles, `_to_entity` of the technologies.
  unfoldable pub to_technology_entity : TechnologyModel → Result Technology
  to_technology_entity model = Errors.◌>>=◌ (if_text (make_image env.unicode) model.icon) λ icon.
      Errors.◌>>=◌ (if_text (make_url env.unicode) model.official_url) λ official_url. ok (record {
        id = model.id;
        name = model.name;
        category = model.category;
        icon = icon;
        official_url = official_url;
        created_at = model.created_at;
        updated_at = model.updated_at;
      })

  -- `_get_technologies`
  unfoldable pub get_technologies : List Uuid → Db → List TechnologyModel
  get_technologies [] db = []
  get_technologies (k ∷ ks) db = env.select (id_among (k ∷ ks)) db.technologies

  -- `model.technologies`, as `selectinload` and `refresh` load it.
  unfoldable pub load_technologies : List Association → Uuid → Db → List TechnologyModel
  load_technologies pairs k db = env.select (linked pairs k) db.technologies

  abbrev category_is : Option Str → TechnologyModel → Bool
  category_is none m = true
  category_is (some c) m = column_is env m.category c

  -- `list`
  unfoldable pub list_technologies : TechnologyFilters → App (List Technology)
  unfolding to_technology_entity
  list_technologies filters = do
    db ← get_db
    let rows = filter (category_is filters.category) db.technologies
    lift (traverse to_technology_entity (env.page (λ a b. env.text_le a.name b.name) 0 none rows))

  -- `get_by_id`
  unfoldable pub find_technology : Uuid → App (Option Technology)
  unfolding to_technology_entity
  find_technology k = do
    db ← get_db
    found ← lift (env.select_one (tech_id_is k) db.technologies)
    lift (optional to_technology_entity found)

  -- `create`: a name that is taken raises `IntegrityError`, which is not caught.
  unfoldable pub insert_technology : TechnologyInput → App Technology
  unfolding to_technology_entity
  insert_technology input = do
    k ← uuid4 env
    created ← now env
    updated ← now env
    db ← get_db
    let model : TechnologyModel = record {
      id = k;
      name = input.name;
      category = input.category;
      icon = input.icon;
      official_url = input.official_url;
      created_at = created;
      updated_at = updated;
    }
    commit env (record db { technologies = model ∷ db.technologies })
    lift (to_technology_entity model)

  abbrev assigned : TechnologyInput → TechnologyModel → TechnologyModel
  assigned input model = record model {
    name = input.name;
    category = input.category;
    icon = input.icon;
    official_url = input.official_url;
  }

  unfoldable pub change_technology :
      Option TechnologyModel → TechnologyInput → App (Option Technology)
  unfolding to_technology_entity
  change_technology none input = pure none
  change_technology (some model) input = do
    stamp ← updated_time env model (assigned input model) model.updated_at
    db ← get_db
    let changed : TechnologyModel = record (assigned input model) { updated_at = stamp }
    commit env (record db {
      technologies = update_where (tech_id_is model.id) (λ _. changed) db.technologies;
    })
    lift (optional to_technology_entity (some changed))

  -- `update`
  unfoldable pub save_technology : Uuid → TechnologyInput → App (Option Technology)
  unfolding change_technology
  save_technology k input = do
    db ← get_db
    found ← lift (env.select_one (tech_id_is k) db.technologies)
    change_technology found input

  unfoldable pub drop_technology : Option TechnologyModel → App Bool
  drop_technology none = pure false
  drop_technology (some model) = do
    db ← get_db
    commit env (record db {
      technologies = delete_where (tech_id_is model.id) db.technologies;
      project_technologies =
          delete_where (λ p. p.technology_id == model.id) db.project_technologies;
      article_technologies =
          delete_where (λ p. p.technology_id == model.id) db.article_technologies;
    })
    pure true

  -- `delete`: the unit of work deletes the rows of both association tables with the technology.
  unfoldable pub remove_technology : Uuid → App Bool
  unfolding drop_technology
  remove_technology k = do
    db ← get_db
    found ← lift (env.select_one (tech_id_is k) db.technologies)
    drop_technology found

  -- `ListTechnologies.execute`
  unfoldable pub all_technologies : TechnologyFilters → App (List Technology)
  all_technologies filters = list_technologies filters

  -- `GetTechnologyById.execute`
  unfoldable pub get_technology_by_id : Uuid → App Technology
  get_technology_by_id k = do
    found ← find_technology k
    or_raise found (resource_not_found "Technology not found")

  -- `CreateTechnology.execute`
  unfoldable pub create_technology : TechnologyInput → App Technology
  create_technology input = insert_technology input

  -- `UpdateTechnology.execute`
  unfoldable pub update_technology : Uuid → TechnologyInput → App Technology
  update_technology k input = do
    found ← save_technology k input
    or_raise found (resource_not_found "Technology not found")

  -- `DeleteTechnology.execute`
  unfoldable pub delete_technology : Uuid → App (Unit {0})
  delete_technology k = do
    deleted ← remove_technology k
    unless_raise deleted (resource_not_found "Technology not found")

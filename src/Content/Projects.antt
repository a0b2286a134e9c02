-- ===== src/Content/Projects.antt =====
-- Projects: app/infrastructure/repositories/project_repository.py and
-- app/application/use_cases/projects.py.
pub mod Listing
pub mod Reading
pub mod Changes
pub mod Privacy
pub mod RoundTrip
pub mod Writes
pub mod Pages
use ch_tech_landing_page_bac.Base.{
  ℕ, ◌-◌, ◌*◌, Bool, true, false, ◌&&◌, ◌||◌, not, Option, none, some, List, [], ◌∷◌, ◌++◌, map,
  ◌==◌, any, filter, leb, if◌then◌else◌,
}
use ch_tech_landing_page_bac.Base.Keys.{update_where, delete_where}
use ch_tech_landing_page_bac.Errors
use ch_tech_landing_page_bac.Errors.{
  Result, ok, err, optional, traverse, resource_not_found, conflict,
}
use ch_tech_landing_page_bac.Text.{Str, text, str_eq}
use ch_tech_landing_page_bac.Domain.Entities.{Project, Technology}
use ch_tech_landing_page_bac.Domain.Enums.{
  ProjectStatus, Visibility, project_status, visibility, project_status_value, visibility_value,
}
use ch_tech_landing_page_bac.Domain.ValueObjects.{make_slug, make_url, make_image}
use ch_tech_landing_page_bac.Models.{Uuid, Date, ProjectModel, TechnologyModel, Db}
use ch_tech_landing_page_bac.App.{
  App, ◌>>=◌, ◌>>◌, pure, lift, get_db, or_raise, raise_if, now, uuid4, commit, integrity_as,
}
use ch_tech_landing_page_bac.App.Outside.{Env}
use ch_tech_landing_page_bac.App.Rows.{if_text, updated_time, unless_raise, autoflush}
use ch_tech_landing_page_bac.Content.Technologies.{
  to_technology_entity, get_technologies, load_technologies, relink, owner_is,
}

-- `ProjectInput` and `ProjectWithTechnologies` (app/application/ports/project_repository.py).
pub record ProjectInput : Type 0 where
  pub slug : Str
  pub title : Str
  pub short_description : Option Str
  pub full_description : Option Str
  pub status : ProjectStatus
  pub visibility : Visibility
  pub featured : Bool
  pub started_at : Option Date
  pub finished_at : Option Date
  pub technology_ids : List Uuid
  pub repository_url : Option Str
  pub live_demo_url : Option Str
  pub cover_image : Option Str

pub record ProjectWithTechnologies : Type 0 where
  pub project : Project
  pub technologies : List Technology

abbrev pub project_id_is : Uuid → ProjectModel → Bool
project_id_is k m = m.id == k

-- The assignments of `update`; `create` leaves `client_id` at its default, NULL.
abbrev pub assigned : ProjectInput → ProjectModel → ProjectModel
assigned input model = record model {
  slug = input.slug;
  title = input.title;
  short_description = input.short_description;
  full_description = input.full_description;
  repository_url = input.repository_url;
  live_demo_url = input.live_demo_url;
  cover_image = input.cover_image;
  status = project_status_value input.status;
  visibility = visibility_value input.visibility;
  featured = input.featured;
  started_at = input.started_at;
  finished_at = input.finished_at;
}

module _ (env : Env) where
  -- The entity of a row; a text that is no slug, URL or status raises `ValueError`.
  unfoldable pub to_project_entity : ProjectModel → Result Project
  to_project_entity model = Errors.◌>>=◌ (make_slug model.slug) λ slug.
      Errors.◌>>=◌ (if_text (make_url env.unicode) model.repository_url) λ repository_url.
        Errors.◌>>=◌ (if_text (make_url env.unicode) model.live_demo_url) λ live_demo_url.
          Errors.◌>>=◌ (if_text (make_image env.unicode) model.cover_image) λ cover_image.
            Errors.◌>>=◌ (project_status model.status) λ status.
              Errors.◌>>=◌ (visibility model.visibility) λ seen_by. ok (record {
                id = model.id;
                slug = slug;
                title = model.title;
                short_description = model.short_description;
                full_description = model.full_description;
                repository_url = repository_url;
                live_demo_url = live_demo_url;
                cover_image = cover_image;
                status = status;
                visibility = seen_by;
                featured = model.featured;
                client_id = model.client_id;
                started_at = model.started_at;
                finished_at = model.finished_at;
                created_at = model.created_at;
                updated_at = model.updated_at;
              })

  -- `_to_row`
  unfoldable pub to_row : Db → ProjectModel → Result ProjectWithTechnologies
  to_row db model = Errors.◌>>=◌ (to_project_entity model) λ project.
      Errors.◌>>=◌
        (traverse (to_technology_entity env)
          (load_technologies env db.project_technologies model.id db))
        λ technologies. ok (record { project = project; technologies = technologies })

  -- `visibility == "PUBLIC"`
  abbrev pub is_public : ProjectModel → Bool
  is_public m = env.same_text m.visibility (text "PUBLIC")

  abbrev pub slug_is : Str → Bool → ProjectModel → Bool
  slug_is slug public_only m = env.same_text m.slug slug && (not public_only || is_public m)

  -- `get_by_slug`
  unfoldable pub find_by_slug : Str → Bool → App (Option ProjectWithTechnologies)
  find_by_slug slug public_only = do
    db ← get_db
    found ← lift (env.select_one (slug_is slug public_only) db.projects)
    lift (optional (to_row db) found)

  -- `get_by_id`
  unfoldable pub find_by_id : Uuid → App (Option ProjectWithTechnologies)
  find_by_id k = do
    db ← get_db
    found ← lift (env.select_one (project_id_is k) db.projects)
    lift (optional (to_row db) found)

  -- `create`: the row is committed before it is read back as an entity.
  unfoldable pub insert_project : ProjectInput → App ProjectWithTechnologies
  insert_project input = do
    before ← get_db
    let technologies = get_technologies env input.technology_ids before
    k ← uuid4 env
    created ← now env
    updated ← now env
    let blank : ProjectModel = record {
      id = k;
      slug = [];
      title = [];
      short_description = none;
      full_description = none;
      repository_url = none;
      live_demo_url = none;
      cover_image = none;
      status = [];
      visibility = [];
      featured = false;
      started_at = none;
      finished_at = none;
      client_id = none;
      created_at = created;
      updated_at = updated;
    }
    let model = assigned input blank
    let after = record before {
      projects = model ∷ before.projects;
      project_technologies = relink k technologies before.project_technologies;
    }
    integrity_as (commit env after) (conflict "A project with this slug already exists")
    lift (to_row after model)

  unfoldable pub change_project :
      Option ProjectModel → ProjectInput → App (Option ProjectWithTechnologies)
  change_project none input = pure none
  change_project (some model) input = do
    before ← get_db
    stamp ← updated_time env model (assigned input model) model.updated_at
    let changed : ProjectModel = record (assigned input model) { updated_at = stamp }
    let projects = update_where (project_id_is model.id) (λ _. changed) before.projects
    autoflush env input.technology_ids (record before { projects = projects })
    let technologies = get_technologies env input.technology_ids before
    let after = record before {
      projects = projects;
      project_technologies = relink model.id technologies before.project_technologies;
    }
    integrity_as (commit env after) (conflict "A project with this slug already exists")
    lift (optional (to_row after) (some changed))

  -- `update`
  unfoldable pub save_project : Uuid → ProjectInput → App (Option ProjectWithTechnologies)
  unfolding change_project
  save_project k input = do
    db ← get_db
    found ← lift (env.select_one (project_id_is k) db.projects)
    change_project found input

  unfoldable pub drop_project : Option ProjectModel → App Bool
  drop_project none = pure false
  drop_project (some model) = do
    before ← get_db
    let after = record before {
      projects = delete_where (project_id_is model.id) before.projects;
      project_technologies = delete_where (owner_is model.id) before.project_technologies;
    }
    integrity_as (commit env after)
        (conflict "Project is referenced by an existing case study or testimonial")
    pure true

  -- `delete`
  unfoldable pub remove_project : Uuid → App Bool
  unfolding drop_project
  remove_project k = do
    db ← get_db
    found ← lift (env.select_one (project_id_is k) db.projects)
    drop_project found

  -- `GetProjectBySlug.execute`
  unfoldable pub get_project_by_slug : Str → Bool → App ProjectWithTechnologies
  get_project_by_slug slug public_only = do
    found ← find_by_slug slug public_only
    or_raise found (resource_not_found "Project not found")

  -- `GetProjectById.execute`
  unfoldable pub get_project_by_id : Uuid → App ProjectWithTechnologies
  get_project_by_id k = do
    found ← find_by_id k
    or_raise found (resource_not_found "Project not found")

  -- `CreateProject.execute`
  unfoldable pub create_project : ProjectInput → App ProjectWithTechnologies
  create_project input = insert_project input

  -- `UpdateProject.execute`
  unfoldable pub update_project : Uuid → ProjectInput → App ProjectWithTechnologies
  update_project k input = do
    found ← save_project k input
    or_raise found (resource_not_found "Project not found")

  -- `DeleteProject.execute`
  unfoldable pub delete_project : Uuid → App (Unit {0})
  delete_project k = do
    deleted ← remove_project k
    unless_raise deleted (resource_not_found "Project not found")

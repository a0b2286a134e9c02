-- ===== src/Api/Projects.antt =====
-- app/api/v1/projects.py and app/schemas/project.py: the payloads, the responses and the handlers.
use ch_tech_landing_page_bac.Base.{ℕ, Bool, true, false, ◌&&◌, ◌||◌, not, Option, List, map, leb}
use ch_tech_landing_page_bac.Errors
use ch_tech_landing_page_bac.Errors.{Result, ok, request_validation_error}
use ch_tech_landing_page_bac.Text.{Str, text, str_eq}
use ch_tech_landing_page_bac.Domain.Entities.{Technology}
use ch_tech_landing_page_bac.Domain.Time.{Time}
use ch_tech_landing_page_bac.Domain.Enums.{
  ProjectStatus, Visibility, project_status, visibility, project_status_value, visibility_value,
}
use ch_tech_landing_page_bac.Domain.ValueObjects.{make_image, make_url}
use ch_tech_landing_page_bac.Models.{Uuid, Date}
use ch_tech_landing_page_bac.App.{App, ◌>>=◌, ◌>>◌, pure, lift, raise_if}
use ch_tech_landing_page_bac.App.Outside.{Env}
use ch_tech_landing_page_bac.Api.Http.{
  Caller, Body, items, details, item, no_content, public_endpoint, admin_read, admin_write, at_most,
  every, is_ok, image_text, url_text,
}
use ch_tech_landing_page_bac.Content.Projects
use ch_tech_landing_page_bac.Content.Projects.{ProjectInput, ProjectWithTechnologies}
use ch_tech_landing_page_bac.Content.Projects.Listing.{ProjectFilters, all_projects}

pub record TechnologySummary : Type 0 where
  pub id : Uuid
  pub name : Str
  pub category : Option Str

pub record ProjectListItem : Type 0 where
  pub id : Uuid
  pub slug : Str
  pub title : Str
  pub featured : Bool

pub record ProjectDetail : Type 0 where
  pub id : Uuid
  pub slug : Str
  pub title : Str
  pub short_description : Option Str
  pub full_description : Option Str
  pub repository_url : Option Str
  pub live_demo_url : Option Str
  pub cover_image : Option Str
  pub status : Str
  pub visibility : Str
  pub featured : Bool
  pub started_at : Option Date
  pub finished_at : Option Date
  pub technologies : List TechnologySummary
  pub created_at : Time
  pub updated_at : Time

-- A payload whose fields have their types, which Pydantic checks before it runs the rest. The
-- enumerations of the schema are those of app.models, with the members of the domain's.
pub record ProjectWrite : Type 0 where
  pub slug : Str
  pub title : Str
  pub short_description : Option Str
  pub full_description : Option Str
  pub repository_url : Option Str
  pub live_demo_url : Option Str
  pub cover_image : Option Str
  pub status : ProjectStatus
  pub visibility : Visibility
  pub featured : Bool
  pub started_at : Option Date
  pub finished_at : Option Date
  pub technology_ids : List Uuid

-- The query of the two lists, with its defaults filled in.
pub record ProjectQuery : Type 0 where
  pub page : ℕ
  pub limit : ℕ
  pub technology : Option Str
  pub featured : Option Bool
  pub status : Option Str
  pub search : Option Str
  pub sort : Str

-- `_to_technology_summary`, which the router of the articles repeats.
unfoldable pub to_technology_summary : Technology → TechnologySummary
to_technology_summary technology = record {
  id = technology.id;
  name = technology.name;
  category = technology.category;
}

-- `_to_list_item`
unfoldable pub to_list_item : ProjectWithTechnologies → ProjectListItem
to_list_item row = record {
  id = row.project.id;
  slug = row.project.slug.value;
  title = row.project.title;
  featured = row.project.featured;
}

-- `_to_detail`
unfoldable pub to_detail : ProjectWithTechnologies → ProjectDetail
to_detail row =
    let project = row.project in
    record {
      id = project.id;
      slug = project.slug.value;
      title = project.title;
      short_description = project.short_description;
      full_description = project.full_description;
      repository_url = url_text project.repository_url;
      live_demo_url = url_text project.live_demo_url;
      cover_image = image_text project.cover_image;
      status = project_status_value project.status;
      visibility = visibility_value project.visibility;
      featured = project.featured;
      started_at = project.started_at;
      finished_at = project.finished_at;
      technologies = map to_technology_summary row.technologies;
      created_at = project.created_at;
      updated_at = project.updated_at;
    }

-- `_to_project_input`: the members of the enumerations go over by their values.
unfoldable pub to_project_input : ProjectWrite → Result ProjectInput
to_project_input payload =
    Errors.◌>>=◌ (project_status (project_status_value payload.status)) λ status.
      Errors.◌>>=◌ (visibility (visibility_value payload.visibility)) λ seen_by. ok (record {
        slug = payload.slug;
        title = payload.title;
        short_description = payload.short_description;
        full_description = payload.full_description;
        repository_url = payload.repository_url;
        live_demo_url = payload.live_demo_url;
        cover_image = payload.cover_image;
        status = status;
        visibility = seen_by;
        featured = payload.featured;
        started_at = payload.started_at;
        finished_at = payload.finished_at;
        technology_ids = payload.technology_ids;
      })

-- `_to_filters`
unfoldable pub to_filters : ProjectQuery → ProjectFilters
to_filters query = record {
  technology = query.technology;
  featured = query.featured;
  status = query.status;
  search = query.search;
  sort = query.sort;
  page = query.page;
  limit = query.limit;
}

-- `Query(ge=1)`, `Query(ge=1, le=100)`
abbrev pub valid_page : ℕ → ℕ → Bool
valid_page page limit = leb 1 page && (leb 1 limit && leb limit 100)

-- The bounds of the query; the pattern of `sort` is two whole words.
unfoldable pub valid_query : ProjectQuery → Bool
valid_query query =
    valid_page query.page query.limit
    && (str_eq query.sort (text "created_at") || str_eq query.sort (text "title"))

pub data Public : Type 0 where
  call_list_projects : ProjectQuery → Public
  call_get_project : Str → Public

pub data Admin : Type 0 where
  call_list_admin_projects : ProjectQuery → Admin
  call_get_admin_project : Uuid → Admin
  call_create_project : ProjectWrite → Admin
  call_update_project : Uuid → ProjectWrite → Admin
  call_delete_project : Uuid → Admin

module _ (env : Env) where
  -- The bounds and validators of `ProjectWrite`.
  unfoldable pub valid : ProjectWrite → Bool
  valid payload =
      at_most 150 payload.slug
      && (at_most 255 payload.title
          && (every (at_most 500) payload.short_description
              && (every (at_most 20_000) payload.full_description
                  && (every (λ s. is_ok (make_url env.unicode s)) payload.repository_url
                      && (every (λ s. is_ok (make_url env.unicode s)) payload.live_demo_url
                          && every (λ s. is_ok (make_image env.unicode s)) payload.cover_image)))))

  -- `GET /` of the public router.
  unfoldable pub list_projects : Caller → ProjectQuery → App (List ProjectListItem)
  list_projects caller query = public_endpoint env caller (do
    raise_if (not (valid_query query)) request_validation_error
    rows ← all_projects env (to_filters query) true
    pure (map to_list_item rows))

  -- `GET /{slug}` of the public router.
  unfoldable pub get_project : Caller → Str → App ProjectDetail
  get_project caller slug =
      public_endpoint env caller
        (do row ← Projects.get_project_by_slug env slug true; pure (to_detail row))

  -- `GET /` of the admin router.
  unfoldable pub list_admin_projects : Caller → ProjectQuery → App (List ProjectDetail)
  list_admin_projects caller query = admin_read env caller λ user. (do
    raise_if (not (valid_query query)) request_validation_error
    rows ← all_projects env (to_filters query) false
    pure (map to_detail rows))

  -- `GET /{project_id}` of the admin router.
  unfoldable pub get_admin_project : Caller → Uuid → App ProjectDetail
  get_admin_project caller project_id =
      admin_read env caller
        λ user. (do row ← Projects.get_project_by_id env project_id; pure (to_detail row))

  -- `POST /` of the admin router.
  unfoldable pub create_project : Caller → ProjectWrite → App ProjectDetail
  create_project caller payload = admin_write env caller (valid payload) λ user. (do
    input ← lift (to_project_input payload)
    row ← Projects.create_project env input
    pure (to_detail row))

  -- `PUT /{project_id}` of the admin router.
  unfoldable pub update_project : Caller → Uuid → ProjectWrite → App ProjectDetail
  update_project caller project_id payload = admin_write env caller (valid payload) λ user. (do
    input ← lift (to_project_input payload)
    row ← Projects.update_project env project_id input
    pure (to_detail row))

  -- `DELETE /{project_id}` of the admin router.
  unfoldable pub delete_project : Caller → Uuid → App (Unit {0})
  delete_project caller project_id =
      admin_write env caller true λ user. (Projects.delete_project env project_id)

  unfoldable pub serve_public : Caller → Public → App (Body ProjectListItem ProjectDetail)
  serve_public caller (call_list_projects query) =
      list_projects caller query >>= λ r. pure (items r)
  serve_public caller (call_get_project slug) = get_project caller slug >>= λ r. pure (item r)

  unfoldable pub serve_admin : Caller → Admin → App (Body ProjectListItem ProjectDetail)
  serve_admin caller (call_list_admin_projects query) =
      list_admin_projects caller query >>= λ r. pure (details r)
  serve_admin caller (call_get_admin_project k) = get_admin_project caller k >>= λ r. pure (item r)
  serve_admin caller (call_create_project payload) =
      create_project caller payload >>= λ r. pure (item r)
  serve_admin caller (call_update_project k payload) =
      update_project caller k payload >>= λ r. pure (item r)
  serve_admin caller (call_delete_project k) = delete_project caller k >>= λ r. pure no_content

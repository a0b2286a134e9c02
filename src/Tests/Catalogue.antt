-- ===== src/Tests/Catalogue.antt =====
-- Projects and articles in the environment in memory.
use ch_tech_landing_page_bac.Base.{
  ℕ, ◌≤◌, true, false, none, some, [], ◌∷◌, ◌≡◌, ◌↔◌, refl, arith, All, length, ◌⊎◌, leb,
}
use ch_tech_landing_page_bac.Errors.{ok}
use ch_tech_landing_page_bac.Text.{text}
use ch_tech_landing_page_bac.Domain.Enums.{public, private, planning}
use ch_tech_landing_page_bac.Domain.Enums
use ch_tech_landing_page_bac.Domain.ValueObjects.{make_slug}
use ch_tech_landing_page_bac.Domain.ValueObjects.Slugs.{make_slug-reads_as_slug, reads_as_slug}
use ch_tech_landing_page_bac.Models.{Db, ProjectModel, TechnologyModel}
use ch_tech_landing_page_bac.Models.Constraints.{IsConsistent}
use ch_tech_landing_page_bac.App.{World, run_app}
use ch_tech_landing_page_bac.Content.Technologies
use ch_tech_landing_page_bac.Content.Projects
use ch_tech_landing_page_bac.Content.Projects.{
  get_project_by_id, ProjectInput, ProjectWithTechnologies, get_project_by_slug, update_project,
  delete_project, create_project,
}
use ch_tech_landing_page_bac.Content.Projects.Listing
use ch_tech_landing_page_bac.Content.Projects.Listing.{ProjectFilters, list_projects}
use ch_tech_landing_page_bac.Content.Projects.Pages.{list_projects-page}
use ch_tech_landing_page_bac.Content.Projects.Privacy.{get_project_by_slug-public}
use ch_tech_landing_page_bac.Content.Projects.Writes.{delete_project_lem}
use ch_tech_landing_page_bac.Tests.Memory.{memory, memory_laws, checks_sound}
use ch_tech_landing_page_bac.Tests.Sessions.{empty_db}

abbrev python : TechnologyModel
python = record {
  id = 5;
  name = text "Python";
  category = some (text "Language");
  icon = none;
  official_url = none;
  created_at = 0;
  updated_at = 0;
}

abbrev pub site : ProjectModel
site = record {
  id = 1;
  slug = text "site";
  title = text "Site";
  short_description = none;
  full_description = none;
  repository_url = none;
  live_demo_url = none;
  cover_image = none;
  status = text "PLANNING";
  visibility = text "PUBLIC";
  featured = true;
  started_at = none;
  finished_at = none;
  client_id = none;
  created_at = 0;
  updated_at = 0;
}

abbrev pub secret : ProjectModel
secret = record site {
  id = 2;
  slug = text "secret";
  title = text "Secret";
  visibility = text "PRIVATE";
}

abbrev pub db : Db
db = record empty_db { technologies = python ∷ []; projects = site ∷ secret ∷ [] }

abbrev pub world : World
world = record { db = db; redis = λ _. none; clock = 0; uuids = 0; secrets = 0 }

pub db-IsConsistent : IsConsistent memory.same_text memory.lower_text db
db-IsConsistent = checks_sound db refl

-- An update that takes the slug of the other project.
abbrev taken : ProjectInput
taken = record {
  slug = text "site";
  title = text "Secret";
  short_description = none;
  full_description = none;
  status = planning;
  visibility = private;
  featured = false;
  started_at = none;
  finished_at = none;
  technology_ids = 5 ∷ [];
  repository_url = none;
  live_demo_url = none;
  cover_image = none;
}

-- To run the use cases.
unfoldable pub program : Unit {0}
unfolding run_app get_project_by_slug Projects.find_by_slug Projects.to_row
    Projects.to_project_entity list_projects Listing.joined Listing.joined_from
    Technologies.to_technology_entity Technologies.load_technologies Technologies.get_technologies
    Enums.visibility Enums.project_status make_slug update_project Projects.save_project
    delete_project Projects.remove_project create_project Projects.insert_project
program = tt

abbrev shown : ProjectWithTechnologies
shown = record {
  project = record {
    id = 1;
    slug = record { value = text "site" };
    title = text "Site";
    short_description = none;
    full_description = none;
    repository_url = none;
    live_demo_url = none;
    cover_image = none;
    status = planning;
    visibility = public;
    featured = true;
    client_id = none;
    started_at = none;
    finished_at = none;
    created_at = 0;
    updated_at = 0;
  };
  technologies = [];
}

get_project_by_slug-public_example : shown.project.visibility ≡ public
unfolding program
get_project_by_slug-public_example =
    get_project_by_slug-public memory memory_laws (text "site") world shown db-IsConsistent refl
      refl

abbrev everything : ProjectFilters
everything = record {
  technology = none;
  featured = none;
  status = none;
  search = none;
  sort = text "created_at";
  page = 1;
  limit = 20;
}

leb-total : (a b : ℕ) → (leb a b ≡ true) ⊎ (leb b a ≡ true)
leb-total a b = ground arith

list_projects-page_example :
    All (λ row. row.project.visibility ≡ public) (shown ∷ []) × (length (shown ∷ []) ≤ 20)
unfolding program
list_projects-page_example =
    list_projects-page memory memory_laws everything world (shown ∷ []) (λ a b. leb-total _ _) refl
      refl

delete_project_lem_example :
    delete_project memory 2 world
    ≡ (ok tt, record world { db = record db { projects = site ∷ [] } })
unfolding program
delete_project_lem_example = delete_project_lem memory memory_laws 2 world db-IsConsistent

make_slug-reads_as_slug_example :
    (make_slug (text "a-1") ≡ ok (record { value = text "a-1" }))
    ↔ (reads_as_slug false (text "a-1") ≡ true)
make_slug-reads_as_slug_example = make_slug-reads_as_slug (text "a-1")

-- A project with a slug of its own.
abbrev blog : ProjectInput
blog = record taken { slug = text "blog" }

abbrev stored : ProjectWithTechnologies
stored = record {
  project = record shown.project {
    id = 1000;
    slug = record { value = text "blog" };
    title = text "Secret";
    visibility = private;
    featured = false;
    created_at = memory.clock_at 0;
    updated_at = memory.clock_at 1;
  };
  technologies =
      (record {
        id = 5;
        name = text "Python";
        category = some (text "Language");
        icon = none;
        official_url = none;
        created_at = 0;
        updated_at = 0;
      })
      ∷ [];
}

-- The project 2 once it has that slug.
abbrev renamed : ProjectWithTechnologies
renamed = record stored {
  project = record stored.project {
    id = 2;
    created_at = secret.created_at;
    updated_at = memory.clock_at 0;
  };
}

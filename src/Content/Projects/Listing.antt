-- ===== src/Content/Projects/Listing.antt =====
-- `SQLAlchemyProjectRepository.list` and `ListProjects.execute`: filters, order and pages.
use ch_tech_landing_page_bac.Base.{
  ℕ, ◌-◌, ◌*◌, Bool, true, false, ◌&&◌, ◌||◌, not, Option, none, some, List, [], ◌∷◌, ◌++◌, ◌==◌,
  filter, leb, if◌then◌else◌,
}
use ch_tech_landing_page_bac.Errors.{traverse, database_error}
use ch_tech_landing_page_bac.Text.{Str, text, str_eq}
use ch_tech_landing_page_bac.Models.{ProjectModel, Db}
use ch_tech_landing_page_bac.App.{App, ◌>>=◌, ◌>>◌, lift, get_db, raise_if}
use ch_tech_landing_page_bac.App.Outside.{Env}
use ch_tech_landing_page_bac.Content.Technologies.{linked}
use ch_tech_landing_page_bac.Content.Projects.{ProjectWithTechnologies, is_public, to_row}

-- `ProjectFilters` (app/application/ports/project_repository.py).
pub record ProjectFilters : Type 0 where
  pub technology : Option Str
  pub featured : Option Bool
  pub status : Option Str
  pub search : Option Str
  pub sort : Str
  pub page : ℕ
  pub limit : ℕ

abbrev same_bool : Bool → Bool → Bool
same_bool true b = b
same_bool false b = not b

abbrev featured_is : Option Bool → ProjectModel → Bool
featured_is none m = true
featured_is (some b) m = same_bool m.featured b

-- One copy of the row for each technology that it joins with.
abbrev copies : {A B : Type 0} → A → List B → List A
copies a [] = []
copies a (_ ∷ bs) = a ∷ copies a bs

-- `scalars().unique()`: the first of the rows with one identity.
abbrev pub unique_rows : List ProjectModel → List ProjectModel
unique_rows [] = []
unique_rows (m ∷ rows) = m ∷ filter (λ r. not (r.id == m.id)) (unique_rows rows)

module _ (env : Env) where
  abbrev status_is : Option Str → ProjectModel → Bool
  status_is none m = true
  status_is (some s) m = env.same_text m.status s

  -- `title.ilike(f"%{search}%")`
  abbrev title_like : Option Str → ProjectModel → Bool
  title_like none m = true
  title_like (some s) m = env.ilike m.title (text "%" ++ s ++ text "%")

  -- The conditions on the project itself.
  abbrev pub meets : ProjectFilters → Bool → ProjectModel → Bool
  meets filters public_only m =
      (not public_only || is_public env m)
      && (featured_is filters.featured m
          && (status_is filters.status m && title_like filters.search m))

  unfoldable pub joined_from : Str → Db → List ProjectModel → List ProjectModel
  joined_from name db [] = []
  joined_from name db (m ∷ rows) =
      copies m (
        filter (λ t. linked db.project_technologies m.id t && env.same_text t.name name)
          db.technologies)
      ++ joined_from name db rows

  -- `query.join(ProjectModel.technologies)` with the condition on the name, if a name is given.
  unfoldable pub joined : Option Str → Db → List ProjectModel
  unfolding joined_from
  joined none db = db.projects
  joined (some name) db = joined_from name db db.projects

  -- The sort column: `title` if asked for, else `created_at`.
  abbrev pub in_order : Str → ProjectModel → ProjectModel → Bool
  in_order sort a b =
      if str_eq sort (text "title")
      then env.text_le a.title b.title
      else leb a.created_at b.created_at

  -- `list`. The first page is 1: for page 0 the offset is negative, which the server refuses.
  unfoldable pub list_projects : ProjectFilters → Bool → App (List ProjectWithTechnologies)
  unfolding joined
  list_projects filters public_only = do
    db ← get_db
    raise_if (filters.page == 0 && not (filters.limit == 0)) database_error
    let rows = filter (meets filters public_only) (joined filters.technology db)
    lift (
        traverse (to_row env db) (
          unique_rows (
            env.page (in_order filters.sort) ((filters.page - 1) * filters.limit)
              (some filters.limit) rows)))

  -- `ListProjects.execute`
  unfoldable pub all_projects : ProjectFilters → Bool → App (List ProjectWithTechnologies)
  all_projects filters public_only = list_projects filters public_only

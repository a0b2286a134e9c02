-- ===== src/Content/Projects/Changes.antt =====
-- What creating and updating a project do to the catalogue.
use ch_tech_landing_page_bac.Base.{◌≡◌, any, find, ◌==◌, if◌then◌else◌}
use ch_tech_landing_page_bac.Errors.{ok}
use ch_tech_landing_page_bac.Models.{Uuid, TechnologyModel, Db}
use ch_tech_landing_page_bac.App.{World}
use ch_tech_landing_page_bac.App.Outside.{Env}
use ch_tech_landing_page_bac.Content.Technologies.{get_technologies, linked}
use ch_tech_landing_page_bac.Content.Projects.{
  ProjectInput, ProjectWithTechnologies, project_id_is, get_project_by_id,
}
use ch_tech_landing_page_bac.Content.Projects.Reading.{Shows}

module _ (env : Env) where
  -- The write of the project `k`, told by what can be seen of it.
  pub record Wrote (input : ProjectInput) (k : Uuid) (row : ProjectWithTechnologies) (before : Db)
      (w : World) : Type 0 where
    -- The answer shows the input, and is what the tables show under the identifier.
    pub shows : Shows env input row.project
    pub found : (get_project_by_id env k w).0 ≡ ok row
    -- All other projects are what they were.
    pub projects :
        (j : Uuid)
        → find (project_id_is j) w.db.projects ≡ (
            if k == j
            then find (project_id_is k) w.db.projects
            else find (project_id_is j) before.projects)
    -- The project is linked with the technologies that were asked for, and no other link changes.
    pub links :
        (j : Uuid) (t : TechnologyModel)
        → linked w.db.project_technologies j t ≡ (
            if k == j
            then any (λ u. u.id == t.id) (get_technologies env input.technology_ids before)
            else linked before.project_technologies j t)
    -- All other tables are what they were.
    pub others : w.db ≡ record before {
      projects = w.db.projects;
      project_technologies = w.db.project_technologies;
    }

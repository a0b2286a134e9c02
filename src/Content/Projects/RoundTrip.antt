-- ===== src/Content/Projects/RoundTrip.antt =====
-- Writing projects and reading them back.
use ch_tech_landing_page_bac.Base.{
  eqb_refl, suc, true, false, none, [], ◌∷◌, ◌≡◌, refl, if◌then◌else◌, Bool-cases, inl, inr,
}
use ch_tech_landing_page_bac.Errors.{resource_not_found, ok, err, conflict}
use ch_tech_landing_page_bac.Models.{ProjectModel, Db}
use ch_tech_landing_page_bac.App.{World, run_app, refused_as, on_integrity-refusal}
use ch_tech_landing_page_bac.App.Outside.{Env, SqlLaws}
use ch_tech_landing_page_bac.App.Rows.{select_id, found_row}
use ch_tech_landing_page_bac.Models.Constraints.{IsConsistent}
use ch_tech_landing_page_bac.Content.Technologies.{get_technologies, relink}
use ch_tech_landing_page_bac.Content.Projects.{
  ProjectWithTechnologies, get_project_by_id, find_by_id, ProjectInput, assigned, to_row,
  insert_project, create_project,
}

module _ (env : Env) where
  module _ (input : ProjectInput) (w : World) where
    -- The row that `create` adds.
    abbrev pub created_row : ProjectModel
    created_row = assigned input (record {
      id = env.uuid_at w.uuids;
      slug = [];
      title = [];
      short_description = none;
      full_description = none;
      repository_url = none;
      live_demo_url = none;
      cover_image = none;
      status = [];
      visibility = [];
      featured = false;
      started_at = none;
      finished_at = none;
      client_id = none;
      created_at = env.clock_at w.clock;
      updated_at = env.clock_at (suc w.clock);
    })

    abbrev pub created_db : Db
    created_db = record w.db {
      projects = created_row ∷ w.db.projects;
      project_technologies =
          relink created_row.id (get_technologies env input.technology_ids w.db)
            w.db.project_technologies;
    }

    abbrev drawn : World
    drawn = record w { uuids = suc w.uuids; clock = suc (suc w.clock) }

    -- A creation in terms of the row that it sends.
    pub create_project_lem : create_project env input w ≡ (
        if env.accepts created_db
        then (to_row env created_db created_row, record drawn { db = created_db })
        else (
          err (refused_as env created_db (conflict "A project with this slug already exists")),
          drawn,
        ))
    unfolding create_project insert_project run_app
    create_project_lem = elim (Bool-cases (env.accepts created_db)) [
      | inl e ↦ rw e
      | inr e ↦
          rw
            (
              e,
              on_integrity-refusal env created_db
                  (conflict "A project with this slug already exists") drawn,
            )
            refl
    ]

  -- A row that was made: what the use case returned, where, and that the tables hold it.
  pub created :
      (input : ProjectInput) (w : World) (row : ProjectWithTechnologies)
      → (create_project env input w).0 ≡ ok row
      → (env.accepts (created_db input w) ≡ true)
        × (to_row env (created_db input w) (created_row input w) ≡ ok row)
        × ((create_project env input w).1.db ≡ created_db input w)
  created input w row e = elim (Bool-cases (env.accepts (created_db input w))) [
    | inl good ↦ (
      good,
      rw (create_project_lem input w, good) at e,
      rw (create_project_lem input w, good) refl,
    )
    | inr bad ↦ absurd (let e' = rw (create_project_lem input w, bad) at e in cc)
  ]

  module _ (laws : SqlLaws env) where
    -- The row that was added is found wherever the tables are the new ones.
    pub get_project_by_id-created :
        (input : ProjectInput) (w w' : World)
        → env.accepts (created_db input w) ≡ true
        → w'.db ≡ created_db input w
        → (get_project_by_id env (env.uuid_at w.uuids) w').0
          ≡ to_row env (created_db input w) (created_row input w)
    unfolding get_project_by_id find_by_id run_app
    get_project_by_id-created input w w' e same =
        let db : Db = created_db input w in
        let c : IsConsistent env.same_text env.lower_text db = laws.accepts_sound db e in
        rw
          (
            same,
            select_id env laws (λ (p : ProjectModel). p.id) (env.uuid_at w.uuids) db.projects
                c.project_ids,
            eqb_refl (env.uuid_at w.uuids),
            found_row (to_row env db (created_row input w)) (resource_not_found "Project not found")
                (record w' { db = db }),
          )
          refl

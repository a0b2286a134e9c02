-- ===== src/Content/Projects/Writes.antt =====
-- Updating and deleting projects.
use ch_tech_landing_page_bac.Base.{
  suc, Bool, true, false, ◌&&◌, Option, none, some, List, [], ◌∷◌, ◌≡◌, refl, find, if◌then◌else◌,
  is_none, Bool-cases, inl, inr, not, find-holds, eqb→eq,
}
use ch_tech_landing_page_bac.Base.Keys.{update_where, delete_where}
use ch_tech_landing_page_bac.Errors
use ch_tech_landing_page_bac.Errors.{
  Error, Result, ok, err, conflict, resource_not_found, integrity_error,
}
use ch_tech_landing_page_bac.Models.{Uuid, ProjectModel, Db}
use ch_tech_landing_page_bac.Models.Constraints.{IsConsistent}
use ch_tech_landing_page_bac.App.{
  World, run_app, refusal, refused_as, on_integrity-refusal, next, or_raise, integrity_as, commit,
  lift, ◌>>◌,
}
use ch_tech_landing_page_bac.App.Outside.{Env, SqlLaws}
use ch_tech_landing_page_bac.App.Rows.{found_row, select_id, updated_time, unless_raise, autoflush}
use ch_tech_landing_page_bac.Content.Technologies.{get_technologies, relink, owner_is}
use ch_tech_landing_page_bac.Content.Projects.{
  ProjectInput, assigned, project_id_is, to_row, save_project, change_project, update_project,
  remove_project, drop_project, delete_project,
}

abbrev none_given : List Uuid → Bool
none_given [] = true
none_given (_ ∷ _) = false

module _ (env : Env) where
  autoflush_lem :
      (ids : List Uuid) (db : Db) (w : World)
      → autoflush env ids db w
        ≡ (if not (none_given ids) && not (env.accepts db) then err (refusal env db) else ok tt, w)
  unfolding autoflush run_app
  autoflush_lem [] db w = refl
  autoflush_lem (k ∷ ks) db w = elim (Bool-cases (env.accepts db)) [ inl e ↦ rw e | inr e ↦ rw e ]

  -- The end of an update: what the query raised, and then the commit.
  finish :
      {A : Type 0} (early : Bool) (e0 : Error) (after : Db) (r : Result A) (missing taken : Error)
      (w : World)
      → next
          (next
            (if early then err e0 else ok (tt {0}), w)
            (λ _.
              integrity_as (commit env after) taken >> lift (Errors.◌>>=◌ r (λ a. ok (some a)))))
          (λ found. or_raise found missing)
        ≡ (if early
            then (err e0, w)
            else if env.accepts after
            then (r, record w { db = after })
            else (err (refused_as env after taken), w))
  unfolding run_app
  finish true e0 after r missing taken w = refl
  finish false e0 after r missing taken w = elim (Bool-cases (env.accepts after)) [
    | inl e ↦ rw e (found_row r missing (record w { db = after }))
    | inr e ↦ rw (e, on_integrity-refusal env after taken w) refl
  ]

  module _ (input : ProjectInput) (w : World) (m : ProjectModel) where
    abbrev pub touched : Bool
    touched = env.is_modified m (assigned input m)

    -- The row after the update.
    abbrev pub changed_row : ProjectModel
    changed_row = record (assigned input m) {
      updated_at = if touched then env.clock_at w.clock else m.updated_at;
    }

    -- What the query for the technologies sends, and what the commit does.
    abbrev pub flushed_db : Db
    flushed_db = record w.db {
      projects = update_where (project_id_is m.id) (λ _. changed_row) w.db.projects;
    }

    abbrev pub changed_db : Db
    changed_db = record flushed_db {
      project_technologies =
          relink m.id (get_technologies env input.technology_ids w.db) w.db.project_technologies;
    }

    abbrev pub ticked : World
    ticked = record w { clock = if touched then suc w.clock else w.clock }

    -- What the query before the commit raises.
    abbrev pub refused_early : Bool
    refused_early = not (none_given input.technology_ids) && not (env.accepts flushed_db)

    updated_time_lem :
        updated_time env m (assigned input m) m.updated_at w
        ≡ (ok (if touched then env.clock_at w.clock else m.updated_at), ticked)
    unfolding updated_time run_app
    updated_time_lem = elim (Bool-cases touched) [ inl e ↦ rw e | inr e ↦ rw e ]

    change_lem :
        next
          (change_project env (some m) input w)
          (λ found. or_raise found (resource_not_found "Project not found"))
        ≡ (if refused_early
            then (err (refusal env (flushed_db)), ticked)
            else if env.accepts changed_db
            then (to_row env changed_db changed_row, record ticked { db = changed_db })
            else (
              err (refused_as env changed_db (conflict "A project with this slug already exists")),
              ticked,
            ))
    unfolding change_project run_app
    change_lem =
        rw (updated_time_lem, autoflush_lem input.technology_ids)
          (finish refused_early (refusal env flushed_db) changed_db
            (to_row env changed_db changed_row) (resource_not_found "Project not found")
            (conflict "A project with this slug already exists") ticked)

  drop_lem :
      (k : Uuid) (w : World) (o : Option ProjectModel)
      → find (project_id_is k) w.db.projects ≡ o
      → (let after = record w.db {
        projects = delete_where (project_id_is k) w.db.projects;
        project_technologies = delete_where (owner_is k) w.db.project_technologies;
      } in
          next
            (drop_project env o w)
            (λ deleted. unless_raise deleted (resource_not_found "Project not found"))
          ≡ (if is_none o
              then (err (resource_not_found "Project not found"), w)
              else if env.accepts after
              then (ok tt, record w { db = after })
              else (
                err (
                    refused_as env after
                      (conflict "Project is referenced by an existing case study or testimonial")),
                w,
              )))
  unfolding drop_project run_app
  drop_lem k w none f = refl
  drop_lem k w (some m) f =
      let same : m.id ≡ k = eqb→eq m.id k (find-holds (project_id_is k) w.db.projects m f) in
      let after : Db = record w.db {
        projects = delete_where (project_id_is k) w.db.projects;
        project_technologies = delete_where (owner_is k) w.db.project_technologies;
      } in
      rw same (elim (Bool-cases (env.accepts after)) [
        | inl e ↦ rw e
        | inr e ↦
            rw
              (
                e,
                on_integrity-refusal env after
                    (conflict "Project is referenced by an existing case study or testimonial") w,
              )
              refl
      ])

  module _ (laws : SqlLaws env) where
    -- An update in terms of what it sends: with technologies to look up, the row without its links
    -- before the `try`, and then the row with its links.
    pub update_project_lem :
        (k : Uuid) (input : ProjectInput) (w : World) (m : ProjectModel)
        → IsConsistent env.same_text env.lower_text w.db
        → find (project_id_is k) w.db.projects ≡ some m
        → update_project env k input w ≡ (
            if refused_early input w m
            then (err (refusal env (flushed_db input w m)), ticked input w m)
            else if env.accepts (changed_db input w m)
            then (
              to_row env (changed_db input w m) (changed_row input w m),
              record (ticked input w m) { db = changed_db input w m },
            )
            else (
              err (
                  refused_as env
                    (changed_db input w m)
                    (conflict "A project with this slug already exists")),
              ticked input w m,
            ))
    unfolding update_project save_project run_app
    update_project_lem k input w m c f =
        rw (select_id env laws (λ (p : ProjectModel). p.id) k w.db.projects c.project_ids, f)
          (change_lem input w m)

    -- Deleting a project, on all branches: 404 if there is none; if the server refuses the tables
    -- without it, 409 where the refusal is an IntegrityError and the error itself where it is not;
    -- in these cases the tables stay; else its row and links are gone. The database is consistent.
    pub delete_project_lem :
        (k : Uuid) (w : World)
        → IsConsistent env.same_text env.lower_text w.db
        → (let after = record w.db {
          projects = delete_where (project_id_is k) w.db.projects;
          project_technologies = delete_where (owner_is k) w.db.project_technologies;
        } in
            delete_project env k w ≡ (
              if is_none (find (project_id_is k) w.db.projects)
              then (err (resource_not_found "Project not found"), w)
              else if env.accepts after
              then (ok tt, record w { db = after })
              else (
                err (
                    refused_as env after
                      (conflict "Project is referenced by an existing case study or testimonial")),
                w,
              )))
    unfolding delete_project remove_project drop_project run_app
    delete_project_lem k w c =
        rw (select_id env laws (λ (p : ProjectModel). p.id) k w.db.projects c.project_ids)
          (drop_lem k w (find (project_id_is k) w.db.projects) refl)

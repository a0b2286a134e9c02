-- ===== src/Content/CaseStudies.antt =====
-- Case studies: app/infrastructure/repositories/case_study_repository.py and
-- app/application/use_cases/case_studies.py. No `IntegrityError` is caught here.
pub mod Privacy
use ch_tech_landing_page_bac.Base.{
  Bool, true, false, ◌&&◌, ◌||◌, not, Option, none, some, List, ◌∷◌, ◌==◌, filter, any, map,
  is_none,
}
use ch_tech_landing_page_bac.Base.Keys.{update_where, delete_where}
use ch_tech_landing_page_bac.Errors.{resource_not_found}
use ch_tech_landing_page_bac.Text.{Str}
use ch_tech_landing_page_bac.Domain.Json.{Json}
use ch_tech_landing_page_bac.Domain.Entities.{CaseStudy}
use ch_tech_landing_page_bac.Models.{Uuid, CaseStudyModel, Db}
use ch_tech_landing_page_bac.App.{
  App, ◌>>=◌, ◌>>◌, pure, lift, get_db, or_raise, raise_if, now, uuid4, commit,
}
use ch_tech_landing_page_bac.App.Outside.{Env}
use ch_tech_landing_page_bac.App.Rows.{updated_time, unless_raise}
use mathlib.Core.Option as Option
use ch_tech_landing_page_bac.Base.{leb}
use ch_tech_landing_page_bac.Models.{ProjectModel}
use ch_tech_landing_page_bac.Content.Projects.{find_by_id, is_public}

pub record CaseStudyInput : Type 0 where
  pub project_id : Uuid
  pub challenge : Option Str
  pub solution : Option Str
  pub architecture : Option Str
  pub lessons_learned : Option Str
  pub metrics : Option Json

abbrev pub case_study_id_is : Uuid → CaseStudyModel → Bool
case_study_id_is k m = m.id == k

-- The assignments of `update`.
abbrev pub assigned : CaseStudyInput → CaseStudyModel → CaseStudyModel
assigned input model = record model {
  project_id = input.project_id;
  challenge = input.challenge;
  solution = input.solution;
  architecture = input.architecture;
  lessons_learned = input.lessons_learned;
  metrics = input.metrics;
}

module _ (env : Env) where
  -- `_to_entity`
  unfoldable pub to_case_study_entity : CaseStudyModel → CaseStudy
  to_case_study_entity model = record {
    id = model.id;
    project_id = model.project_id;
    challenge = model.challenge;
    solution = model.solution;
    architecture = model.architecture;
    lessons_learned = model.lessons_learned;
    metrics = model.metrics;
    created_at = model.created_at;
    updated_at = model.updated_at;
  }

  -- The join with the project and the condition on its visibility.
  abbrev pub of_public_project : Db → CaseStudyModel → Bool
  of_public_project db m =
      any (λ (p : ProjectModel). p.id == m.project_id && is_public env p) db.projects

  abbrev pub seen : Db → Bool → CaseStudyModel → Bool
  seen db public_only m = not public_only || of_public_project db m

  -- `list`
  unfoldable pub list_case_studies : Bool → App (List CaseStudy)
  unfolding to_case_study_entity
  list_case_studies public_only = do
    db ← get_db
    pure (
        map to_case_study_entity (
          env.page (λ a b. leb a.created_at b.created_at) 0 none
            (filter (seen db public_only) db.case_studies)))

  -- `get_by_id`
  unfoldable pub find_case_study : Uuid → Bool → App (Option CaseStudy)
  unfolding to_case_study_entity
  find_case_study k public_only = do
    db ← get_db
    found ←
        lift (env.select_one (λ m. case_study_id_is k m && seen db public_only m) db.case_studies)
    pure (Option.map to_case_study_entity found)

  -- `create`
  unfoldable pub insert_case_study : CaseStudyInput → App CaseStudy
  unfolding to_case_study_entity
  insert_case_study input = do
    k ← uuid4 env
    created ← now env
    updated ← now env
    db ← get_db
    let model : CaseStudyModel = record {
      id = k;
      project_id = input.project_id;
      challenge = input.challenge;
      solution = input.solution;
      architecture = input.architecture;
      lessons_learned = input.lessons_learned;
      metrics = input.metrics;
      created_at = created;
      updated_at = updated;
    }
    let after = record db { case_studies = model ∷ db.case_studies }
    commit env after
    pure (to_case_study_entity model)

  unfoldable pub change_case_study : Option CaseStudyModel → CaseStudyInput → App (Option CaseStudy)
  unfolding to_case_study_entity
  change_case_study none input = pure none
  change_case_study (some model) input = do
    stamp ← updated_time env model (assigned input model) model.updated_at
    db ← get_db
    let changed : CaseStudyModel = record (assigned input model) { updated_at = stamp }
    let after = record db {
      case_studies = update_where (case_study_id_is model.id) (λ _. changed) db.case_studies;
    }
    commit env after
    pure (some (to_case_study_entity changed))

  -- `update`
  unfoldable pub save_case_study : Uuid → CaseStudyInput → App (Option CaseStudy)
  unfolding change_case_study
  save_case_study k input = do
    db ← get_db
    found ← lift (env.select_one (case_study_id_is k) db.case_studies)
    change_case_study found input

  unfoldable pub drop_case_study : Option CaseStudyModel → App Bool
  drop_case_study none = pure false
  drop_case_study (some model) = do
    db ← get_db
    let after = record db {
      case_studies = delete_where (case_study_id_is model.id) db.case_studies;
    }
    commit env after
    pure true

  -- `delete`
  unfoldable pub remove_case_study : Uuid → App Bool
  unfolding drop_case_study
  remove_case_study k = do
    db ← get_db
    found ← lift (env.select_one (case_study_id_is k) db.case_studies)
    drop_case_study found

  -- `ListCaseStudies.execute`
  unfoldable pub all_case_studies : Bool → App (List CaseStudy)
  all_case_studies public_only = list_case_studies public_only

  -- `GetCaseStudyById.execute`
  unfoldable pub get_case_study_by_id : Uuid → Bool → App CaseStudy
  get_case_study_by_id k public_only = do
    found ← find_case_study k public_only
    or_raise found (resource_not_found "Case study not found")

  -- `CreateCaseStudy.execute`
  unfoldable pub create_case_study : CaseStudyInput → App CaseStudy
  create_case_study input = do
    project ← find_by_id env input.project_id
    raise_if (is_none project) (resource_not_found "Project not found")
    insert_case_study input

  -- `UpdateCaseStudy.execute`
  unfoldable pub update_case_study : Uuid → CaseStudyInput → App CaseStudy
  update_case_study k input = do
    existing ← find_case_study k false
    raise_if (is_none existing) (resource_not_found "Case study not found")
    project ← find_by_id env input.project_id
    raise_if (is_none project) (resource_not_found "Project not found")
    found ← save_case_study k input
    or_raise found (resource_not_found "Case study not found")

  -- `DeleteCaseStudy.execute`
  unfoldable pub delete_case_study : Uuid → App (Unit {0})
  delete_case_study k = do
    deleted ← remove_case_study k
    unless_raise deleted (resource_not_found "Case study not found")

-- ===== src/Api/CaseStudies.antt =====
-- app/api/v1/case_studies.py and app/schemas/case_study.py: the payloads, the responses and the handlers.
use ch_tech_landing_page_bac.Base.{Bool, true, false, ◌&&◌, Option, List, map}
use ch_tech_landing_page_bac.Text.{Str}
use ch_tech_landing_page_bac.Domain.Json.{Json}
use ch_tech_landing_page_bac.Domain.Time.{Time}
use ch_tech_landing_page_bac.Models.{Uuid}
use ch_tech_landing_page_bac.App.{App, ◌>>=◌, pure}
use ch_tech_landing_page_bac.App.Outside.{Env}
use ch_tech_landing_page_bac.Api.Http.{
  Caller, Body, items, item, no_content, public_endpoint, admin_read, admin_write, at_most, every,
}
use ch_tech_landing_page_bac.Domain.Entities.{CaseStudy}
use ch_tech_landing_page_bac.Content.CaseStudies
use ch_tech_landing_page_bac.Content.CaseStudies.{CaseStudyInput}

pub record CaseStudyItem : Type 0 where
  pub id : Uuid
  pub project_id : Uuid
  pub challenge : Option Str
  pub solution : Option Str
  pub architecture : Option Str
  pub lessons_learned : Option Str
  pub metrics : Option Json
  pub created_at : Time
  pub updated_at : Time

-- A payload whose fields have their types, which Pydantic checks before it runs the rest.
pub record CaseStudyWrite : Type 0 where
  pub project_id : Uuid
  pub challenge : Option Str
  pub solution : Option Str
  pub architecture : Option Str
  pub lessons_learned : Option Str
  pub metrics : Option Json

-- `_to_item`
unfoldable pub to_item : CaseStudy → CaseStudyItem
to_item case_study = record {
  id = case_study.id;
  project_id = case_study.project_id;
  challenge = case_study.challenge;
  solution = case_study.solution;
  architecture = case_study.architecture;
  lessons_learned = case_study.lessons_learned;
  metrics = case_study.metrics;
  created_at = case_study.created_at;
  updated_at = case_study.updated_at;
}

-- `_to_input`
unfoldable pub to_input : CaseStudyWrite → CaseStudyInput
to_input payload = record {
  project_id = payload.project_id;
  challenge = payload.challenge;
  solution = payload.solution;
  architecture = payload.architecture;
  lessons_learned = payload.lessons_learned;
  metrics = payload.metrics;
}

-- The routes of the public router.
pub data Public : Type 0 where
  call_list_case_studies : Public
  call_get_case_study : Uuid → Public

-- The routes of the admin router.
pub data Admin : Type 0 where
  call_list_admin_case_studies : Admin
  call_get_admin_case_study : Uuid → Admin
  call_create_case_study : CaseStudyWrite → Admin
  call_update_case_study : Uuid → CaseStudyWrite → Admin
  call_delete_case_study : Uuid → Admin

module _ (env : Env) where
  -- The bounds and validators of `CaseStudyWrite`.
  unfoldable pub valid : CaseStudyWrite → Bool
  valid payload =
      every (at_most 10_000) payload.challenge
      && (every (at_most 10_000) payload.solution
          && (every (at_most 10_000) payload.architecture
              && (every (at_most 10_000) payload.lessons_learned)))

  -- `GET /` of the public router.
  unfoldable pub list_case_studies : Caller → App (List CaseStudyItem)
  list_case_studies caller =
      public_endpoint env caller
        (do found ← CaseStudies.all_case_studies env true; pure (map to_item found))

  -- `GET /{case_study_id}` of the public router.
  unfoldable pub get_case_study : Caller → Uuid → App CaseStudyItem
  get_case_study caller case_study_id =
      public_endpoint env caller
        (do found ← CaseStudies.get_case_study_by_id env case_study_id true; pure (to_item found))

  -- `GET /` of the admin router.
  unfoldable pub list_admin_case_studies : Caller → App (List CaseStudyItem)
  list_admin_case_studies caller =
      admin_read env caller
        λ user. (do found ← CaseStudies.all_case_studies env false; pure (map to_item found))

  -- `GET /{case_study_id}` of the admin router.
  unfoldable pub get_admin_case_study : Caller → Uuid → App CaseStudyItem
  get_admin_case_study caller case_study_id = admin_read env caller λ user. (do
    found ← CaseStudies.get_case_study_by_id env case_study_id false
    pure (to_item found))

  -- `POST /` of the admin router.
  unfoldable pub create_case_study : Caller → CaseStudyWrite → App CaseStudyItem
  create_case_study caller payload = admin_write env caller (valid payload) λ user. (do
    found ← CaseStudies.create_case_study env (to_input payload)
    pure (to_item found))

  -- `PUT /{case_study_id}` of the admin router.
  unfoldable pub update_case_study : Caller → Uuid → CaseStudyWrite → App CaseStudyItem
  update_case_study caller case_study_id payload = admin_write env caller (valid payload) λ user.
      (do
        found ← CaseStudies.update_case_study env case_study_id (to_input payload)
        pure (to_item found))

  -- `DELETE /{case_study_id}` of the admin router.
  unfoldable pub delete_case_study : Caller → Uuid → App (Unit {0})
  delete_case_study caller case_study_id =
      admin_write env caller true λ user. (CaseStudies.delete_case_study env case_study_id)

  unfoldable pub serve_public : Caller → Public → App (Body CaseStudyItem CaseStudyItem)
  serve_public caller call_list_case_studies = list_case_studies caller >>= λ r. pure (items r)
  serve_public caller (call_get_case_study case_study_id) =
      get_case_study caller case_study_id >>= λ r. pure (item r)

  unfoldable pub serve_admin : Caller → Admin → App (Body CaseStudyItem CaseStudyItem)
  serve_admin caller call_list_admin_case_studies =
      list_admin_case_studies caller >>= λ r. pure (items r)
  serve_admin caller (call_get_admin_case_study case_study_id) =
      get_admin_case_study caller case_study_id >>= λ r. pure (item r)
  serve_admin caller (call_create_case_study payload) =
      create_case_study caller payload >>= λ r. pure (item r)
  serve_admin caller (call_update_case_study case_study_id payload) =
      update_case_study caller case_study_id payload >>= λ r. pure (item r)
  serve_admin caller (call_delete_case_study case_study_id) =
      delete_case_study caller case_study_id >>= λ r. pure no_content

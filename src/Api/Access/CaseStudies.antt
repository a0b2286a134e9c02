-- ===== src/Api/Access/CaseStudies.antt =====
-- The admin router of Api/CaseStudies, for a caller without access.
use ch_tech_landing_page_bac.App.Outside.{Env}
use ch_tech_landing_page_bac.Api.Http.{Caller}
use ch_tech_landing_page_bac.Api.Access.Guards.{HasNoAccess, IsRefused, refusal_rules}
use ch_tech_landing_page_bac.Api.CaseStudies.{
  Admin, call_list_admin_case_studies, call_get_admin_case_study, call_create_case_study,
  call_update_case_study, call_delete_case_study, serve_admin, list_admin_case_studies,
  get_admin_case_study, create_case_study, update_case_study, delete_case_study,
}

pub serve_admin-IsRefused :
    (env : Env) (caller : Caller)
    → HasNoAccess env caller
    → (r : Admin) → IsRefused (serve_admin env caller r)
unfolding serve_admin list_admin_case_studies get_admin_case_study create_case_study
    update_case_study delete_case_study
serve_admin-IsRefused env caller h call_list_admin_case_studies = search refusal_rules
serve_admin-IsRefused env caller h (call_get_admin_case_study case_study_id) = search refusal_rules
serve_admin-IsRefused env caller h (call_create_case_study payload) = search refusal_rules
serve_admin-IsRefused env caller h (call_update_case_study case_study_id payload) =
    search refusal_rules
serve_admin-IsRefused env caller h (call_delete_case_study case_study_id) = search refusal_rules

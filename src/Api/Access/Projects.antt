-- ===== src/Api/Access/Projects.antt =====
-- The admin router of Api/Projects, for a caller without access.
use ch_tech_landing_page_bac.App.Outside.{Env}
use ch_tech_landing_page_bac.Api.Http.{Caller}
use ch_tech_landing_page_bac.Api.Access.Guards.{HasNoAccess, IsRefused, refusal_rules}
use ch_tech_landing_page_bac.Api.Projects.{
  Admin, call_list_admin_projects, call_get_admin_project, call_create_project, call_update_project,
  call_delete_project, serve_admin, list_admin_projects, get_admin_project, create_project,
  update_project, delete_project,
}

pub serve_admin-IsRefused :
    (env : Env) (caller : Caller)
    → HasNoAccess env caller
    → (r : Admin) → IsRefused (serve_admin env caller r)
unfolding serve_admin list_admin_projects get_admin_project create_project update_project
    delete_project
serve_admin-IsRefused env caller h (call_list_admin_projects query) = search refusal_rules
serve_admin-IsRefused env caller h (call_get_admin_project k) = search refusal_rules
serve_admin-IsRefused env caller h (call_create_project payload) = search refusal_rules
serve_admin-IsRefused env caller h (call_update_project k payload) = search refusal_rules
serve_admin-IsRefused env caller h (call_delete_project k) = search refusal_rules

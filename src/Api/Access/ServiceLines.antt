-- ===== src/Api/Access/ServiceLines.antt =====
-- The admin router of Api/ServiceLines, for a caller without access.
use ch_tech_landing_page_bac.App.Outside.{Env}
use ch_tech_landing_page_bac.Api.Http.{Caller}
use ch_tech_landing_page_bac.Api.Access.Guards.{HasNoAccess, IsRefused, refusal_rules}
use ch_tech_landing_page_bac.Api.ServiceLines.{
  Admin, call_create_service_line, call_update_service_line, call_delete_service_line, serve_admin,
  create_service_line, update_service_line, delete_service_line,
}

pub serve_admin-IsRefused :
    (env : Env) (caller : Caller)
    → HasNoAccess env caller
    → (r : Admin) → IsRefused (serve_admin env caller r)
unfolding serve_admin create_service_line update_service_line delete_service_line
serve_admin-IsRefused env caller h (call_create_service_line payload) = search refusal_rules
serve_admin-IsRefused env caller h (call_update_service_line service_line_id payload) =
    search refusal_rules
serve_admin-IsRefused env caller h (call_delete_service_line service_line_id) = search refusal_rules

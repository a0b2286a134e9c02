-- ===== src/Api/Access/Services.antt =====
-- The admin router of Api/Services, for a caller without access.
use ch_tech_landing_page_bac.App.Outside.{Env}
use ch_tech_landing_page_bac.Api.Http.{Caller}
use ch_tech_landing_page_bac.Api.Access.Guards.{HasNoAccess, IsRefused, refusal_rules}
use ch_tech_landing_page_bac.Api.Services.{
  Admin, call_list_admin_services, call_get_admin_service, call_create_service, call_update_service,
  call_delete_service, serve_admin, list_admin_services, get_admin_service, create_service,
  update_service, delete_service,
}

pub serve_admin-IsRefused :
    (env : Env) (caller : Caller)
    → HasNoAccess env caller
    → (r : Admin) → IsRefused (serve_admin env caller r)
unfolding serve_admin list_admin_services get_admin_service create_service update_service
    delete_service
serve_admin-IsRefused env caller h call_list_admin_services = search refusal_rules
serve_admin-IsRefused env caller h (call_get_admin_service service_id) = search refusal_rules
serve_admin-IsRefused env caller h (call_create_service payload) = search refusal_rules
serve_admin-IsRefused env caller h (call_update_service service_id payload) = search refusal_rules
serve_admin-IsRefused env caller h (call_delete_service service_id) = search refusal_rules
